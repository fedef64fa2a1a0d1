-- ===== src/Cache/Whole.antt =====
-- Caches whose sets are all chained, and what their constructor makes.
use smt_register_capping.Base.{
  ℕ, ◌%◌, ◌^◌, ◌+◌, ◌*◌, ◌<◌, ◌≤◌, ◌≡◌, refl, sym, ◌∙◌, inl, inr, subst, true, false, not, ◌==◌,
  List, ok, leb, ltb, length, length-set, length-replicate, replicate, set, get_or, get_or-set_self,
  get_or-set_ne, Bool-cases, arith,
}
use smt_register_capping.Base.Bits.{mul-row}
use smt_register_capping.Cache.{
  CachePolicy, Cache, CacheBlk, fresh_blk, CacheSet, is_power, halvings, log_base2, new,
}
use smt_register_capping.Cache.Way.{blk_at}
use smt_register_capping.Cache.Rows.{
  IsChained, SamePointers, Outside, kept-IsChained, line-SamePointers,
}
use smt_register_capping.Cache.Built.{no_blocks}
use smt_register_capping.Cache.Sets.{Rows, link_sets-Rows}
use smt_register_capping.Cache.Access.{put_set}

-- the sets of a cache, each a row of blocks chained in some order
pub record IsCache (c : Cache) : Type 0 where
  pub some_sets : 0 < c.nsets
  pub some_ways : 0 < c.assoc
  pub size : length c.blocks ≡ c.nsets * c.assoc
  pub rows : Rows c.blocks c.sets c.assoc 0 c.nsets

log_base2-halvings :
    (n : ℕ)
    → (not (n == 0)) ≡ true
    → is_power n ≡ true
    → n < 2 ^ 31
    → log_base2 n ≡ ok (halvings 32 n)
unfolding log_base2
log_base2-halvings n positive power small =
    let fits : ltb n (2 ^ 31) ≡ true = ground arith in rw (positive, power, fits) refl

-- The constructor with numbers of sets and of ways that are powers of two and a block size that is one
-- and at least 8, where the number of sets and the block size are below 2^31 and the number of blocks
-- is below 2^32: it gives a cache, and every set of it is chained.
pub new-IsCache :
    (nsets bsize assoc : ℕ) (policy : CachePolicy) (hit_latency : ℕ)
    → not (nsets == 0) ≡ true
    → is_power nsets ≡ true
    → leb 8 bsize ≡ true
    → is_power bsize ≡ true
    → not (assoc == 0) ≡ true
    → is_power assoc ≡ true
    → nsets < 2 ^ 31
    → bsize < 2 ^ 31
    → nsets * assoc < 2 ^ 32
    → (c : Cache) × (new nsets bsize assoc policy hit_latency ≡ ok c) × IsCache c
unfolding new
new-IsCache nsets bsize assoc policy hit_latency e1 p1 e2 p2 e3 p3 few narrow fits =
    let count : nsets * assoc % 2 ^ 32 ≡ nsets * assoc = omega (arith, fits) in
    let size = length-replicate (nsets * assoc % 2 ^ 32) fresh_blk ∙ count in
    let positive : 0 < assoc = ground arith in
    let (r, run, rows, kept, below) =
      link_sets-Rows (replicate (nsets * assoc % 2 ^ 32) fresh_blk) assoc 0 nsets positive
        (omega (arith, size)) in
    (
      record {
        nsets = nsets;
        bsize = bsize;
        assoc = assoc;
        policy = policy;
        hit_latency = hit_latency;
        set_shift = halvings 32 bsize;
        tag_shift = halvings 32 bsize + halvings 32 nsets;
        bus_free = 0;
        blocks = r.0;
        sets = r.1;
      },
      rw (log_base2-halvings bsize (ground arith) p2 narrow, log_base2-halvings nsets e1 p1 few)
          (rw (e1, p1, e2, p2, e3, p3) (rw run refl)),
      record { some_sets = ground arith; some_ways = positive; size = kept ∙ size; rows = rows },
    )

-- a change of one row and its set
pub put-IsCache :
    (c : Cache) (i : ℕ) (r : List CacheBlk × CacheSet)
    → IsCache c
    → i < c.nsets
    → IsChained r.0 r.1 (0 + i * c.assoc) (0 + i * c.assoc + c.assoc)
    → Outside c.blocks r.0 (0 + i * c.assoc) (0 + i * c.assoc + c.assoc)
    → IsCache (put_set c i r)
put-IsCache c i r v lt chained outside = record {
  some_sets = v.some_sets;
  some_ways = v.some_ways;
  size = outside.size ∙ v.size;
  rows = record {
    count = length-set c.sets i r.1 ∙ v.rows.count;
    chained = λ j g. elim (Bool-cases (i == j)) [
      | inl e ↦
          let same : i ≡ j = ground arith in
          subst
            (λ n.
              IsChained r.0 (get_or (set c.sets i r.1) n no_blocks) (0 + n * c.assoc)
                (0 + n * c.assoc + c.assoc))
            same
            (subst (λ s. IsChained r.0 s (0 + i * c.assoc) (0 + i * c.assoc + c.assoc))
              (sym (get_or-set_self c.sets i r.1 no_blocks (omega (arith, lt, v.rows.count))))
              chained)
      | inr e ↦
          subst (λ s. IsChained r.0 s (0 + j * c.assoc) (0 + j * c.assoc + c.assoc))
            (sym (get_or-set_ne c.sets i j r.1 no_blocks (ground arith)))
            (kept-IsChained c.blocks r.0 (get_or c.sets j no_blocks) (0 + j * c.assoc)
              (0 + j * c.assoc + c.assoc) outside.size (λ x from to. apart j x e from to)
              (v.rows.chained j g))
    ];
  };
}
  where
    apart :
        (j x : ℕ)
        → (i == j) ≡ false
        → 0 + j * c.assoc ≤ x
        → x < 0 + j * c.assoc + c.assoc
        → SamePointers c.blocks r.0 x
    apart j x e from to = elim (Bool-cases (ltb j i)) [
      | inl f ↦ outside.below x (omega (arith, mul-row c.assoc j i (ground arith), to))
      | inr f ↦ outside.above x (omega (arith, mul-row c.assoc i j (ground arith), from))
    ]

-- a change of a block that keeps its pointers
pub line-IsCache :
    (c : Cache) (p : ℕ) (b : CacheBlk) (bus_free : ℕ)
    → IsCache c
    → p < length c.blocks
    → b.way_prev ≡ (blk_at c.blocks p).way_prev
    → b.way_next ≡ (blk_at c.blocks p).way_next
    → IsCache (record c { blocks = set c.blocks p b; bus_free = bus_free })
line-IsCache c p b bus_free v lt prev next = record {
  some_sets = v.some_sets;
  some_ways = v.some_ways;
  size = length-set c.blocks p b ∙ v.size;
  rows = record {
    count = v.rows.count;
    chained = λ j g.
        kept-IsChained c.blocks (set c.blocks p b) _ _ _ (length-set c.blocks p b)
          (λ x from to. line-SamePointers c.blocks p b lt prev next x) (v.rows.chained j g);
  };
}
