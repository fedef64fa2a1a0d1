-- ===== src/Cache/Sets.antt =====
-- The constructor of a cache: the way lists of the sets.
use smt_register_capping.Base.{
  ℕ, zero, suc, ◌+◌, ◌*◌, ◌<◌, ◌≤◌, ◌≡◌, refl, ap, ◌∙◌, subst, List, [], ◌∷◌, ok, length, get_or,
  arith,
}
use smt_register_capping.Cache.{CacheBlk, CacheSet, link_blk, link_blks, link_sets}
use smt_register_capping.Cache.Rows.{
  Row, IsChained, SamePointers, Outside, both-Outside, both-SamePointers, kept-IsChained,
}
use smt_register_capping.Cache.Built.{no_blocks, link_blk-first, link_blk-next}

wider-Outside :
    {b0 b1 : List CacheBlk} {lo hi hi' : ℕ} → hi ≤ hi' → Outside b0 b1 lo hi → Outside b0 b1 lo hi'
wider-Outside le o = record {
  size = o.size;
  below = o.below;
  above = λ x g. o.above x (omega (arith, g, le));
}

link_blks_step :
    (blks : List CacheBlk) (s : CacheSet) (i left : ℕ) (r1 r2 : List CacheBlk × CacheSet)
    → link_blk blks s i ≡ ok r1
    → link_blks r1.0 r1.1 (i + 1) left ≡ ok r2
    → link_blks blks s i (suc left) ≡ ok r2
unfolding link_blks
link_blks_step blks s i left r1 r2 run1 run2 = rw (run1, run2) refl

link_blks-IsChained :
    (blks : List CacheBlk) (s : CacheSet) (lo i hi left h : ℕ) (t : List ℕ)
    → Row blks s lo i h t
    → i + left ≡ hi
    → hi ≤ length blks
    → (r : List CacheBlk × CacheSet) × (link_blks blks s i left ≡ ok r)
      × IsChained r.0 r.1 lo hi
      × Outside blks r.0 lo hi
unfolding link_blks
link_blks-IsChained blks s lo i hi zero h t c e le =
    let same : i ≡ hi = omega (arith, e) in
    (
      (blks, s),
      refl,
      subst (IsChained blks s lo) same (record { head = h; rest = t; row = c }),
      record {
        size = refl;
        below = λ x g. record { prev = refl; next = refl };
        above = λ x g. record { prev = refl; next = refl };
      },
    )
link_blks-IsChained blks s lo i hi (suc left) h t c e le =
    let (r1, run1, c1, o1) = link_blk-next blks s lo i h t c (omega (arith, e, le)) in
    let (r2, run2, c2, o2) =
      link_blks-IsChained r1.0 r1.1 lo (i + 1) hi left i (h ∷ t) c1 (omega (arith, e))
        (omega (arith, le, o1.size)) in
    (
      r2,
      link_blks_step blks s i left r1 r2 run1 run2,
      c2,
      both-Outside (wider-Outside (omega (arith, e)) o1) o2,
    )

-- one set after the other
link_set-IsChained :
    (blks : List CacheBlk) (i assoc : ℕ)
    → 0 < assoc
    → i + assoc ≤ length blks
    → (r : List CacheBlk × CacheSet) × (link_blks blks no_blocks i assoc ≡ ok r)
      × IsChained r.0 r.1 i (i + assoc)
      × Outside blks r.0 i (i + assoc)
link_set-IsChained blks i zero positive le = absurd (omega arith)
link_set-IsChained blks i (suc left) positive le =
    let (r1, run1, c1, o1) = link_blk-first blks i (omega (arith, le)) in
    let (r2, run2, c2, o2) =
      link_blks-IsChained r1.0 r1.1 i (i + 1) (i + suc left) left i [] c1 (omega arith)
        (omega (arith, le, o1.size)) in
    (
      r2,
      link_blks_step blks no_blocks i left r1 r2 run1 run2,
      c2,
      both-Outside (wider-Outside (omega arith) o1) o2,
    )

-- the sets that are linked: one row after the other
pub record Rows (blks : List CacheBlk) (ss : List CacheSet) (assoc i left : ℕ) : Type 0 where
  pub count : length ss ≡ left
  pub chained :
      (j : ℕ)
      → j < left
      → IsChained blks (get_or ss j no_blocks) (i + j * assoc) (i + j * assoc + assoc)

pub link_sets-Rows :
    (blks : List CacheBlk) (assoc i left : ℕ)
    → 0 < assoc
    → i + left * assoc ≤ length blks
    → (r : List CacheBlk × List CacheSet) × (link_sets blks assoc i left ≡ ok r)
      × Rows r.0 r.1 assoc i left
      × (length r.0 ≡ length blks)
      × ((x : ℕ) → x < i → SamePointers blks r.0 x)
unfolding link_sets
link_sets-Rows blks assoc i zero positive le = (
  (blks, []),
  refl,
  record { count = refl; chained = λ j lt. absurd (omega arith) },
  refl,
  λ x g. record { prev = refl; next = refl },
)
link_sets-Rows blks assoc i (suc left) positive le =
    let next_row : suc left * assoc ≡ assoc + left * assoc = grind arith in
    let (r1, run1, c1, o1) =
      link_set-IsChained blks i assoc positive (omega (arith, le, next_row)) in
    let (r2, run2, c2, size, below) =
      link_sets-Rows r1.0 assoc (i + assoc) left positive (omega (arith, le, next_row, o1.size)) in
    (
      (r2.0, r1.1 ∷ r2.1),
      rw (run1, run2) refl,
      record {
        count = ap suc c2.count;
        chained = λ j.
            elim j
              as (λ n.
                n < suc left
                → IsChained r2.0 (get_or (r1.1 ∷ r2.1) n no_blocks) (i + n * assoc)
                    (i + n * assoc + assoc)) [
                      | zero ↦ λ lt.
                          subst (λ n. IsChained r2.0 r1.1 n (n + assoc))
                            (let start : i ≡ i + 0 * assoc = grind arith in start)
                            (kept-IsChained r1.0 r2.0 r1.1 i (i + assoc) size
                              (λ x from to. below x to) c1)
                      | suc k ↦ λ lt.
                          let start : i + assoc + k * assoc ≡ i + suc k * assoc = grind arith in
                          subst (λ n. IsChained r2.0 (get_or r2.1 k no_blocks) n (n + assoc)) start
                            (c2.chained k (omega (arith, lt)))
                    ];
      },
      size ∙ o1.size,
      λ x g. both-SamePointers (o1.below x g) (below x (omega arith)),
    )
