-- ===== src/Cache/Access/Kept.antt =====
-- An access with any policy, and the way lists of all sets after it.
use smt_register_capping.Base.{
  ℕ, ◌+◌, ◌*◌, ◌-◌, ◌/◌, ◌^◌, ◌<◌, ◌≡◌, refl, sym, ap, ◌∙◌, subst, Bool, true, false, ◌&&◌, ◌||◌,
  not, if◌then◌else◌, List, ◌∷◌, Option, none, some, ok, length, set, get_or, read, read_of_lt,
  set_of_read, bit_and, arith,
}
use smt_register_capping.Base.Bits.{bit_and_le, mul-row}
use smt_register_capping.Memory.Access.{MemCmd}
use smt_register_capping.Chain.{is_null}
use smt_register_capping.Chain.Order.{mem, last_of, mem-last}
use smt_register_capping.Cache.{
  CachePolicy, lru, random, fifo, Line, Cache, CacheBlk, fresh_blk, CacheSet, at_head,
  update_way_list,
}
use smt_register_capping.Cache.Way.{blk_at}
use smt_register_capping.Cache.Rows.{Row, IsChained, update_way_list-IsChained}
use smt_register_capping.Cache.Built.{no_blocks}
use smt_register_capping.Cache.Whole.{IsCache, put-IsCache, line-IsCache}
use smt_register_capping.Cache.Access.{
  cache_tag, cache_set, is_hit, find_way, fits_block, put_set, is_lru, is_write, with_line,
  take_tail, select_victim, Served, hit, miss, fill_blk, cache_access, larger,
}
use smt_register_capping.Cache.Access.Search.{find_in, find_way-Ways, find_in_sound, set-Ways}

-- the chosen block moves to the front of its set
update-IsCache :
    (c : Cache) (i h p : ℕ) (t : List ℕ)
    → IsCache c
    → i < c.nsets
    → Row c.blocks (get_or c.sets i no_blocks) (0 + i * c.assoc) (0 + i * c.assoc + c.assoc) h t
    → mem p (h ∷ t) ≡ true
    → (r : List CacheBlk × CacheSet) × (update_way_list c.blocks
          (get_or c.sets i no_blocks)
          p
          at_head
        ≡ ok r)
      × IsCache (put_set c i r)
      × (length r.0 ≡ length c.blocks)
update-IsCache c i h p t v lt row there =
    let (r, run, chained, outside) =
      update_way_list-IsChained c.blocks (get_or c.sets i no_blocks) _ _ h p t row there in
    (r, run, put-IsCache c i r v lt chained outside, outside.size)

module _ (c : Cache) (v : IsCache c) (i h : ℕ) (t : List ℕ) (lt : i < c.nsets)
    (row : Row c.blocks
      (get_or c.sets i no_blocks)
      (0 + i * c.assoc)
      (0 + i * c.assoc + c.assoc)
      h
      t) where
  abbrev s : CacheSet
  s = get_or c.sets i no_blocks

  abbrev Chosen : CachePolicy → ℕ → Type 0
  Chosen q rand =
      (p : ℕ) × (c1 : Cache) × (select_victim q c i s rand ≡ ok (p, c1))
      × IsCache c1
      × (p < length c1.blocks)

  take_tail-IsCache :
      (p : ℕ) × (c1 : Cache) × (take_tail c i s s.way_tail ≡ ok (p, c1))
      × IsCache c1
      × (p < length c1.blocks)
  unfolding take_tail
  take_tail-IsCache =
      let there = mem-last h t in
      let (r, run, kept, size) = update-IsCache c i h (last_of h t) t v lt row there in
      (
        last_of h t,
        put_set c i r,
        ap (take_tail c i s) row.ways.tail ∙ rw run refl,
        kept,
        omega (arith, row.ways.inside (last_of h t) there, size),
      )

  -- any policy chooses a block of the cache
  select_victim-IsCache : (q : CachePolicy) (rand : ℕ) → Chosen q rand
  unfolding select_victim
  select_victim-IsCache lru rand = take_tail-IsCache
  select_victim-IsCache fifo rand = take_tail-IsCache
  select_victim-IsCache random rand = (
    i * c.assoc + bit_and rand (c.assoc - 1),
    c,
    refl,
    v,
    omega (arith, bit_and_le rand (c.assoc - 1), v.some_ways, v.size, mul-row c.assoc i c.nsets lt),
  )

module _ {ℓ} {W : Type ℓ}
    (blk_access_fn : W → MemCmd → (baddr bsize : ℕ) → CacheBlk → (now : ℕ) → Option ℕ → ℕ × W)
    (c : Cache) (v : IsCache c) (cmd : MemCmd) (addr : ℕ) (context_id : Option ℕ) (now : ℕ) where
  abbrev set_at : CacheSet
  set_at = get_or c.sets (cache_set c addr) no_blocks

  abbrev lo : ℕ
  lo = 0 + cache_set c addr * c.assoc

  set_lt : cache_set c addr < c.nsets
  set_lt = omega (arith, bit_and_le (addr / 2 ^ c.set_shift) (c.nsets - 1), v.some_sets)

  chained_at : IsChained c.blocks set_at lo (lo + c.assoc)
  chained_at = v.rows.chained (cache_set c addr) set_lt

  fill_blk-IsCache :
      (c1 : Cache) (p : ℕ) (w : W)
      → IsCache c1
      → p < length c1.blocks
      → IsCache (fill_blk blk_access_fn c1 cmd addr context_id now p (blk_at c1.blocks p) w).cache
  unfolding fill_blk
  fill_blk-IsCache c1 p w v1 lt = line-IsCache c1 p _ _ v1 lt refl refl

  miss-IsCache :
      (rand : ℕ) (w : W)
      → (r : Served blk_access_fn) × (miss blk_access_fn c cmd addr context_id now set_at rand w
          ≡ ok r)
        × IsCache r.cache
  unfolding miss
  miss-IsCache rand w =
      let (p, c1, run, v1, lt) =
        select_victim-IsCache c v (cache_set c addr) chained_at.head chained_at.rest set_lt
          chained_at.row c.policy rand in
      (
        fill_blk blk_access_fn c1 cmd addr context_id now p (blk_at c1.blocks p) w,
        rw (run, read_of_lt c1.blocks p fresh_blk lt) refl,
        fill_blk-IsCache c1 p w v1 lt,
      )

  module _ (p : ℕ) (there : mem p (chained_at.head ∷ chained_at.rest) ≡ true) where
    abbrev l : Line
    l = record (blk_at c.blocks p).line {
      is_dirty = (blk_at c.blocks p).line.is_dirty || is_write cmd;
    }

    abbrev marked : Cache
    marked = record c {
      blocks = set c.blocks p (with_line (blk_at c.blocks p) l);
      bus_free = c.bus_free;
    }

    p_lt : p < length c.blocks
    p_lt = chained_at.row.ways.inside p there

    marked-IsCache : IsCache marked
    marked-IsCache = line-IsCache c p (with_line (blk_at c.blocks p) l) c.bus_free v p_lt refl refl

    marked-Row : Row marked.blocks set_at lo (lo + c.assoc) chained_at.head chained_at.rest
    marked-Row = record {
      ways = set-Ways c.blocks set_at chained_at.head chained_at.rest p l p_lt chained_at.row.ways;
      count = chained_at.row.count;
      within = chained_at.row.within;
    }

    -- the set is the one it was
    unmoved-IsCache : IsCache (put_set marked (cache_set c addr) (marked.blocks, set_at))
    unmoved-IsCache =
        subst (λ ss. IsCache (record marked { sets = ss }))
          (sym (
            set_of_read c.sets (cache_set c addr) (
              read_of_lt c.sets (cache_set c addr) no_blocks
                (omega (arith, set_lt, v.rows.count)))))
          marked-IsCache

    hit_move-IsCache :
        (moves : Bool)
        → (r : List CacheBlk × CacheSet) × ((if moves
              then update_way_list marked.blocks set_at p at_head
              else ok (marked.blocks, set_at))
            ≡ ok r)
          × IsCache (put_set marked (cache_set c addr) r)
    hit_move-IsCache false = ((marked.blocks, set_at), refl, unmoved-IsCache)
    hit_move-IsCache true =
        let (r, run, kept, size) =
          update-IsCache marked (cache_set c addr) chained_at.head p chained_at.rest marked-IsCache
            set_lt marked-Row there in
        (r, run, kept)

    hit-IsCache :
        (w : W)
        → (r : Served blk_access_fn) × (hit blk_access_fn c cmd addr now set_at p w ≡ ok r)
          × IsCache r.cache
    unfolding hit
    hit-IsCache w =
        let (r, run, kept) =
          hit_move-IsCache (not (is_null (blk_at c.blocks p).way_prev) && is_lru c.policy) in
        (
          record {
            lat = larger c.hit_latency ((blk_at c.blocks p).line.ready - now);
            repl_addr = 0;
            cache = put_set c (cache_set c addr) r;
            below = w;
          },
          rw (read_of_lt c.blocks p fresh_blk p_lt) (rw run refl),
          kept,
        )

  abbrev Ends : (rand nbytes : ℕ) → W → Type ℓ
  Ends rand nbytes w =
      (r : Served blk_access_fn) × (cache_access blk_access_fn c cmd addr context_id nbytes now rand
          w
        ≡ ok r)
      × IsCache r.cache

  abbrev test : CacheBlk → Bool
  test = is_hit (cache_tag c addr) context_id

  abbrev found : Option ℕ
  found = find_in test c.blocks (chained_at.head ∷ chained_at.rest)

  is_set : read c.sets (cache_set c addr) ≡ ok set_at
  is_set = read_of_lt c.sets (cache_set c addr) no_blocks (omega (arith, set_lt, v.rows.count))

  search : find_way test c.blocks c.assoc set_at.way_head ≡ ok found
  search =
      find_way-Ways test c.blocks set_at chained_at.head chained_at.rest c.assoc chained_at.row.ways
        (omega (arith, chained_at.row.count))

  access_cases :
      (rand nbytes : ℕ) (w : W) (o : Option ℕ)
      → fits_block c addr nbytes ≡ true
      → found ≡ o
      → Ends rand nbytes w
  unfolding cache_access
  access_cases rand nbytes w none fits e =
      let (r, run, kept) = miss-IsCache rand w in
      (r, rw fits (rw is_set (rw search (rw e run))), kept)
  access_cases rand nbytes w (some p) fits e =
      let (there, match) = find_in_sound test c.blocks (chained_at.head ∷ chained_at.rest) e in
      let (r, run, kept) = hit-IsCache p there w in
      (r, rw fits (rw is_set (rw search (rw e run))), kept)

  -- A cache whose sets are all chained, of any policy: an access that is aligned and fits in a block
  -- ends without a fault, whatever the next level answers, and every set is chained afterwards.
  pub cache_access-IsCache :
      (rand nbytes : ℕ) (w : W) → fits_block c addr nbytes ≡ true → Ends rand nbytes w
  cache_access-IsCache rand nbytes w fits = access_cases rand nbytes w found fits refl
