-- ===== src/Cache/Access/Again.antt =====
-- An access of an LRU cache, and an access of the same block after it.
use smt_register_capping.Base.{
  ℕ, ◌+◌, ◌-◌, ◌≤◌, ◌≡◌, refl, sym, ap, subst, Bool, true, false, ◌==◌, List, ◌∷◌, Option, none,
  some, Outcome, ok, read, length, arith,
}
use smt_register_capping.Memory.Access.{MemCmd}
use smt_register_capping.Chain.Order.{mem, without, last_of, mem-last, length-without}
use smt_register_capping.Cache.{lru, Cache, CacheBlk, CacheSet}
use smt_register_capping.Cache.Way.{blk_at, Ways}
use smt_register_capping.Cache.Access.{
  cache_tag, cache_set, is_hit, find_way, fits_block, Served, hit, miss, cache_access, larger,
}
use smt_register_capping.Cache.Access.Search.{find_in, find_way-Ways, find_in_sound}
use smt_register_capping.Cache.Access.Lru.{Touched, hit-Touched, miss-Touched}

-- the block that an access uses: the one found, or the one used least recently
abbrev used_block : Option ℕ → (h : ℕ) → List ℕ → ℕ
used_block none h t = last_of h t
used_block (some p) h t = p

-- whether the data of the block found were dirty
abbrev pub was_dirty : Option ℕ → List CacheBlk → Bool
was_dirty none blks = false
was_dirty (some p) blks = (blk_at blks p).line.is_dirty

-- when the data of the block are there: for a block found, when they were before, and otherwise when
-- the fetch is over
abbrev ready_after : Option ℕ → List CacheBlk → (fetched : ℕ) → ℕ
ready_after none blks fetched = fetched
ready_after (some p) blks fetched = (blk_at blks p).line.ready

module _ {ℓ} {W : Type ℓ}
    (blk_access_fn : W → MemCmd → (baddr bsize : ℕ) → CacheBlk → (now : ℕ) → Option ℕ → ℕ × W) where
  module _ (c : Cache) (cmd : MemCmd) (addr : ℕ) (context_id : Option ℕ) (nbytes now rand : ℕ)
      (v : W) (s : CacheSet) (h : ℕ) (t : List ℕ) (w : Ways c.blocks s h t)
      (enough : length (h ∷ t) ≤ c.assoc) (fits : fits_block c addr nbytes ≡ true)
      (is_set : read c.sets (cache_set c addr) ≡ ok s) where
    abbrev found : Option ℕ
    found = find_in (is_hit (cache_tag c addr) context_id) c.blocks (h ∷ t)

    search : find_way (is_hit (cache_tag c addr) context_id) c.blocks c.assoc s.way_head ≡ ok found
    search = find_way-Ways (is_hit (cache_tag c addr) context_id) c.blocks s h t c.assoc w enough

    access_hit :
        (p : ℕ) {r : Outcome (Served blk_access_fn)}
        → found ≡ some p
        → hit blk_access_fn c cmd addr now s p v ≡ r
        → cache_access blk_access_fn c cmd addr context_id nbytes now rand v ≡ r
    unfolding cache_access
    access_hit p e run = rw fits (rw is_set (rw search (rw e run)))

    access_miss :
        {r : Outcome (Served blk_access_fn)}
        → found ≡ none
        → miss blk_access_fn c cmd addr context_id now s rand v ≡ r
        → cache_access blk_access_fn c cmd addr context_id nbytes now rand v ≡ r
    unfolding cache_access
    access_miss e run = rw fits (rw is_set (rw search (rw e run)))

    abbrev Accessed : Option ℕ → Type ℓ
    Accessed o =
        (r : Served blk_access_fn) × (cache_access blk_access_fn c cmd addr context_id nbytes now
            rand v
          ≡ ok r)
        × (mem (used_block o h t) (h ∷ t) ≡ true)
        × Touched c cmd addr context_id h t (used_block o h t) (was_dirty o c.blocks) r.cache
        × ((blk_at r.cache.blocks (used_block o h t)).line.ready
            ≡ ready_after o c.blocks (now + r.lat))

    access_cases : c.policy ≡ lru → (o : Option ℕ) → found ≡ o → Accessed o
    access_cases policy none e =
        let (r, run, k, ready) =
          miss-Touched blk_access_fn c cmd addr context_id now s h t w policy is_set rand v in
        (r, access_miss e run, mem-last h t, k, ready)
    access_cases policy (some p) e =
        let (there, match) =
          find_in_sound (is_hit (cache_tag c addr) context_id) c.blocks (h ∷ t) e in
        let (c', run, k, ready) =
          hit-Touched blk_access_fn c cmd addr context_id now s h t w policy is_set p v there
            match in
        (
          record {
            lat = larger c.hit_latency ((blk_at c.blocks p).line.ready - now);
            repl_addr = 0;
            cache = c';
            below = v;
          },
          access_hit p e run,
          there,
          k,
          ready,
        )

    -- An access of an LRU cache, of a power of two of bytes, aligned to it and within a block, of a set
    -- whose blocks are chained in an order and are no more than the ways: it ends without a fault. The block of the order that holds the address for this thread, or if
    -- there is none the one used least recently, then holds it and stands at the front, with the others
    -- in their order. It is dirty if it was a dirty match or the access is a write. The lines of all
    -- other blocks stay as they were, and so does the shape of the cache. Its data are ready when they
    -- were before if the block was found, and otherwise after the latency that the access returns.
    pub cache_access-Touched : c.policy ≡ lru → Accessed found
    cache_access-Touched policy = access_cases policy found refl

  -- Two accesses of the same address by the same thread, with nothing in between, of an LRU cache and
  -- of a set whose blocks are chained in an order and are no more than the ways, where each is of a
  -- power of two of bytes, aligned to it and within a block: both end without a fault. The second leaves
  -- the next level as it is and replaces nothing. It takes the latency of a hit, or the time until the
  -- data are ready if that is longer: if the first found the block, when the block of the order that it
  -- found was to be ready, and otherwise when the latency returned by the first has passed.
  pub cache_access-again :
      (c : Cache) (cmd cmd' : MemCmd) (addr : ℕ) (context_id : Option ℕ)
      (nbytes nbytes' now now' rand rand' : ℕ) (v v' : W) (s : CacheSet) (h : ℕ) (t : List ℕ)
      → Ways c.blocks s h t
      → length (h ∷ t) ≤ c.assoc
      → c.policy ≡ lru
      → fits_block c addr nbytes ≡ true
      → fits_block c addr nbytes' ≡ true
      → read c.sets (cache_set c addr) ≡ ok s
      → (r1 : Served blk_access_fn) × (r2 : Served blk_access_fn) × (cache_access blk_access_fn c
            cmd addr context_id nbytes now rand v
          ≡ ok r1)
        × (cache_access blk_access_fn r1.cache cmd' addr context_id nbytes' now' rand' v' ≡ ok r2)
        × (r2.below ≡ v')
        × (r2.repl_addr ≡ 0)
        × (r2.lat
            ≡ larger c.hit_latency (
                ready_after
                  (find_in (is_hit (cache_tag c addr) context_id) c.blocks (h ∷ t))
                  c.blocks
                  (now + r1.lat)
                - now'))
  cache_access-again c cmd cmd' addr context_id nbytes nbytes' now now' rand rand' v v' s h t w
        enough policy fits fits' is_set =
      let (r1, run1, there, k, ready) =
        cache_access-Touched c cmd addr context_id nbytes now rand v s h t w enough fits is_set
          policy in
      let p = used_block (find_in (is_hit (cache_tag c addr) context_id) c.blocks (h ∷ t)) h t in
      let c2 = record c {
        blocks = r1.cache.blocks;
        sets = r1.cache.sets;
        bus_free = r1.cache.bus_free;
      } in
      let self : (p == p) ≡ true = ground arith in
      let (c3, run2, k2, ready2) =
        hit-Touched blk_access_fn c2 cmd' addr context_id now' k.set p (without p (h ∷ t)) k.ways
          policy k.is_set p v' (rw self refl) k.holds in
      let r2 : Served blk_access_fn = record {
        lat = larger c.hit_latency ((blk_at r1.cache.blocks p).line.ready - now');
        repl_addr = 0;
        cache = c3;
        below = v';
      } in
      let second =
        access_hit c2 cmd' addr context_id nbytes' now' rand' v' k.set p (without p (h ∷ t)) k.ways
          (omega (arith, length-without (h ∷ t) p there, enough)) fits' k.is_set p (rw k.holds refl)
          run2 in
      (
        r1,
        r2,
        run1,
        subst (λ n. cache_access blk_access_fn n cmd' addr context_id nbytes' now' rand' v' ≡ ok r2)
            (sym k.shape) second,
        refl,
        refl,
        ap (λ n. larger c.hit_latency (n - now')) ready,
      )
