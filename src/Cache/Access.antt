-- ===== src/Cache/Access.antt =====
-- cache_access, cache_probe and the flushes. The block access function is a parameter: a function of
-- the state of the next level, which answers with a latency and with that state afterwards. Ticks are
-- not negative, so that MAX(0, a - b) is the difference of natural numbers.
pub mod Search
pub mod Lru
pub mod Again
pub mod Kept
use smt_register_capping.Base.{
  ℕ, zero, suc, ◌+◌, ◌-◌, ◌*◌, ◌/◌, ◌%◌, ◌^◌, Bool, true, false, ◌&&◌, ◌||◌, not, ltb, leb, ◌==◌,
  if◌then◌else◌, List, [], ◌∷◌, map, Option, none, some, Outcome, ok, fault, ◌>>=◌, ◌>>◌, assert,
  read, length, set, bit_and, bit_or,
}
use smt_register_capping.Chain.{is_null, same_pointer}
use smt_register_capping.Memory.Access.{MemCmd}
use smt_register_capping.Cache.{
  CachePolicy, lru, random, fifo, ListLoc, at_head, at_tail, Line, CacheBlk, CacheSet, Cache,
  is_power, update_way_list,
}

-- CACHE_TAG, CACHE_SET, CACHE_BLK, CACHE_BADDR and CACHE_MK_BADDR
abbrev pub cache_tag : Cache → ℕ → ℕ
cache_tag c addr = addr / 2 ^ c.tag_shift

abbrev pub cache_set : Cache → ℕ → ℕ
cache_set c addr = bit_and (addr / 2 ^ c.set_shift) (c.nsets - 1)

abbrev cache_baddr : Cache → ℕ → ℕ
cache_baddr c addr = addr - bit_and addr (c.bsize - 1)

abbrev cache_mk_baddr : Cache → (tag index : ℕ) → ℕ
cache_mk_baddr c tag index =
    bit_or (tag * 2 ^ c.tag_shift % 2 ^ 64) (index * 2 ^ c.set_shift % 2 ^ 64)

-- MAX
abbrev pub larger : ℕ → ℕ → ℕ
larger a b = if ltb a b then b else a

-- two numbers of threads, where `none` is -1
abbrev pub same_owner : Option ℕ → Option ℕ → Bool
same_owner none none = true
same_owner (some a) (some b) = a == b
same_owner _ _ = false

-- the tests of the loops over a way list
abbrev pub is_hit : (tag : ℕ) → Option ℕ → CacheBlk → Bool
is_hit tag context_id b =
    b.line.tag == tag && b.line.is_valid && same_owner b.line.context_id context_id

abbrev is_here : (tag : ℕ) → CacheBlk → Bool
is_here tag b = b.line.tag == tag && b.line.is_valid

-- the search of a way list. The list has at most `assoc` blocks, one for each unit of fuel.
pub find_way : (CacheBlk → Bool) → List CacheBlk → (fuel : ℕ) → Option ℕ → Outcome (Option ℕ)
find_way test blks fuel none = ok none
find_way test blks zero (some i) = fault
find_way test blks (suc fuel) (some i) = do
  b ← read blks i
  if test b then ok (some i) else find_way test blks fuel b.way_next

-- the alignment checks of cache_access
abbrev pub fits_block : Cache → (addr nbytes : ℕ) → Bool
fits_block c addr nbytes =
    is_power nbytes
    && bit_and addr ((nbytes + (2 ^ 32 - 1)) % 2 ^ 32) == 0
    && leb ((addr + nbytes) % 2 ^ 64) ((cache_baddr c addr + c.bsize) % 2 ^ 64)

-- the blocks and the sets with one set replaced
abbrev pub put_set : Cache → ℕ → List CacheBlk × CacheSet → Cache
put_set c index r = record c { blocks = r.0; sets = set c.sets index r.1 }

-- the block at the tail moves to the head and is replaced
pub take_tail : Cache → (index : ℕ) → CacheSet → (tail : Option ℕ) → Outcome (ℕ × Cache)
take_tail c index s none = fault
take_tail c index s (some i) = do
  r ← update_way_list c.blocks s i at_head
  ok (i, put_set c index r)

-- the choice of the block to replace; `rand` is what myrand() gives
pub select_victim : CachePolicy → Cache → (index : ℕ) → CacheSet → (rand : ℕ) → Outcome (ℕ × Cache)
unfolding take_tail
select_victim lru c index s rand = take_tail c index s s.way_tail
select_victim fifo c index s rand = take_tail c index s s.way_tail
select_victim random c index s rand = ok (index * c.assoc + bit_and rand (c.assoc - 1), c)

abbrev is_lru : CachePolicy → Bool
is_lru lru = true
is_lru _ = false

abbrev pub is_write : MemCmd → Bool
is_write MemCmd.read = false
is_write MemCmd.write = true

abbrev pub with_line : CacheBlk → Line → CacheBlk
with_line b l = record b { line = l }

module _ {ℓ} {W : Type ℓ}
    (blk_access_fn : W → MemCmd → (baddr bsize : ℕ) → CacheBlk → (now : ℕ) → Option ℕ → ℕ × W) where
  -- what an access returns and leaves
  pub record Served : Type ℓ where
    pub lat : ℕ
    pub repl_addr : ℕ
    pub cache : Cache
    pub below : W

  -- what is known of an access under way
  record Pending : Type ℓ where
    pub lat : ℕ
    pub repl_addr : ℕ
    pub bus_free : ℕ
    pub below : W

  -- the write back of the replaced block
  write_back_blk : Cache → (index : ℕ) → CacheBlk → (now : ℕ) → Option ℕ → W → Pending
  write_back_blk c index b now context_id w =
      let baddr = cache_mk_baddr c b.line.tag index in
      let lat = b.line.ready - now in
      let stall = larger lat (c.bus_free - now) in
      let sent = blk_access_fn w MemCmd.write baddr c.bsize b (now + stall) context_id in
      if not b.line.is_valid
      then record { lat = 0; repl_addr = 0; bus_free = c.bus_free; below = w }
      else if not b.line.is_dirty
      then record { lat = lat; repl_addr = baddr; bus_free = c.bus_free; below = w }
      else record {
        lat = stall + sent.0;
        repl_addr = baddr;
        bus_free = 1 + larger c.bus_free (now + stall);
        below = sent.1;
      }

  -- the fetch of the new block
  fetch_blk : Cache → (addr : ℕ) → CacheBlk → (now : ℕ) → Option ℕ → Pending → Pending
  fetch_blk c addr b now context_id p =
      let new_lat = larger (b.line.ready - now) (p.bus_free - now) in
      let fetched =
        blk_access_fn p.below MemCmd.read (cache_baddr c addr) c.bsize b (now + new_lat)
          context_id in
      record {
        lat = larger p.lat (new_lat + fetched.0);
        repl_addr = p.repl_addr;
        bus_free = 1 + larger p.bus_free (now + new_lat);
        below = fetched.1;
      }

  -- a miss, from the block that is replaced
  pub fill_blk : Cache → MemCmd → (addr : ℕ) → Option ℕ → (now repl : ℕ) → CacheBlk → W → Served
  unfolding write_back_blk fetch_blk
  fill_blk c cmd addr context_id now repl b w =
      let saved = write_back_blk c (cache_set c addr) b now context_id w in
      let claimed = with_line b (record b.line {
        tag = cache_tag c addr;
        is_valid = true;
        is_dirty = false;
        context_id = context_id;
      }) in
      let fetched = fetch_blk c addr claimed now context_id saved in
      let filled = with_line b (record {
        tag = cache_tag c addr;
        is_valid = true;
        is_dirty = is_write cmd;
        ready = now + fetched.lat;
        context_id = context_id;
      }) in
      record {
        lat = fetched.lat;
        repl_addr = fetched.repl_addr;
        cache = record c { blocks = set c.blocks repl filled; bus_free = fetched.bus_free };
        below = fetched.below;
      }

  pub miss :
      Cache
      → MemCmd
      → (addr : ℕ) → Option ℕ
      → (now : ℕ) → CacheSet
      → (rand : ℕ) → W
      → Outcome Served
  unfolding select_victim fill_blk
  miss c cmd addr context_id now s rand w = do
    (repl, c1) ← select_victim c.policy c (cache_set c addr) s rand
    b ← read c1.blocks repl
    ok (fill_blk c1 cmd addr context_id now repl b w)

  pub hit : Cache → MemCmd → (addr now : ℕ) → CacheSet → (blk : ℕ) → W → Outcome Served
  hit c cmd addr now s blk w = do
    b ← read c.blocks blk
    let marked = with_line b (record b.line { is_dirty = b.line.is_dirty || is_write cmd })
    let blocks = set c.blocks blk marked
    r ←
        if not (is_null b.way_prev) && is_lru c.policy
        then update_way_list blocks s blk at_head
        else ok (blocks, s)
    ok (record {
      lat = larger c.hit_latency (b.line.ready - now);
      repl_addr = 0;
      cache = put_set c (cache_set c addr) r;
      below = w;
    })

  -- cache_t::cache_access
  pub cache_access :
      Cache → MemCmd → (addr : ℕ) → Option ℕ → (nbytes now rand : ℕ) → W → Outcome Served
  unfolding hit miss
  cache_access c cmd addr context_id nbytes now rand w = do
    assert (fits_block c addr nbytes)
    s ← read c.sets (cache_set c addr)
    found ← find_way (is_hit (cache_tag c addr) context_id) c.blocks c.assoc s.way_head
    elim found [
      | none ↦ miss c cmd addr context_id now s rand w
      | some i ↦ hit c cmd addr now s i w
    ]

  -- the invalidation of a block, by either flush
  invalidate : Cache → (index blk now : ℕ) → CacheBlk → Option ℕ → (lat : ℕ) → W → Served
  invalidate c index blk now b context_id lat w =
      let off = with_line b (record b.line { is_valid = false }) in
      let sent =
        blk_access_fn w MemCmd.write (cache_mk_baddr c b.line.tag index) c.bsize off (now + lat)
          context_id in
      record {
        lat = (if b.line.is_dirty then lat + sent.0 else lat);
        repl_addr = 0;
        cache = record c { blocks = set c.blocks blk off };
        below = (if b.line.is_dirty then sent.1 else w);
      }

  -- the loop of cache_flush over a way list
  flush_ways : (fuel : ℕ) → (index now : ℕ) → Option ℕ → Served → Outcome Served
  unfolding invalidate
  flush_ways fuel index now none r = ok r
  flush_ways zero index now (some i) r = fault
  flush_ways (suc fuel) index now (some i) r = do
    b ← read r.cache.blocks i
    flush_ways fuel index now b.way_next (
        if b.line.is_valid
        then invalidate r.cache index i now b b.line.context_id r.lat r.below
        else r)

  flush_sets : (index : ℕ) → List CacheSet → (now : ℕ) → Served → Outcome Served
  unfolding flush_ways
  flush_sets index [] now r = ok r
  flush_sets index (s ∷ ss) now r = do
    r1 ← flush_ways r.cache.assoc index now s.way_head r
    flush_sets (index + 1) ss now r1

  -- cache_t::cache_flush. The set's number is an unsigned int there; a cache has less than 2^32 bytes,
  -- so that shifting it loses no bits.
  cache_flush : Cache → (now : ℕ) → W → Outcome Served
  unfolding flush_sets
  cache_flush c now w =
      flush_sets 0 c.sets now (record { lat = c.hit_latency; repl_addr = 0; cache = c; below = w })

  -- cache_t::cache_flush_addr
  cache_flush_addr : Cache → (addr now : ℕ) → W → Outcome Served
  unfolding invalidate
  cache_flush_addr c addr now w = do
    s ← read c.sets (cache_set c addr)
    found ← find_way (is_here (cache_tag c addr)) c.blocks c.assoc s.way_head
    elim found [
      | none ↦ ok (record { lat = c.hit_latency; repl_addr = 0; cache = c; below = w })
      | some i ↦ (do
        b ← read c.blocks i
        let r = invalidate c (cache_set c addr) i now b b.line.context_id c.hit_latency w
        moved ← update_way_list r.cache.blocks s i at_tail
        ok (record r { cache = put_set r.cache (cache_set c addr) moved }))
    ]

-- cache_t::cache_probe
cache_probe : Cache → (addr : ℕ) → Outcome Bool
cache_probe c addr = do
  s ← read c.sets (cache_set c addr)
  found ← find_way (is_here (cache_tag c addr)) c.blocks c.assoc s.way_head
  ok (not (is_null found))

-- cache_t::reset_cache_stats, less the counters
reset_cache_stats : Cache → Cache
reset_cache_stats c = record c {
  bus_free = 0;
  blocks = map (λ b. with_line b (record b.line { ready = 0 })) c.blocks;
}
