-- ===== src/Cache.antt =====
-- The caches of cache.h and cache.c, without USE_HASH and BUS_CONTENTION, which are not defined: the
-- sets with their ordered way lists, the access with its replacement, and the flushes. A pointer to a
-- block is the index of the block in the cache. Caches are made without data (balloc is FALSE), and
-- user data, names and statistics are left out.
pub mod Way
pub mod Relink
pub mod Front
pub mod Rows
pub mod Built
pub mod Sets
pub mod Whole
pub mod Access
mod Tests
use smt_register_capping.Base.{
  ℕ, zero, suc, ◌+◌, ◌-◌, ◌*◌, ◌/◌, ◌%◌, ◌^◌, Bool, true, false, ◌&&◌, ◌||◌, not, ltb, leb, ◌==◌,
  if◌then◌else◌, List, [], ◌∷◌, Option, none, some, Outcome, ok, fault, ◌>>=◌, ◌>>◌, assert, read,
  length, set, replicate, bit_and,
}
use smt_register_capping.Chain.{is_null, same_pointer}

-- enum cache_policy
pub data CachePolicy : Type 0 where
  lru random fifo : CachePolicy

-- enum list_loc_t
pub data ListLoc : Type 0 where
  at_head at_tail : ListLoc

-- the fields of cache_blk_t that describe the line: the tag, the two bits of status, ready and the
-- owner, where `none` is -1
pub record Line : Type 0 where
  pub tag : ℕ
  pub is_valid : Bool
  pub is_dirty : Bool
  pub ready : ℕ
  pub context_id : Option ℕ

-- class cache_blk_t
pub record CacheBlk : Type 0 where
  pub way_next : Option ℕ
  pub way_prev : Option ℕ
  pub line : Line

-- class cache_set_t, without blks: the blocks of a set stand together
pub record CacheSet : Type 0 where
  pub way_head : Option ℕ
  pub way_tail : Option ℕ

-- class cache_t
pub record Cache : Type 0 where
  pub nsets : ℕ
  pub bsize : ℕ
  pub assoc : ℕ
  pub policy : CachePolicy
  pub hit_latency : ℕ
  pub set_shift : ℕ
  pub tag_shift : ℕ
  pub bus_free : ℕ
  pub blocks : List CacheBlk
  pub sets : List CacheSet

abbrev pub fresh_line : Line
fresh_line = record { tag = 0; is_valid = false; is_dirty = false; ready = 0; context_id = none }

abbrev pub fresh_blk : CacheBlk
fresh_blk = record { way_next = none; way_prev = none; line = fresh_line }

-- n & (n - 1), for n of 32 bits
abbrev pub is_power : ℕ → Bool
is_power n = bit_and n ((n + (2 ^ 32 - 1)) % 2 ^ 32) == 0

-- the rounds of the loop of log_base2
pub halvings : (fuel n : ℕ) → ℕ
halvings zero n = 0
halvings (suc fuel) n = let rest = suc (halvings fuel (n / 2)) in if n / 2 == 0 then 0 else rest

-- log_base2, for an argument of 32 bits that is read as an int: from 2^31 on it is negative
pub log_base2 : ℕ → Outcome ℕ
unfolding halvings
log_base2 n = do assert (not (n == 0) && ltb n (2 ^ 31) && is_power n); ok (halvings 32 n)

-- an assignment through a pointer
pub put_next : List CacheBlk → Option ℕ → Option ℕ → Outcome (List CacheBlk)
put_next blks none value = fault
put_next blks (some i) value = do b ← read blks i; ok (set blks i (record b { way_next = value }))

pub put_prev : List CacheBlk → Option ℕ → Option ℕ → Outcome (List CacheBlk)
put_prev blks none value = fault
put_prev blks (some i) value = do b ← read blks i; ok (set blks i (record b { way_prev = value }))

-- one round of the loop of the constructor: block `i` becomes the head of the set's way list
pub link_blk : List CacheBlk → CacheSet → (i : ℕ) → Outcome (List CacheBlk × CacheSet)
unfolding put_prev
link_blk blks s i = do
  former ← read blks i
  let linked = set blks i (record { way_next = s.way_head; way_prev = none; line = fresh_line })
  chained ← if is_null s.way_head then ok linked else put_prev linked s.way_head (some i)
  ok (
    chained,
    record { way_head = some i; way_tail = (if is_null s.way_tail then some i else s.way_tail) },
  )

pub link_blks : List CacheBlk → CacheSet → (i left : ℕ) → Outcome (List CacheBlk × CacheSet)
unfolding link_blk
link_blks blks s i zero = ok (blks, s)
link_blks blks s i (suc left) = do (blks1, s1) ← link_blk blks s i; link_blks blks1 s1 (i + 1) left

pub link_sets : List CacheBlk → (assoc i left : ℕ) → Outcome (List CacheBlk × List CacheSet)
unfolding link_blks
link_sets blks assoc i zero = ok (blks, [])
link_sets blks assoc i (suc left) = do
  (blks1, s) ← link_blks blks (record { way_head = none; way_tail = none }) i assoc
  (blks2, ss) ← link_sets blks1 assoc (i + assoc) left
  ok (blks2, s ∷ ss)

-- cache_t::cache_t; the block access function is an argument of the accesses. The numbers are unsigned
-- ints, and so is the number of blocks.
unfoldable pub new : (nsets bsize assoc : ℕ) → CachePolicy → (hit_latency : ℕ) → Outcome Cache
unfolding log_base2 link_sets
new nsets bsize assoc policy hit_latency = do
  set_shift ← log_base2 bsize
  sets_shift ← log_base2 nsets
  assert (not (nsets == 0) && is_power nsets)
  assert (leb 8 bsize && is_power bsize)
  assert (not (assoc == 0) && is_power assoc)
  (blocks, sets) ← link_sets (replicate (nsets * assoc % 2 ^ 32) fresh_blk) assoc 0 nsets
  ok (record {
    nsets = nsets;
    bsize = bsize;
    assoc = assoc;
    policy = policy;
    hit_latency = hit_latency;
    set_shift = set_shift;
    tag_shift = set_shift + sets_shift;
    bus_free = 0;
    blocks = blocks;
    sets = sets;
  })

-- the first part of update_way_list: `none` if there is nothing to do, and otherwise the list without
-- the block
pub unlink :
    (first last : Bool)
    → List CacheBlk
    → CacheSet
    → (blk : ℕ) → CacheBlk
    → ListLoc
    → Outcome (Option (List CacheBlk × CacheSet))
unfolding put_next put_prev
unlink true true blks s blk b loc = do
  assert (same_pointer s.way_head (some blk) && same_pointer s.way_tail (some blk))
  ok none
unlink true false blks s blk b at_head = do
  assert (same_pointer s.way_head (some blk) && not (same_pointer s.way_tail (some blk)))
  ok none
unlink true false blks s blk b at_tail = do
  assert (same_pointer s.way_head (some blk) && not (same_pointer s.way_tail (some blk)))
  blks1 ← put_prev blks b.way_next none
  ok (some (blks1, record s { way_head = b.way_next }))
unlink false true blks s blk b at_tail = do
  assert (not (same_pointer s.way_head (some blk)) && same_pointer s.way_tail (some blk))
  ok none
unlink false true blks s blk b at_head = do
  assert (not (same_pointer s.way_head (some blk)) && same_pointer s.way_tail (some blk))
  blks1 ← put_next blks b.way_prev none
  ok (some (blks1, record s { way_tail = b.way_prev }))
unlink false false blks s blk b loc = do
  assert (not (same_pointer s.way_head (some blk)) && not (same_pointer s.way_tail (some blk)))
  blks1 ← put_next blks b.way_prev b.way_next
  blks2 ← put_prev blks1 b.way_next b.way_prev
  ok (some (blks2, s))

-- the second part: the block linked in again
pub link : List CacheBlk → CacheSet → (blk : ℕ) → ListLoc → Outcome (List CacheBlk × CacheSet)
unfolding put_next put_prev
link blks s blk at_head = do
  b ← read blks blk
  let placed = set blks blk (record b { way_next = s.way_head; way_prev = none })
  linked ← put_prev placed s.way_head (some blk)
  ok (linked, record s { way_head = some blk })
link blks s blk at_tail = do
  b ← read blks blk
  let placed = set blks blk (record b { way_next = none; way_prev = s.way_tail })
  linked ← put_next placed s.way_tail (some blk)
  ok (linked, record s { way_tail = some blk })

link_again :
    List CacheBlk
    → CacheSet
    → (blk : ℕ) → ListLoc
    → Option (List CacheBlk × CacheSet)
    → Outcome (List CacheBlk × CacheSet)
unfolding link
link_again blks s blk loc none = ok (blks, s)
link_again blks s blk loc (some (blks1, s1)) = link blks1 s1 blk loc

pub update_way_list :
    List CacheBlk → CacheSet → (blk : ℕ) → ListLoc → Outcome (List CacheBlk × CacheSet)
unfolding unlink link_again
update_way_list blks s blk loc = do
  b ← read blks blk
  unlinked ← unlink (is_null b.way_prev) (is_null b.way_next) blks s blk b loc
  link_again blks s blk loc unlinked
