-- ===== src/Cache/Tests.antt =====
-- A cache of one set of two blocks of 16 bytes. Block 1 was used last; block 0 holds the address 80.
use native.Mathlib.Decide.{ℕ_discrete}
use smt_register_capping.Base.{
  ℕ, suc, ◌+◌, ◌*◌, get_or, ◌<◌, ◌≡◌, refl, ◌-◌, true, false, List, [], ◌∷◌, Option, none, some, ok,
  arith, subst, sym,
}
use smt_register_capping.Memory.Access.{MemCmd}
use smt_register_capping.Chain.Order.{mem, before, after}
use smt_register_capping.Cache.{lru, random, Cache, CacheBlk, CacheSet, fresh_line, new}
use smt_register_capping.Cache.Rows.{IsChained}
use smt_register_capping.Cache.Built.{no_blocks}
use smt_register_capping.Cache.Whole.{IsCache, new-IsCache}
use smt_register_capping.Cache.Access.Kept.{cache_access-IsCache}
use smt_register_capping.Cache.Way.{blk_at, Ways}
use smt_register_capping.Cache.Access.{Served, cache_access, larger}
use smt_register_capping.Cache.Access.Lru.{Touched}
use smt_register_capping.Cache.Access.Again.{cache_access-Touched, cache_access-again}

-- the next level answers after 10 cycles; its state is the number of requests
abbrev next_level : ℕ → MemCmd → (baddr bsize : ℕ) → CacheBlk → (now : ℕ) → Option ℕ → ℕ × ℕ
next_level n cmd baddr bsize b now context_id = (10, suc n)

abbrev two_blocks : List CacheBlk
two_blocks =
    record {
      way_next = none;
      way_prev = some 1;
      line = record { tag = 5; is_valid = true; is_dirty = true; ready = 3; context_id = some 0 };
    }
    ∷ record {
      way_next = some 0;
      way_prev = none;
      line = record { tag = 3; is_valid = true; is_dirty = false; ready = 0; context_id = some 0 };
    }
    ∷ []

abbrev one_set : CacheSet
one_set = record { way_head = some 1; way_tail = some 0 }

abbrev small_cache : Cache
small_cache = record {
  nsets = 1;
  bsize = 16;
  assoc = 2;
  policy = lru;
  hit_latency = 1;
  set_shift = 4;
  tag_shift = 4;
  bus_free = 0;
  blocks = two_blocks;
  sets = one_set ∷ [];
}

-- the constructor chains the blocks in the same way
fresh_blocks :
    new 1 16 2 lru 1
    ≡ ok (record small_cache {
      blocks =
          record { way_next = none; way_prev = some 1; line = fresh_line }
          ∷ record { way_next = some 0; way_prev = none; line = fresh_line }
          ∷ [];
    })
unfolding new
fresh_blocks = refl

both : (P : ℕ → Type 0) → P 0 → P 1 → (x : ℕ) → x < 2 → P x
both P p q x lt = elim (ℕ_discrete x 0) [
  | yes e ↦ subst P (sym e) p
  | no ne ↦ subst P (let e : 1 ≡ x = omega arith in e) q
]

members : (x : ℕ) → mem x (1 ∷ 0 ∷ []) ≡ true → x < 2
members x h = ground arith

small_cache-Ways : Ways two_blocks one_set 1 (0 ∷ [])
small_cache-Ways = record {
  inside = λ x g. members x g;
  prevs = λ x g.
      both (λ n. (blk_at two_blocks n).way_prev ≡ before none (1 ∷ 0 ∷ []) n) refl refl x
        (members x g);
  nexts = λ x g.
      both (λ n. (blk_at two_blocks n).way_next ≡ after (1 ∷ 0 ∷ []) n) refl refl x (members x g);
  distinct = (refl, (refl, tt));
  head = refl;
  tail = refl;
}

-- a hit on the dirty block that stands last
cache_access-Touched_example :
    (r : Served next_level) × (cache_access next_level small_cache MemCmd.read 80 (some 0) 4 7 0 0
      ≡ ok r)
    × (mem 0 (1 ∷ 0 ∷ []) ≡ true)
    × Touched small_cache MemCmd.read 80 (some 0) 1 (0 ∷ []) 0 true r.cache
    × ((blk_at r.cache.blocks 0).line.ready ≡ 3)
cache_access-Touched_example =
    cache_access-Touched next_level small_cache MemCmd.read 80 (some 0) 4 7 0 0 one_set 1 (0 ∷ [])
      small_cache-Ways (omega arith) refl refl refl

-- a miss, which writes the dirty block back, and then a hit
cache_access-again_example :
    (r1 : Served next_level) × (r2 : Served next_level) × (cache_access next_level small_cache
        MemCmd.write 112
        (some 0)
        4
        7
        0
        0
      ≡ ok r1)
    × (cache_access next_level r1.cache MemCmd.read 112 (some 0) 2 9 0 5 ≡ ok r2)
    × (r2.below ≡ 5)
    × (r2.repl_addr ≡ 0)
    × (r2.lat ≡ larger 1 (7 + r1.lat - 9))
cache_access-again_example =
    cache_access-again next_level small_cache MemCmd.write MemCmd.read 112 (some 0) 4 2 7 9 0 0 0 5
      one_set 1 (0 ∷ []) small_cache-Ways (omega arith) refl refl refl refl

small_cache-IsCache : IsCache small_cache
small_cache-IsCache = record {
  some_sets = omega arith;
  some_ways = omega arith;
  size = refl;
  rows = record {
    count = refl;
    chained = λ j lt.
        let at : 0 ≡ j = omega (arith, lt) in
        subst
          (λ n.
            IsChained two_blocks (get_or (one_set ∷ []) n no_blocks) (0 + n * 2) (0 + n * 2 + 2))
          at
          (record {
            head = 1;
            rest = 0 ∷ [];
            row = record {
              ways = small_cache-Ways;
              count = refl;
              within = λ x g. (omega arith, members x g);
            };
          });
  };
}

new-IsCache_example : (c : Cache) × (new 4 32 2 random 3 ≡ ok c) × IsCache c
new-IsCache_example =
    new-IsCache 4 32 2 random 3 refl refl refl refl refl refl (omega arith) (omega arith)
      (omega arith)

cache_access-IsCache_example :
    (r : Served next_level) × (cache_access next_level small_cache MemCmd.write 64 (some 1) 8 2 6 0
      ≡ ok r)
    × IsCache r.cache
cache_access-IsCache_example =
    cache_access-IsCache next_level small_cache small_cache-IsCache MemCmd.write 64 (some 1) 2 6 8 0
      refl
