-- ===== src/Btb/Tests.antt =====
-- A buffer of one set of two entries, for the branches at 8 and 16; 8 was used last.
use native.Mathlib.Decide.{ℕ_discrete}
use smt_register_capping.Base.{
  ℕ, ◌<◌, ◌≡◌, refl, ◌==◌, Bool, true, false, List, [], ◌∷◌, none, some, ok, ◌>>=◌, arith, subst,
  sym,
}
use smt_register_capping.Btb.{Btb, BtbEntry, new, update_pbtb, find_pbtb, update}
use smt_register_capping.Chain.Order.{mem, before, after}
use smt_register_capping.Btb.Recent.{entry}
use smt_register_capping.Btb.Search.{SetOrder, Hit, Used, update_pbtb-Used}
use smt_register_capping.Btb.Taken.{find_pbtb-update}

abbrev two_ways : Btb
two_ways = record {
  sets = 1;
  assoc = 2;
  entries =
      record { addr = 8; target = 100; prev = none; next = some 1 }
      ∷ record { addr = 16; target = 200; prev = some 0; next = none }
      ∷ [];
}

-- the constructor chains the entries in the same way
fresh_chain :
    new 1 2
    ≡ ok (record {
      sets = 1;
      assoc = 2;
      entries =
          record { addr = 0; target = 0; prev = none; next = some 1 }
          ∷ record { addr = 0; target = 0; prev = some 0; next = none }
          ∷ [];
    })
unfolding new
fresh_chain = refl

-- a statement about each index of the set, from those about 0 and 1
both : (P : ℕ → Type 0) → P 0 → P 1 → (x : ℕ) → x < 2 → P x
both P p q x lt = elim (ℕ_discrete x 0) [
  | yes e ↦ subst P (sym e) p
  | no ne ↦ subst P (let e : 1 ≡ x = omega arith in e) q
]

two_ways-members : (x : ℕ) → mem x (0 ∷ 1 ∷ []) ≡ true → x < 2
two_ways-members x h = ground arith

two_ways-SetOrder : SetOrder two_ways.entries 0 2 (0 ∷ 1 ∷ [])
two_ways-SetOrder = record {
  chained = record {
    inside = λ x g. two_ways-members x g;
    prevs = λ x g.
        both (λ n. (entry two_ways.entries n).prev ≡ before none (0 ∷ 1 ∷ []) n) refl refl x
          (two_ways-members x g);
    nexts = λ x g.
        both (λ n. (entry two_ways.entries n).next ≡ after (0 ∷ 1 ∷ []) n) refl refl x
          (two_ways-members x g);
  };
  distinct = (refl, (refl, tt));
  covers = λ x lo hi. both (λ n. mem n (0 ∷ 1 ∷ []) ≡ true) refl refl x hi;
  within = λ x g. (omega arith, two_ways-members x g);
}

two_ways-Hit : Hit two_ways.entries 16 0 2 1
two_ways-Hit = record {
  from = omega arith;
  matches =
      λ x lo hi. both (λ n. ((entry two_ways.entries n).addr == 16) ≡ (n == 1)) refl refl x hi;
}

update_pbtb-Used_example :
    (entries' : List BtbEntry) × (update_pbtb two_ways true 16
      ≡ ok (some 1, record two_ways { entries = entries' }))
    × Used two_ways.entries 0 2 (0 ∷ 1 ∷ []) 1 entries'
update_pbtb-Used_example =
    update_pbtb-Used two_ways 16 1 0 1 [] (omega arith) two_ways-SetOrder two_ways-Hit

find_pbtb-update_example :
    (entries : List BtbEntry) × ((update_pbtb two_ways true 16 >>= λ r.
    update r.1 r.0 true 16 false 300)
      ≡ ok (record two_ways { entries = entries }))
    × (find_pbtb (record two_ways { entries = entries }) 16 ≡ ok (some 1))
    × SetOrder entries 0 2 (1 ∷ 0 ∷ [])
    × Hit entries 16 0 2 1
    × (◌≡◌ {A = Bool} false false → (entry entries 1).target ≡ 300)
find_pbtb-update_example =
    find_pbtb-update two_ways 16 1 0 1 [] false 300 (omega arith) two_ways-SetOrder two_ways-Hit
