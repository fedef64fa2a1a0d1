-- ===== src/Cache/Access/Search.antt =====
-- The search of a way list, in terms of the order of use of its set.
use smt_register_capping.Base.{
  ℕ, zero, suc, ◌<◌, ◌≤◌, ◌≡◌, refl, ap, ◌∙◌, inl, inr, subst, Bool, true, false, ◌==◌,
  if◌then◌else◌, List, [], ◌∷◌, Option, none, some, ok, read_of_lt, length, set, length-set,
  Bool-cases, arith,
}
use smt_register_capping.Chain.Order.{mem, Distinct, first, after, ne_of_mem}
use smt_register_capping.Cache.{Line, CacheBlk, fresh_blk, CacheSet}
use smt_register_capping.Cache.Way.{blk_at, blk-kept, Ways}
use smt_register_capping.Cache.Access.{same_owner, find_way, with_line}

-- the first block of an order that passes a test
abbrev pub find_in : (CacheBlk → Bool) → List CacheBlk → List ℕ → Option ℕ
find_in test blks [] = none
find_in test blks (x ∷ o) = if test (blk_at blks x) then some x else find_in test blks o

not_self : (y : ℕ) (o : List ℕ) (x : ℕ) → mem y o ≡ false → mem x o ≡ true → (y == x) ≡ false
not_self y o x out there = let e : (x == y) ≡ false = ne_of_mem o x y there out in ground arith

-- the search of the way list goes along the order
find_way-find_in :
    (test : CacheBlk → Bool) (blks : List CacheBlk) (o : List ℕ) (fuel : ℕ)
    → length o ≤ fuel
    → Distinct o
    → ((x : ℕ) → mem x o ≡ true → x < length blks)
    → ((x : ℕ) → mem x o ≡ true → (blk_at blks x).way_next ≡ after o x)
    → find_way test blks fuel (first o) ≡ ok (find_in test blks o)
unfolding find_way
find_way-find_in test blks [] fuel enough d inside nexts = refl
find_way-find_in test blks (y ∷ o) zero enough d inside nexts = absurd (omega arith)
find_way-find_in test blks (y ∷ o) (suc fuel) enough (a, d) inside nexts =
    let self : (y == y) ≡ true = ground arith in
    let next : (blk_at blks y).way_next ≡ first o = nexts y (rw self refl) ∙ rw self refl in
    let rest =
      find_way-find_in test blks o fuel (omega arith) d (λ x g. inside x (ground arith))
        (λ x g.
          let apart : (y == x) ≡ false = not_self y o x a g in
          nexts x (ground arith) ∙ rw apart refl) in
    rw (read_of_lt blks y fresh_blk (inside y (rw self refl))) (
      rw next (
        rw rest
          (elim (Bool-cases (test (blk_at blks y))) [ inl e ↦ rw e refl | inr e ↦ rw e refl ])))

pub find_way-Ways :
    (test : CacheBlk → Bool) (blks : List CacheBlk) (s : CacheSet) (h : ℕ) (t : List ℕ) (fuel : ℕ)
    → Ways blks s h t
    → length (h ∷ t) ≤ fuel
    → find_way test blks fuel s.way_head ≡ ok (find_in test blks (h ∷ t))
find_way-Ways test blks s h t fuel w enough =
    ap (find_way test blks fuel) w.head
    ∙ find_way-find_in test blks (h ∷ t) fuel enough w.distinct w.inside w.nexts

pub find_in_sound :
    (test : CacheBlk → Bool) (blks : List CacheBlk) (o : List ℕ) {p : ℕ}
    → find_in test blks o ≡ some p
    → (mem p o ≡ true) × (test (blk_at blks p) ≡ true)
find_in_sound test blks [] e = cc
find_in_sound test blks (y ∷ o) {p} e = elim (Bool-cases (test (blk_at blks y))) [
  | inl g ↦
      let here : some y ≡ some p = rw g at e in
      let same : y ≡ p = cc in
      (
        subst (λ n. mem n (y ∷ o) ≡ true) same (ground arith),
        subst (λ n. test (blk_at blks n) ≡ true) same g,
      )
  | inr g ↦ let (there, holds) = find_in_sound test blks o (rw g at e) in (ground arith, holds)
]

-- an order does not depend on the lines
pub set-Ways :
    (blks : List CacheBlk) (s : CacheSet) (h : ℕ) (t : List ℕ) (p : ℕ) (l : Line)
    → p < length blks
    → Ways blks s h t
    → Ways (set blks p (with_line (blk_at blks p) l)) s h t
set-Ways blks s h t p l lt w =
    let b = with_line (blk_at blks p) l in
    record {
      inside = λ x g. omega (arith, w.inside x g, length-set blks p b);
      prevs = λ x g. blk-kept (λ n. n.way_prev) blks p x b lt refl ∙ w.prevs x g;
      nexts = λ x g. blk-kept (λ n. n.way_next) blks p x b lt refl ∙ w.nexts x g;
      distinct = w.distinct;
      head = w.head;
      tail = w.tail;
    }

pub same_owner_refl : (a : Option ℕ) → same_owner a a ≡ true
same_owner_refl none = refl
same_owner_refl (some i) = ground arith

same_owner_sound : (a b : Option ℕ) → same_owner a b ≡ true → a ≡ b
same_owner_sound none none e = refl
same_owner_sound none (some j) e = cc
same_owner_sound (some i) none e = cc
same_owner_sound (some i) (some j) e = ap some (let same : i ≡ j = ground arith in same)
