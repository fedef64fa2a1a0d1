-- ===== src/Inflight/Sorted.antt =====
-- Sorted queues in flight, and the place that inorderinsert gives to a new element.
use mathlib.Core.Bool.{true≢false}
use smt_register_capping.Base.{
  ◌≡◌, refl, ap, sym, ◌∙◌, Bool, true, false, Bool-cases, inl, inr, List, [], ◌∷◌, ◌++◌, arith,
}
use smt_register_capping.Inflight.{link_less, seq_sort, inorderinsert}

module _ {ℓ} {T : Type ℓ} (comp : T → T → Bool) where
  -- no element of the list is less than `t`
  abbrev NotLess : T → List T → Type 0
  NotLess t [] = Unit {0}
  NotLess t (u ∷ us) = (comp u t ≡ false) × NotLess t us

  -- `t` is less than no element of the list
  abbrev NotBelow : T → List T → Type 0
  NotBelow t [] = Unit {0}
  NotBelow t (u ∷ us) = (comp t u ≡ false) × NotBelow t us

  -- `t` is less than every element of the list
  abbrev Below : T → List T → Type 0
  Below t [] = Unit {0}
  Below t (u ∷ us) = (comp t u ≡ true) × Below t us

  abbrev pub IsSorted : List T → Type 0
  IsSorted [] = Unit {0}
  IsSorted (t ∷ ts) = NotLess t ts × IsSorted ts

  -- what the comparison must be for a list to be kept in order
  pub record IsOrder : Type ℓ where
    pub trans : (a b c : T) → comp a b ≡ true → comp b c ≡ true → comp a c ≡ true
    pub asym : (a b : T) → comp a b ≡ true → comp b a ≡ false
    pub beyond : (a b c : T) → comp a b ≡ true → comp c b ≡ false → comp a c ≡ true

  module _ (o : IsOrder) where
    -- what is not less than `u` is not less than a `t` below `u`
    NotLess-below : (t u : T) (us : List T) → comp t u ≡ true → NotLess u us → NotLess t us
    NotLess-below t u [] h n = tt
    NotLess-below t u (v ∷ us) h n = (
      elim (Bool-cases (comp v t)) [
        | inl e ↦ absurd (true≢false (sym (o.trans v t u e h) ∙ n.0))
        | inr e ↦ e
      ],
      NotLess-below t u us h n.1,
    )

    -- `u`, which is at most `t`, stays in front of the insertion
    NotLess-insert :
        (u t : T) (us : List T)
        → comp t u ≡ false
        → NotLess u us
        → NotLess u (inorderinsert comp t us)
    unfolding inorderinsert
    NotLess-insert u t [] h n = (h, tt)
    NotLess-insert u t (v ∷ us) h n = elim (Bool-cases (comp t v)) [
      | inl e ↦ rw e (h, (n.0, n.1))
      | inr e ↦ rw e (n.0, NotLess-insert u t us h n.1)
    ]

    insert-IsSorted : (t : T) (ts : List T) → IsSorted ts → IsSorted (inorderinsert comp t ts)
    unfolding inorderinsert
    insert-IsSorted t [] s = (tt, tt)
    insert-IsSorted t (u ∷ us) s = elim (Bool-cases (comp t u)) [
      | inl e ↦ rw e ((o.asym t u e, NotLess-below t u us e s.0), (s.0, s.1))
      | inr e ↦ rw e (NotLess-insert u t us e s.0, insert-IsSorted t us s.1)
    ]

  -- where an element goes: behind all that it is not less than, in front of all that it is less than
  pub record Place (t : T) (ts out : List T) : Type ℓ where
    pub before : List T
    pub after : List T
    pub parts : ts ≡ before ++ after
    pub placed : out ≡ before ++ (t ∷ after)
    pub behind : NotBelow t before
    pub ahead : Below t after

  NotLess-Below :
      (o : IsOrder) (t u : T) (us : List T) → comp t u ≡ true → NotLess u us → Below t us
  NotLess-Below o t u [] h n = tt
  NotLess-Below o t u (v ∷ us) h n = (o.beyond t u v h n.0, NotLess-Below o t u us h n.1)

  insert-Place :
      (o : IsOrder) (t : T) (ts : List T) → IsSorted ts → Place t ts (inorderinsert comp t ts)
  unfolding inorderinsert
  insert-Place o t [] s = record {
    before = [];
    after = [];
    parts = refl;
    placed = refl;
    behind = tt;
    ahead = tt;
  }
  insert-Place o t (u ∷ us) s = elim (Bool-cases (comp t u)) [
    | inl e ↦ rw e (record {
      before = [];
      after = u ∷ us;
      parts = refl;
      placed = refl;
      behind = tt;
      ahead = (e, NotLess-Below o t u us e s.0);
    })
    | inr e ↦
        let p = insert-Place o t us s.1 in
        rw e (record {
          before = u ∷ p.before;
          after = p.after;
          parts = ap (λ l. u ∷ l) p.parts;
          placed = ap (λ l. u ∷ l) p.placed;
          behind = (e, p.behind);
          ahead = p.ahead;
        })
  ]

  -- For a comparison that is a strict weak order, insertion into a sorted queue gives a sorted queue:
  -- the old one with the new element between two parts of it. The new element is less than no element
  -- of the first part and less than every element of the second, so that it stands behind all elements
  -- that are equal to it.
  pub inorderinsert_lem :
      (o : IsOrder) (t : T) (ts : List T)
      → IsSorted ts
      → IsSorted (inorderinsert comp t ts) × Place t ts (inorderinsert comp t ts)
  inorderinsert_lem o t ts s = (insert-IsSorted o t ts s, insert-Place o t ts s)

-- The order of the event queues, by cycle, and that of the ready queue, by sequence number.
pub link_less-IsOrder : IsOrder link_less × IsOrder seq_sort
unfolding link_less seq_sort
link_less-IsOrder = (
  record {
    trans = λ a b c h k. ground arith;
    asym = λ a b h. ground arith;
    beyond = λ a b c h k. ground arith;
  },
  record {
    trans = λ a b c h k. ground arith;
    asym = λ a b h. ground arith;
    beyond = λ a b c h k. ground arith;
  },
)
