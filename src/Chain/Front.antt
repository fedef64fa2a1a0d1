-- ===== src/Chain/Front.antt =====
-- A chain as two functions, and the move of an entry to its front.
use smt_register_capping.Base.{
  ℕ, ◌≡◌, refl, sym, ap, ◌∙◌, inl, inr, true, false, ◌==◌, if◌then◌else◌, List, ◌∷◌, Option, none,
  some, Bool-cases, arith,
}
use smt_register_capping.Chain.{same_pointer}
use smt_register_capping.Chain.Order.{
  mem, Distinct, before, after, without, before-without, after-without, mem-after, mem-before,
  ne_of_mem,
}

-- the pointers of the entries of an order
pub record Links (prev next : ℕ → Option ℕ) (o : List ℕ) : Type 0 where
  pub prevs : (x : ℕ) → mem x o ≡ true → prev x ≡ before none o x
  pub nexts : (x : ℕ) → mem x o ≡ true → next x ≡ after o x

-- the pointers after the move of p in front of h, in terms of those before it
pub record ToFront (prev next prev' next' : ℕ → Option ℕ) (p h : ℕ) : Type 0 where
  pub prevs :
      (x : ℕ)
      → prev' x ≡ (
          if h == x
          then some p
          else if p == x
          then none
          else if same_pointer (next p) (some x)
          then prev p
          else prev x)
  pub nexts :
      (x : ℕ)
      → next' x
        ≡ (if p == x then some h else if same_pointer (prev p) (some x) then next p else next x)

module _ (prev next prev' next' : ℕ → Option ℕ) (h p : ℕ) (t : List ℕ) (c : Links prev next (h ∷ t))
    (d : Distinct (h ∷ t)) (there : mem p (h ∷ t) ≡ true) (other : (h == p) ≡ false)
    (m : ToFront prev next prev' next' p h) where
  p_prev : prev p ≡ before (some h) t p
  p_prev = c.prevs p there ∙ rw other refl

  p_next : next p ≡ after t p
  p_next = c.nexts p there ∙ rw other refl

  pub front-prevs : (x : ℕ) → mem x (h ∷ t) ≡ true → prev' x ≡ before none (p ∷ without p (h ∷ t)) x
  front-prevs x g = m.prevs x ∙ elim (Bool-cases (p == x)) [
    | inl e ↦ let apart : (h == x) ≡ false = ground arith in rw (apart, e) refl
    | inr e ↦ elim (Bool-cases (h == x)) [
      | inl f ↦ rw (e, f, other) (rw f refl)
      | inr f ↦
          let ne : (x == p) ≡ false = ground arith in
          let old : prev x ≡ before (some h) t x = c.prevs x g ∙ rw f refl in
          rw (e, f, other)
            (rw f (rw (p_next, p_prev, old) (sym (before-without t (some h) p x d.1 ne))))
    ]
  ]

  pub front-nexts : (x : ℕ) → mem x (h ∷ t) ≡ true → next' x ≡ after (p ∷ without p (h ∷ t)) x
  front-nexts x g = m.nexts x ∙ elim (Bool-cases (p == x)) [
    | inl e ↦ rw (e, other) refl
    | inr e ↦
        let ne : (x == p) ≡ false = ground arith in
        rw e (
          rw (c.prevs p there, c.nexts p there, c.nexts x g) (sym (after-without (h ∷ t) p x d ne)))
  ]

  -- the pointers of the entries of other chains
  module _ (x : ℕ) (out : mem x (h ∷ t) ≡ false) where
    not_h : (h == x) ≡ false
    not_h = ne_of_mem (h ∷ t) h x (ground arith) out

    not_p : (p == x) ≡ false
    not_p = ne_of_mem (h ∷ t) p x there out

    pub front-prev_elsewhere : prev' x ≡ prev x
    front-prev_elsewhere =
        let beside : same_pointer (next p) (some x) ≡ false =
          ap (λ q. same_pointer q (some x)) (c.nexts p there) ∙ mem-after (h ∷ t) p x out in
        m.prevs x ∙ rw (not_h, not_p, beside) refl

    pub front-next_elsewhere : next' x ≡ next x
    front-next_elsewhere =
        let beside : same_pointer (prev p) (some x) ≡ false =
          ap (λ q. same_pointer q (some x)) p_prev ∙ mem-before t h p x (ground arith) not_h in
        m.nexts x ∙ rw (not_p, beside) refl
