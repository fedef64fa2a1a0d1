-- ===== src/Chain/Order.antt =====
-- An order of use: a list of indices, the one used last at the front. What stands before and after an
-- index, and how that changes when an index moves to the front.
use smt_register_capping.Base.{
  ℕ, suc, length, ◌≡◌, ◌≢◌, refl, sym, ap, ◌∙◌, inl, inr, subst, Bool, true, false, ◌||◌, ◌==◌,
  if◌then◌else◌, List, [], ◌∷◌, Option, none, some, Bool-cases, arith,
}
use smt_register_capping.Chain.{is_null, same_pointer}

abbrev pub mem : ℕ → List ℕ → Bool
mem x [] = false
mem x (y ∷ o) = y == x || mem x o

abbrev pub Distinct : List ℕ → Type 0
Distinct [] = Unit {0}
Distinct (y ∷ o) = (mem y o ≡ false) × Distinct o

abbrev pub first : List ℕ → Option ℕ
first [] = none
first (y ∷ o) = some y

abbrev pub last_of : ℕ → List ℕ → ℕ
last_of y [] = y
last_of y (z ∷ o) = last_of z o

-- the index before x, in a list behind `prev`
abbrev pub before : Option ℕ → List ℕ → ℕ → Option ℕ
before prev [] x = none
before prev (y ∷ o) x = if y == x then prev else before (some y) o x

abbrev pub after : List ℕ → ℕ → Option ℕ
after [] x = none
after (y ∷ o) x = if y == x then first o else after o x

abbrev pub without : ℕ → List ℕ → List ℕ
without p [] = []
without p (y ∷ o) = if y == p then o else y ∷ without p o

true-ne_false : true ≢ false
true-ne_false h = cc

-- what stands before or after an index is in the list
pub mem-after : (o : List ℕ) (p x : ℕ) → mem x o ≡ false → same_pointer (after o p) (some x) ≡ false
mem-after [] p x h = refl
mem-after (y ∷ []) p x h = ground arith
mem-after (y ∷ z ∷ o) p x h = ground (arith, mem-after (z ∷ o) p x)

pub mem-before :
    (o : List ℕ) (c p x : ℕ)
    → mem x o ≡ false
    → (c == x) ≡ false
    → same_pointer (before (some c) o p) (some x) ≡ false
mem-before [] c p x h ne = refl
mem-before (y ∷ o) c p x h ne = ground (arith, mem-before o y p x)

pub before-null : (o : List ℕ) (c x : ℕ) → mem x o ≡ true → is_null (before (some c) o x) ≡ false
before-null [] c x h = cc
before-null (y ∷ o) c x h = ground (arith, before-null o y x)

-- the pointers of an index are different
pub before-after :
    (o : List ℕ) (c x : ℕ)
    → mem c o ≡ false
    → Distinct o
    → mem x o ≡ true
    → same_pointer (before (some c) o x) (after o x) ≡ false
before-after [] c x a d h = cc
before-after (y ∷ []) c x a d h = ground arith
before-after (y ∷ z ∷ o) c x a (b, d) h = ground (arith, before-after (z ∷ o) y x)

pub mem-last : (y : ℕ) (o : List ℕ) → mem (last_of y o) (y ∷ o) ≡ true
mem-last y [] = ground arith
mem-last y (z ∷ o) = ground (arith, mem-last z o)

pub after-null :
    (y : ℕ) (o : List ℕ) (x : ℕ)
    → Distinct (y ∷ o)
    → mem x (y ∷ o) ≡ true
    → is_null (after (y ∷ o) x) ≡ (x == last_of y o)
after-null y [] x d h = ground arith
after-null y (z ∷ o) x (a, d) h = elim (Bool-cases (y == x)) [
  | inl e ↦
      let other : (x == last_of z o) ≡ false = elim (Bool-cases (x == last_of z o)) [
        | inr g ↦ g
        | inl g ↦
            let same : last_of z o ≡ y = ground arith in
            absurd (true-ne_false (sym (subst (λ n. mem n (z ∷ o) ≡ true) same (mem-last z o)) ∙ a))
      ] in
      rw e (sym other)
  | inr e ↦ rw e (after-null z o x d (ground arith))
]

-- the index before x when p is taken out
pub before-without :
    (o : List ℕ) (prev : Option ℕ) (p x : ℕ)
    → Distinct o
    → (x == p) ≡ false
    → before prev (without p o) x
      ≡ (if same_pointer (after o p) (some x) then before prev o p else before prev o x)
before-without [] prev p x d ne = refl
before-without (y ∷ []) prev p x (a, d) ne = ground arith
before-without (y ∷ z ∷ o) prev p x (a, d) ne =
    ground (arith, before-without (z ∷ o) (some y) p x, mem-after (z ∷ o) p x)

pub after-without :
    (o : List ℕ) (p x : ℕ)
    → Distinct o
    → (x == p) ≡ false
    → after (without p o) x
      ≡ (if same_pointer (before none o p) (some x) then after o p else after o x)
after-without [] p x d ne = refl
after-without (y ∷ []) p x (a, d) ne = ground arith
after-without (y ∷ z ∷ o) p x (a, d) ne =
    ground (arith, after-without (z ∷ o) p x, mem-before o z p x)

pub mem-without : (o : List ℕ) (p x : ℕ) → mem x (without p o) ≡ true → mem x o ≡ true
mem-without [] p x h = h
mem-without (y ∷ o) p x h = ground (arith, mem-without o p x)

Distinct-without : (o : List ℕ) (p : ℕ) → Distinct o → Distinct (without p o)
Distinct-without [] p d = d
Distinct-without (y ∷ o) p (a, d) = elim (Bool-cases (y == p)) [
  | inl e ↦ rw e d
  | inr e ↦ rw e (ground (arith, mem-without o p y), Distinct-without o p d)
]

mem-without_self : (o : List ℕ) (p : ℕ) → Distinct o → mem p (without p o) ≡ false
mem-without_self [] p d = refl
mem-without_self (y ∷ o) p (a, d) = elim (Bool-cases (y == p)) [
  | inl e ↦ let same : y ≡ p = ground arith in rw e (subst (λ n. mem n o ≡ false) same a)
  | inr e ↦ rw e (rw e (mem-without_self o p d))
]

pub Distinct-front : (o : List ℕ) (p : ℕ) → Distinct o → Distinct (p ∷ without p o)
Distinct-front o p d = (mem-without_self o p d, Distinct-without o p d)

same_pointer_refl : (x : ℕ) → same_pointer (some x) (some x) ≡ true
same_pointer_refl x = ground arith

-- the neighbours of an index other than the first are in the list
pub mem_of_before :
    (h : ℕ) (t : List ℕ) (p i : ℕ) → before (some h) t p ≡ some i → mem i (h ∷ t) ≡ true
mem_of_before h t p i e = elim (Bool-cases (mem i (h ∷ t))) [
  | inl g ↦ g
  | inr g ↦
      let other = mem-before t h p i (ground arith) (ground arith) in
      absurd (
        true-ne_false
          (sym (same_pointer_refl i) ∙ ap (λ q. same_pointer q (some i)) (sym e) ∙ other))
]

pub mem_of_after : (o : List ℕ) (p i : ℕ) → after o p ≡ some i → mem i o ≡ true
mem_of_after o p i e = elim (Bool-cases (mem i o)) [
  | inl g ↦ g
  | inr g ↦ absurd (
      true-ne_false
        (sym (same_pointer_refl i) ∙ ap (λ q. same_pointer q (some i)) (sym e) ∙ mem-after o p i g))
]

pub mem-front : (o : List ℕ) (p x : ℕ) → mem x o ≡ true → mem x (p ∷ without p o) ≡ true
mem-front [] p x h = cc
mem-front (y ∷ o) p x h = ground (arith, mem-front o p x)

pub front-first : (h : ℕ) (o : List ℕ) → h ∷ without h (h ∷ o) ≡ h ∷ o
front-first h o = let same : (h == h) ≡ true = ground arith in rw same refl

pub member_front :
    (o : List ℕ) (p x : ℕ) → mem p o ≡ true → mem x (p ∷ without p o) ≡ true → mem x o ≡ true
member_front o p x there g = elim (Bool-cases (p == x)) [
  | inl e ↦ subst (λ n. mem n o ≡ true) (let same : p ≡ x = ground arith in same) there
  | inr e ↦ mem-without o p x (rw e at g)
]

-- an index that is not in the list is neither in it nor beside one of its indices
pub ne_of_mem : (o : List ℕ) (p x : ℕ) → mem p o ≡ true → mem x o ≡ false → (p == x) ≡ false
ne_of_mem o p x there out = elim (Bool-cases (p == x)) [
  | inr e ↦ e
  | inl e ↦ absurd (
      true-ne_false
        (sym (subst (λ n. mem n o ≡ true) (let same : p ≡ x = ground arith in same) there) ∙ out))
]

-- the last index of a list from which p is taken out
pub last-without :
    (h : ℕ) (t : List ℕ) (p : ℕ)
    → (last_of h t == p) ≡ false
    → last_of h (without p t) ≡ last_of h t
last-without h [] p ne = refl
last-without h (y ∷ []) p ne = ground arith
last-without h (y ∷ z ∷ t) p ne = elim (Bool-cases (y == p)) [
  | inl e ↦ rw e refl
  | inr e ↦ rw e (last-without y (z ∷ t) p ne)
]

pub last-before :
    (h : ℕ) (t : List ℕ) (p : ℕ)
    → Distinct t
    → mem p t ≡ true
    → (last_of h t == p) ≡ true
    → before (some h) t p ≡ some (last_of h (without p t))
last-before h [] p d there last = cc
last-before h (y ∷ []) p d there last = ground arith
last-before h (y ∷ z ∷ t) p (a, d) there last = elim (Bool-cases (y == p)) [
  | inl e ↦
      let same : last_of z t ≡ y = ground arith in
      absurd (true-ne_false (sym (subst (λ n. mem n (z ∷ t) ≡ true) same (mem-last z t)) ∙ a))
  | inr e ↦ rw e (last-before y (z ∷ t) p d (rw e at there) last)
]

-- only the first has nothing before it
pub first-null :
    (h : ℕ) (o : List ℕ) (x : ℕ) → mem x (h ∷ o) ≡ true → is_null (before none (h ∷ o) x) ≡ (x == h)
first-null h o x there = elim (Bool-cases (h == x)) [
  | inl e ↦ let same : (x == h) ≡ true = ground arith in rw (e, same) refl
  | inr e ↦
      let other : (x == h) ≡ false = ground arith in
      rw (e, other) (before-null o h x (rw e at there))
]

pub length-without : (o : List ℕ) (p : ℕ) → mem p o ≡ true → length (p ∷ without p o) ≡ length o
length-without [] p there = cc
length-without (y ∷ o) p there = elim (Bool-cases (y == p)) [
  | inl e ↦ rw e refl
  | inr e ↦ rw e (ap (λ n. suc n) (length-without o p (rw e at there)))
]
