-- ===== src/FileTable/Lowest.antt =====
-- The lowest descriptor that is not in use, from the sorted descriptors.
use smt_register_capping.Base.{
  ℕ, suc, ◌+◌, ◌<◌, ◌≤◌, ◌≡◌, refl, ap, ◌∙◌, inl, inr, subst, true, false, ◌||◌, leb, ◌==◌, List,
  [], ◌∷◌, Option, none, some, ok, length, Bool-cases, arith,
}
use smt_register_capping.Chain.Order.{mem, Distinct}
use smt_register_capping.FileTable.{insert_key, sort_keys, first_gap, last_key}

-- strictly increasing numbers, from a bound on
abbrev pub Increasing : ℕ → List ℕ → Type 0
Increasing lo [] = Unit {0}
Increasing lo (a ∷ cs) = (lo ≤ a) × Increasing (a + 1) cs

mem-insert_key : (a x : ℕ) (cs : List ℕ) → mem x (insert_key a cs) ≡ (a == x || mem x cs)
unfolding insert_key
mem-insert_key a x [] = refl
mem-insert_key a x (b ∷ cs) = elim (Bool-cases (leb a b)) [
  | inl e ↦ rw e refl
  | inr e ↦ rw e (rw (mem-insert_key a x cs) (ground arith))
]

length-insert_key : (a : ℕ) (cs : List ℕ) → length (insert_key a cs) ≡ suc (length cs)
unfolding insert_key
length-insert_key a [] = refl
length-insert_key a (b ∷ cs) = elim (Bool-cases (leb a b)) [
  | inl e ↦ rw e refl
  | inr e ↦ rw e (ap suc (length-insert_key a cs))
]

insert_key-Increasing :
    (a lo : ℕ) (cs : List ℕ)
    → lo ≤ a
    → mem a cs ≡ false
    → Increasing lo cs
    → Increasing lo (insert_key a cs)
unfolding insert_key
insert_key-Increasing a lo [] le out up = (le, tt)
insert_key-Increasing a lo (b ∷ cs) le out (from, up) = elim (Bool-cases (leb a b)) [
  | inl e ↦ rw e (le, (ground arith, up))
  | inr e ↦ rw e (from, insert_key-Increasing a (b + 1) cs (ground arith) (ground arith) up)
]

pub mem-sort_keys : (x : ℕ) (cs : List ℕ) → mem x (sort_keys cs) ≡ mem x cs
unfolding sort_keys
mem-sort_keys x [] = refl
mem-sort_keys x (a ∷ cs) = mem-insert_key a x (sort_keys cs) ∙ rw (mem-sort_keys x cs) refl

pub length-sort_keys : (cs : List ℕ) → length (sort_keys cs) ≡ length cs
unfolding sort_keys
length-sort_keys [] = refl
length-sort_keys (a ∷ cs) = length-insert_key a (sort_keys cs) ∙ ap suc (length-sort_keys cs)

pub sort_keys-Increasing : (cs : List ℕ) → Distinct cs → Increasing 0 (sort_keys cs)
unfolding sort_keys
sort_keys-Increasing [] d = tt
sort_keys-Increasing (a ∷ cs) (out, d) =
    insert_key-Increasing a 0 (sort_keys cs) (omega arith) (mem-sort_keys a cs ∙ out)
      (sort_keys-Increasing cs d)

-- the lowest number that a list does not have, from i on
pub record IsLowest (i : ℕ) (cs : List ℕ) (n : ℕ) : Type 0 where
  pub from : i ≤ n
  pub unused : mem n cs ≡ false
  pub lower : (m : ℕ) → i ≤ m → m < n → mem m cs ≡ true

Increasing-out : (lo x : ℕ) (cs : List ℕ) → Increasing lo cs → x < lo → mem x cs ≡ false
Increasing-out lo x [] up lt = refl
Increasing-out lo x (a ∷ cs) (from, up) lt =
    let rest = Increasing-out (a + 1) x cs up (omega (arith, from, lt)) in ground (arith, from)

-- what the loop and the code after it give
abbrev gap_or : Option ℕ → ℕ → ℕ
gap_or none d = d
gap_or (some g) d = g

abbrev pub lowest_of : List ℕ → (i : ℕ) → ℕ
lowest_of cs i = gap_or (first_gap cs i) (i + length cs)

next-IsLowest :
    (a i n : ℕ) (cs : List ℕ) → (a == i) ≡ true → IsLowest (i + 1) cs n → IsLowest i (a ∷ cs) n
next-IsLowest a i n cs e v =
    let from = v.from in
    let unused = v.unused in
    record {
      from = omega (arith, from);
      unused = let other : (a == n) ≡ false = ground arith in rw (other, unused) refl;
      lower = λ m le lt. elim (Bool-cases (a == m)) [
        | inl f ↦ rw f refl
        | inr f ↦ rw (f, v.lower m (ground arith) lt) refl
      ];
    }

pub lowest_of-IsLowest : (cs : List ℕ) (i : ℕ) → Increasing i cs → IsLowest i cs (lowest_of cs i)
unfolding first_gap
lowest_of-IsLowest [] i up = record {
  from = omega arith;
  unused = refl;
  lower = λ m le lt. absurd (omega (arith, le, lt));
}
lowest_of-IsLowest (a ∷ cs) i (from, up) = elim (Bool-cases (a == i)) [
  | inr e ↦
      let rest = Increasing-out (a + 1) i cs up (omega (arith, from)) in
      rw e (record {
        from = omega arith;
        unused = rw (e, rest) refl;
        lower = λ m le lt. absurd (omega (arith, le, lt));
      })
  | inl e ↦
      let same : a ≡ i = ground arith in
      let rec = lowest_of-IsLowest cs (i + 1) (subst (λ n. Increasing (n + 1) cs) same up) in
      let count : i + 1 + length cs ≡ i + suc (length cs) = omega arith in
      rw e (
        next-IsLowest a i _ cs e
          (subst (λ n. IsLowest (i + 1) cs (gap_or (first_gap cs (i + 1)) n)) count rec))
]

-- without a gap, the last number ends the row
pub last_key-row :
    (a : ℕ) (cs : List ℕ) (i : ℕ)
    → first_gap (a ∷ cs) i ≡ none
    → last_key (a ∷ cs) ≡ ok (i + length cs)
unfolding first_gap last_key
last_key-row a [] i e = elim (Bool-cases (a == i)) [
  | inr f ↦ let gap : some i ≡ none = rw f at e in cc
  | inl f ↦ ap ok (let same : a ≡ i + 0 = ground arith in same)
]
last_key-row a (b ∷ cs) i e = elim (Bool-cases (a == i)) [
  | inr f ↦ let gap : some i ≡ none = rw f at e in cc
  | inl f ↦
      last_key-row b cs (i + 1) (rw f at e)
      ∙ ap ok (let count : i + 1 + length cs ≡ i + suc (length cs) = omega arith in count)
]

last_key-bound :
    (lo a : ℕ) (cs : List ℕ)
    → Increasing lo (a ∷ cs)
    → (b : ℕ) × (last_key (a ∷ cs) ≡ ok b) × (lo + length cs ≤ b)
unfolding last_key
last_key-bound lo a [] (from, up) = (a, refl, omega (arith, from))
last_key-bound lo a (b ∷ cs) (from, up) =
    let (n, last, bound) = last_key-bound (a + 1) b cs up in (n, last, omega (arith, bound, from))

-- with a gap, it is beyond
pub last_key-gap :
    (a : ℕ) (cs : List ℕ) (i : ℕ) {g : ℕ}
    → Increasing i (a ∷ cs)
    → first_gap (a ∷ cs) i ≡ some g
    → (b : ℕ) × (last_key (a ∷ cs) ≡ ok b) × (i + length cs < b)
unfolding first_gap last_key
last_key-gap a [] i (from, up) e = elim (Bool-cases (a == i)) [
  | inl f ↦ let no_gap : none ≡ some _ = rw f at e in cc
  | inr f ↦ (a, refl, ground arith)
]
last_key-gap a (b ∷ cs) i (from, up) e = elim (Bool-cases (a == i)) [
  | inl f ↦
      let same : a ≡ i = ground arith in
      let (n, last, bound) =
        last_key-gap b cs (i + 1) (subst (λ n. Increasing (n + 1) (b ∷ cs)) same up) (rw f at e) in
      (n, last, omega (arith, bound))
  | inr f ↦
      let (n, last, bound) = last_key-bound (a + 1) b cs up in
      let beyond : i < a = ground arith in (n, last, omega (arith, bound, beyond))
]
