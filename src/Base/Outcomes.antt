-- ===== src/Base/Outcomes.antt =====
-- Results of code that can abort. `fault` stands for a failed assert, a call of panic or fatal, and
-- for an access outside an array, all of which end the simulation or are undefined behaviour.
use Prim.Native.Nat.{ℕ, zero, suc, ◌<◌}
use mathlib.Core.Path.{◌≡◌, refl, ap}
use mathlib.Core.Logic.{◌≢◌, ◌⊎◌, inl, inr}
use mathlib.Core.Bool.{Bool, true, false}
use mathlib.Core.List.{List, [], ◌∷◌}
use native.Mathlib.Omega.{arith}
use smt_register_capping.Base.Lists.{length, get_or, set}

pub data Outcome {ℓ} (A : Type ℓ) : Type ℓ where
  ok : A → Outcome A
  fault : Outcome A

abbrev pub assert : (condition : Bool) → Outcome (Unit {0})
assert false = fault
assert true = ok tt

infixl 5 ◌>>=◌
abbrev pub ◌>>=◌ {κ θ} :
    {S : Type κ} {T : Type θ} (first : Outcome S) (then_do : S → Outcome T) → Outcome T
fault >>= then_do = fault
ok s >>= then_do = then_do s

-- a check, and what is done if it succeeds
infixl 5 ◌>>◌
abbrev pub ◌>>◌ {θ} : {T : Type θ} (check : Outcome (Unit {0})) (rest : Outcome T) → Outcome T
check >> rest = check >>= λ _. rest

-- v[i], for a vector v
abbrev pub read {ℓ} : {A : Type ℓ} → List A → ℕ → Outcome A
read [] i = fault
read (x ∷ xs) zero = ok x
read (x ∷ xs) (suc i) = read xs i

pub Outcome-cases {ℓ} : {A : Type ℓ} (m : Outcome A) → (m ≡ fault) ⊎ ((a : A) × (m ≡ ok a))
Outcome-cases (ok a) = inr (a, refl)
Outcome-cases fault = inl refl

pub ok-injective {ℓ} : {A : Type ℓ} {a b : A} → ok a ≡ ok b → a ≡ b
ok-injective h = cc

-- a sequence that succeeds, for a goal that is proved from its two parts
pub >>=-elim {ℓ κ θ} :
    {A : Type ℓ} {B : Type κ} {P : Type θ} (m : Outcome A) (f : A → Outcome B) {b : B}
    → (m >>= f) ≡ ok b
    → ((a : A) → m ≡ ok a → f a ≡ ok b → P)
    → P
>>=-elim (ok a) f h k = k a refl h
>>=-elim fault f h k = cc

pub read-lt {ℓ} : {A : Type ℓ} (xs : List A) (i : ℕ) {a : A} → read xs i ≡ ok a → i < length xs
read-lt [] i h = cc
read-lt (x ∷ xs) zero h = omega arith
read-lt (x ∷ xs) (suc i) h = omega (arith, read-lt xs i h)

pub read_of_lt {ℓ} :
    {A : Type ℓ} (xs : List A) (i : ℕ) (d : A) → i < length xs → read xs i ≡ ok (get_or xs i d)
read_of_lt [] i d h = absurd (omega arith)
read_of_lt (x ∷ xs) zero d h = refl
read_of_lt (x ∷ xs) (suc i) d h = read_of_lt xs i d (omega arith)

pub get_or_of_read {ℓ} :
    {A : Type ℓ} (xs : List A) (i : ℕ) {a : A} (d : A) → read xs i ≡ ok a → get_or xs i d ≡ a
get_or_of_read [] i d h = cc
get_or_of_read (x ∷ xs) zero d h = cc
get_or_of_read (x ∷ xs) (suc i) d h = get_or_of_read xs i d h

pub set_of_read {ℓ} :
    {A : Type ℓ} (xs : List A) (i : ℕ) {a : A} → read xs i ≡ ok a → set xs i a ≡ xs
set_of_read [] i h = refl
set_of_read (x ∷ xs) zero h = cc
set_of_read (x ∷ xs) (suc i) h = ap (λ t. x ∷ t) (set_of_read xs i h)

-- what does not abort has a result
pub ok_of_ne {ℓ} : {A : Type ℓ} (m : Outcome A) → m ≢ fault → (a : A) × (m ≡ ok a)
ok_of_ne (ok a) h = (a, refl)
ok_of_ne fault h = absurd (h refl)

ok-ne_fault {ℓ} : {A : Type ℓ} {a : A} (m : Outcome A) → m ≡ ok a → m ≢ fault
ok-ne_fault m h e = cc
