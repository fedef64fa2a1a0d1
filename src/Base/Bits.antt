-- ===== src/Base/Bits.antt =====
-- Masks: what `x & (2^k - 1)` is, and that the test `(x & (x - 1)) == 0` admits the powers of two.
use Prim.Native.Nat.{
  ℕ, zero, suc, ◌+◌, ◌-◌, ◌*◌, ◌/◌, ◌%◌, ◌^◌, ◌≤◌, ◌<◌, min, max, bit_and, bit_or, digits,
  bit_and-bitwise, bit_or-bitwise,
}
use mathlib.Core.Path.{◌≡◌, refl, sym, ap, ◌∙◌}
use mathlib.Core.Logic.{◌≢◌, ◌⊎◌, inl, inr}
use native.Mathlib.Omega.{arith}
use native.Mathlib.Decide.{ℕ_discrete}
use native.Mathlib.Nat.{
  one-le-pow, mul_assoc, pow-suc, mod-lt, mod-add-div, add-mul-mod_self_left, mod-eq_of_lt,
}

-- the count of digits does not matter, if it is large enough
digits-count :
    (b a j k : ℕ) → a ≤ j → a ≤ k → digits (λ _. zero) min j a b ≡ digits (λ _. zero) min k a b
digits-count b zero zero zero p q = refl
digits-count b zero zero (suc k) p q = refl
digits-count b zero (suc j) zero p q = refl
digits-count b zero (suc j) (suc k) p q = refl
digits-count b (suc a) zero k p q = absurd (omega arith)
digits-count b (suc a) (suc j) zero p q = absurd (omega arith)
digits-count b (suc a) (suc j) (suc k) p q =
    omega (arith, digits-count (b / 2) (suc a / 2) j k (omega arith) (omega arith))

-- the lowest digit apart
bit_and-halves : (a b : ℕ) → bit_and a b ≡ bit_and (a / 2) (b / 2) * 2 + min (a % 2) (b % 2)
bit_and-halves zero b = omega (arith, bit_and-bitwise 0 b, bit_and-bitwise 0 (b / 2))
bit_and-halves (suc a) b =
    let count = digits-count (b / 2) (suc a / 2) a (suc a / 2) (omega arith) (omega arith) in
    omega (arith, bit_and-bitwise (suc a) b, bit_and-bitwise (suc a / 2) (b / 2), count)

bit_and-none : (n a : ℕ) → a ≤ n → bit_and a 0 ≡ 0
bit_and-none n zero h = bit_and-bitwise 0 0
bit_and-none zero (suc a) h = absurd (omega arith)
bit_and-none (suc n) (suc a) h =
    omega (arith, bit_and-halves (suc a) 0, bit_and-none n (suc a / 2) (omega arith))

bit_and-zero : (a : ℕ) → bit_and a 0 ≡ 0
bit_and-zero a = bit_and-none a a (omega arith)

positive_power : (k : ℕ) → 0 < 2 ^ k
positive_power k = one-le-pow k 2 (omega arith)

-- the remainder of a number by twice p, from the one of its half
mod-double : (a p : ℕ) → 0 < p → a % (p * 2) ≡ a / 2 % p * 2 + a % 2
mod-double a p h =
    let low : ℕ = a / 2 % p * 2 + a % 2 in
    let small : low < p * 2 = omega (arith, mod-lt (a / 2) h) in
    let scaled : p * 2 * (a / 2 / p) ≡ p * (a / 2 / p) * 2 = grind arith in
    let whole : a ≡ low + p * 2 * (a / 2 / p) = omega (arith, mod-add-div (a / 2) p, scaled) in
    ap (λ n. n % (p * 2)) whole ∙ add-mul-mod_self_left low (p * 2) (a / 2 / p) ∙ mod-eq_of_lt small

-- a mask of k digits takes the remainder
pub bit_and-mask : (k a : ℕ) → bit_and a (2 ^ k - 1) ≡ a % 2 ^ k
bit_and-mask zero a = omega (arith, bit_and-zero a)
bit_and-mask (suc k) a =
    let positive = positive_power k in
    let halved : (2 ^ k * 2 - 1) / 2 ≡ 2 ^ k - 1 = omega arith in
    let odd : (2 ^ k * 2 - 1) % 2 ≡ 1 = omega arith in
    let step : bit_and a (2 ^ k * 2 - 1) ≡ bit_and (a / 2) (2 ^ k - 1) * 2 + a % 2 =
      bit_and-halves a (2 ^ k * 2 - 1) ∙ rw (halved, odd) (omega arith) in
    rw (pow-suc 2 k) (step ∙ omega (arith, mod-double a (2 ^ k) positive, bit_and-mask k (a / 2)))

bit_and_self : (n a : ℕ) → a ≤ n → bit_and a a ≡ a
bit_and_self n zero h = bit_and-bitwise 0 0
bit_and_self zero (suc a) h = absurd (omega arith)
bit_and_self (suc n) (suc a) h =
    omega (arith, bit_and-halves (suc a) (suc a), bit_and_self n (suc a / 2) (omega arith))

parity : (a : ℕ) → ((a % 2 ≡ 0) × (a ≡ a / 2 * 2)) ⊎ ((a % 2 ≡ 1) × (a ≡ a / 2 * 2 + 1))
parity a = elim (ℕ_discrete (a % 2) 0) [
  | yes e ↦ inl (e, omega arith)
  | no ne ↦ inr (omega arith, omega arith)
]

power_of_two_below : (n a : ℕ) → a ≤ n → a ≢ 0 → bit_and a (a - 1) ≡ 0 → (k : ℕ) × (a ≡ 2 ^ k)
power_of_two_below zero a h ne e = absurd (ne (omega arith))
power_of_two_below (suc n) a h ne e = elim (parity a) [
  | inl (even, half) ↦
      let prev : (a - 1) / 2 ≡ a / 2 - 1 = omega arith in
      let disjoint : bit_and (a / 2) (a / 2 - 1) ≡ 0 =
        ap (bit_and (a / 2)) (sym prev) ∙ omega (arith, bit_and-halves a (a - 1)) in
      let (k, is_power) =
        power_of_two_below n (a / 2) (omega arith) (λ z. ne (omega arith)) disjoint in
      (suc k, omega (arith, is_power, pow-suc 2 k))
  | inr (odd, half) ↦
      let prev : (a - 1) / 2 ≡ a / 2 = omega arith in
      let same : bit_and (a / 2) (a / 2) ≡ 0 =
        ap (bit_and (a / 2)) (sym prev) ∙ omega (arith, bit_and-halves a (a - 1)) in
      (0, omega (arith, bit_and_self (a / 2) (a / 2) (omega arith)))
]

-- a number other than 0 that shares no digit with the one before it
pub power_of_two : (a : ℕ) → a ≢ 0 → bit_and a (a - 1) ≡ 0 → (k : ℕ) × (a ≡ 2 ^ k)
power_of_two a ne e = power_of_two_below a a (omega arith) ne e

pub power-add : (k j : ℕ) → 2 ^ (k + j) ≡ 2 ^ k * 2 ^ j
power-add k zero =
    ap (λ n. 2 ^ n) (let e : k + 0 ≡ k = omega arith in e)
    ∙ (let e : 2 ^ k ≡ 2 ^ k * 1 = omega arith in e)
power-add k (suc j) =
    ap (λ n. 2 ^ n) (let e : k + suc j ≡ suc (k + j) = omega arith in e)
    ∙ pow-suc 2 (k + j)
    ∙ ap (λ n. n * 2) (power-add k j)
    ∙ mul_assoc (2 ^ k) (2 ^ j) 2
    ∙ ap (λ n. 2 ^ k * n) (sym (pow-suc 2 j))

bit_and-bound : (n a b : ℕ) → a ≤ n → bit_and a b ≤ b
bit_and-bound n zero b h = omega (arith, bit_and-bitwise 0 b)
bit_and-bound zero (suc a) b h = absurd (omega arith)
bit_and-bound (suc n) (suc a) b h =
    omega (arith, bit_and-halves (suc a) b, bit_and-bound n (suc a / 2) (b / 2) (omega arith))

pub bit_and_le : (a b : ℕ) → bit_and a b ≤ b
bit_and_le a b = bit_and-bound a a b (omega arith)

-- rows of a equal length, one after the other
pub mul-row : (a j i : ℕ) → j < i → j * a + a ≤ i * a
mul-row a j zero h = absurd (omega arith)
mul-row a j (suc i) h =
    let next : suc i * a ≡ i * a + a = grind arith in
    elim (ℕ_discrete j i) [
      | yes e ↦ omega (arith, next, ap (λ n. n * a) e)
      | no ne ↦ omega (arith, next, mul-row a j i (omega arith))
    ]

digits-or_zero : (n a : ℕ) → a ≤ n → digits (λ b. b) max n a 0 ≡ a
digits-or_zero zero zero h = refl
digits-or_zero zero (suc a) h = absurd (omega arith)
digits-or_zero (suc n) zero h = refl
digits-or_zero (suc n) (suc a) h = omega (arith, digits-or_zero n (suc a / 2) (omega arith))

-- a digit put behind an even number
pub bit_or-even : (a c : ℕ) → a % 2 ≡ 0 → c < 2 → bit_or a c ≡ a + c
bit_or-even zero c even small = omega (arith, bit_or-bitwise 0 c)
bit_or-even (suc a) c even small =
    let half : c / 2 ≡ 0 = omega arith in
    let high = digits-or_zero a (suc a / 2) (omega arith) in
    let low : digits (λ b. b) max a (suc a / 2) (c / 2) ≡ suc a / 2 = rw half high in
    omega (arith, bit_or-bitwise (suc a) c, low)

pub mod-shift : (x c w : ℕ) → c < 2 → (x * 2 + c) % 2 ^ suc w ≡ x % 2 ^ w * 2 + c
mod-shift x c w small =
    let half : (x * 2 + c) / 2 ≡ x = omega arith in
    let low : (x * 2 + c) % 2 ≡ c = omega arith in
    ap (λ n. (x * 2 + c) % n) (pow-suc 2 w)
    ∙ mod-double (x * 2 + c) (2 ^ w) (positive_power w)
    ∙ rw (half, low) refl

pub zero-mod_power : (w : ℕ) → 0 % 2 ^ w ≡ 0
zero-mod_power w = mod-eq_of_lt (positive_power w)

pub shift-mod : (y c m : ℕ) → (y % m * 2 + c) % m ≡ (y * 2 + c) % m
shift-mod y c m =
    let scaled : m * (y / m * 2) ≡ m * (y / m) * 2 = grind arith in
    let whole : y * 2 + c ≡ y % m * 2 + c + m * (y / m * 2) =
      omega (arith, mod-add-div y m, scaled) in
    sym (ap (λ n. n % m) whole ∙ add-mul-mod_self_left (y % m * 2 + c) m (y / m * 2))
