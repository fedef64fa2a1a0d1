-- ===== src/Smt/Ring.antt =====
-- Circular queues: a vector, the index of the oldest entry, and the number of entries, as the ROB,
-- the LSQ and the instruction fetch queue are kept in smt.h.
use mathlib.Core.Path.{ap₂}
use native.Mathlib.Nat.{add-zero, mod-add-mod, mod-eq_of_lt, mod-eq-sub-mod}
use native.Mathlib.Decide.{dec_lt}
use smt_register_capping.Base.{
  ℕ, zero, suc, ◌+◌, ◌-◌, ◌%◌, ◌≤◌, ◌<◌, ◌≡◌, ◌≢◌, refl, sym, ap, ◌∙◌, ◌⊎◌, inl, inr, List, [], ◌∷◌,
  ◌++◌, arith, length, set, get_or, get_or-set_self, get_or-set_ne,
}

-- (i + 1) % size
abbrev pub advance : ℕ → ℕ → ℕ
advance i size = (i + 1) % size

module _ {ℓ} {A : Type ℓ} (d : A) (s : ℕ) where
  -- the `n` entries of a vector of size `s` from index `h` on, oldest first
  abbrev pub window : List A → ℕ → ℕ → List A
  window v h zero = []
  window v h (suc n) = get_or v h d ∷ window v (advance h s) n

-- Less than one turn from `h` the index has wrapped at most once.
wrap_cases :
    (h j s : ℕ)
    → h < s
    → j < s
    → ((h + j < s) × ((h + j) % s ≡ h + j)) ⊎ ((s ≤ h + j) × ((h + j) % s + s ≡ h + j))
wrap_cases h j s p q = elim (dec_lt (h + j) s) [
  | yes e ↦ inl (e, mod-eq_of_lt e)
  | no e ↦ inr (
    omega arith,
    omega (
      arith,
      mod-eq-sub-mod {n = h + j} {m = s} (omega arith),
      mod-eq_of_lt {n = h + j - s} {m = s} (omega arith),
    ),
  )
]

pub advance-add : (h j s : ℕ) → (advance h s + j) % s ≡ (h + suc j) % s
advance-add h j s = rw mod-add-mod (ap (λ t. t % s) (omega arith))

pub advance-lt : (h s : ℕ) → h < s → advance h s < s
advance-lt h s p = omega arith

pub mod-add_zero : (h s : ℕ) → h < s → (h + 0) % s ≡ h
mod-add_zero h s p = rw add-zero (mod-eq_of_lt p)

-- Two places less than one turn apart are different indices.
pub place-ne : (h j k s : ℕ) → h < s → j < k → k < s → (h + j) % s ≢ (h + k) % s
place-ne h j k s p q r e = ground (arith, wrap_cases h j s p (omega arith), wrap_cases h k s p r)

module _ {ℓ} {A : Type ℓ} (d : A) (s : ℕ) where
  length-window : (v : List A) (h n : ℕ) → length (window d s v h n) ≡ n
  length-window v h zero = refl
  length-window v h (suc n) = ap suc (length-window v (advance h s) n)

  -- a write to an index that no entry has
  pub window-set_out :
      (v : List A) (i h n : ℕ) (x : A)
      → h < s
      → ((k : ℕ) → k < n → (h + k) % s ≢ i)
      → window d s (set v i x) h n ≡ window d s v h n
  window-set_out v i h zero x hh out = refl
  window-set_out v i h (suc n) x hh out =
      ap₂ ◌∷◌ (get_or-set_ne v i h x d (λ e. out 0 (omega arith) (mod-add_zero h s hh ∙ sym e))) (
        window-set_out v i (advance h s) n x (advance-lt h s hh)
          (λ k lt e. out (suc k) (omega arith) (sym (advance-add h k s) ∙ e)))

  -- a new entry behind the last one
  pub window-push :
      (v : List A) (i h n : ℕ) (x : A)
      → length v ≡ s
      → h < s
      → n < s
      → i ≡ (h + n) % s
      → window d s (set v i x) h (suc n) ≡ window d s v h n ++ (x ∷ [])
  window-push v i h zero x l hh hn e =
      ap (λ t. t ∷ []) (rw (e, mod-add_zero h s hh) (get_or-set_self v h x d (omega arith)))
  window-push v i h (suc n) x l hh hn e =
      ap₂ ◌∷◌
        (get_or-set_ne v i h x d
          (λ c. place-ne h 0 (suc n) s hh (omega arith) hn (mod-add_zero h s hh ∙ sym c ∙ e)))
        (window-push v i (advance h s) n x l (advance-lt h s hh) (omega arith)
          (e ∙ sym (advance-add h n s)))

  -- a write to the entry `k` places behind the oldest
  window-set :
      (v : List A) (i h n k : ℕ) (x : A)
      → length v ≡ s
      → h < s
      → n ≤ s
      → k < n
      → i ≡ (h + k) % s
      → window d s (set v i x) h n ≡ set (window d s v h n) k x
  window-set v i h zero k x l hh hn hk e = absurd (omega arith)
  window-set v i h (suc n) zero x l hh hn hk e =
      ap₂ ◌∷◌ (rw (e, mod-add_zero h s hh) (get_or-set_self v h x d (omega arith))) (
        window-set_out v i (advance h s) n x (advance-lt h s hh) (λ k lt c.
          place-ne h 0 (suc k) s hh (omega arith) (omega arith)
            (sym e ∙ sym c ∙ advance-add h k s)))
  window-set v i h (suc n) (suc k) x l hh hn hk e =
      ap₂ ◌∷◌
        (get_or-set_ne v i h x d (λ c.
          place-ne h 0 (suc k) s hh (omega arith) (omega arith) (mod-add_zero h s hh ∙ sym c ∙ e)))
        (window-set v i (advance h s) n k x l (advance-lt h s hh) (omega arith) (omega arith)
          (e ∙ sym (advance-add h k s)))

  get_or-window :
      (v : List A) (h n k : ℕ)
      → h < s
      → k < n
      → get_or (window d s v h n) k d ≡ get_or v ((h + k) % s) d
  get_or-window v h zero k hh hk = absurd (omega arith)
  get_or-window v h (suc n) zero hh hk = ap (λ t. get_or v t d) (sym (mod-add_zero h s hh))
  get_or-window v h (suc n) (suc k) hh hk =
      get_or-window v (advance h s) n k (advance-lt h s hh) (omega arith)
      ∙ ap (λ t. get_or v t d) (advance-add h k s)
