-- ===== src/Retstack/Lifo.antt =====
-- The addresses that the stack holds, from the top down, and what a push and a pop do to them.
use native.Mathlib.Decide.{dec_lt}
use native.Mathlib.Nat.{mod-add-mod, mod-eq_of_lt, add-mod_right, mod-lt, mod_self}
use smt_register_capping.Base.{
  ℕ, suc, ◌+◌, ◌-◌, ◌%◌, ◌^◌, ◌≤◌, ◌<◌, ◌≡◌, refl, ap, sym, ◌∙◌, List, [], ◌∷◌, ok, arith, length,
  set, get_or, ◌==◌, false, read_of_lt, length-set, get_or-set_self, get_or-set_ne,
}
use smt_register_capping.Smt.Ring.{place-ne, mod-add_zero}
use smt_register_capping.Retstack.{Retstack, word, inst_size, pop, push}

pub record IsStack (s : Retstack) : Type 0 where
  pub top_in : s.tos < s.size
  pub room : length s.stack ≡ s.size
  pub small : s.size < 2 ^ 32

-- the entries from `t` downwards, going round, are these return addresses
abbrev Below : List ℕ → ℕ → ℕ → List ℕ → Type 0
Below v n t [] = Unit {0}
Below v n t (r ∷ rs) = (get_or v t 0 ≡ r) × Below v n ((t + n - 1) % n) rs

abbrev pub Holds : Retstack → List ℕ → Type 0
Holds s rs = Below s.stack s.size s.tos rs

down_up : (t n d : ℕ) → t < n → ((t + n - 1) % n + suc d) % n ≡ (t + d) % n
down_up t n d h =
    mod-add-mod (t + n - 1) n (suc d) ∙ ap (λ k. k % n) (omega arith) ∙ add-mod_right (t + d) n

Below-set :
    (v : List ℕ) (n t i d x : ℕ) (rs : List ℕ)
    → t < n
    → 0 < d
    → d + length rs ≤ n
    → i ≡ (t + d) % n
    → Below v n t rs
    → Below (set v i x) n t rs
Below-set v n t i d x [] ht hd hn e b = tt
Below-set v n t i d x (r ∷ rs) ht hd hn e b = (
  get_or-set_ne v i t x 0
        (λ c. place-ne t 0 d n ht hd (omega arith) (mod-add_zero t n ht ∙ sym c ∙ e))
      ∙ b.0,
  Below-set v n ((t + n - 1) % n) i (suc d) x rs (omega arith) (omega arith) (omega arith)
      (e ∙ sym (down_up t n d ht)) b.1,
)

-- going up from the top and down again
up_down : (t n : ℕ) → t < n → ((t + 1) % n + n - 1) % n ≡ t
up_down t n h = elim (dec_lt (t + 1) n) [
  | yes e ↦
      ap (λ k. (k + n - 1) % n) (mod-eq_of_lt e)
      ∙ ap (λ k. k % n) (omega arith)
      ∙ add-mod_right t n
      ∙ mod-eq_of_lt h
  | no e ↦
      let full : t + 1 ≡ n = omega arith in
      ap (λ k. (k % n + n - 1) % n) full
      ∙ ap (λ k. (k + n - 1) % n) (mod_self n)
      ∙ mod-eq_of_lt (omega arith)
      ∙ omega arith
]

-- the machine's arithmetic on the top of the stack, without its wrap-around
up_word : (t n : ℕ) → t < n → n < 2 ^ 32 → (t + 1) % word % n ≡ (t + 1) % n
up_word t n h k = ap (λ j. j % n) (mod-eq_of_lt (omega arith))

down_word : (t n : ℕ) → t < n → n < 2 ^ 32 → (t + n + word - 1) % word % n ≡ (t + n - 1) % n
down_word t n h k =
    ap (λ j. j % n)
      (ap (λ j. j % word) (omega arith)
        ∙ add-mod_right (t + n - 1) word
        ∙ mod-eq_of_lt (omega arith))

nonzero : (n : ℕ) → 0 < n → (n == 0) ≡ false
nonzero n h = ground arith

-- On a well-formed stack of fewer than 2^32 entries with room for one more, a call does not abort
-- and pushes the address behind the branch; the addresses below it are kept, and the stack stays
-- well formed.
pub push-Holds :
    (s : Retstack) (a : ℕ) (rs : List ℕ)
    → IsStack s
    → length rs < s.size
    → Holds s rs
    → (s' : Retstack) × (push s a ≡ ok s') × IsStack s' × Holds s' ((a + inst_size) % word ∷ rs)
unfolding push
push-Holds s a rs v h b =
    let i = (s.tos + 1) % s.size in
    let x = (a + inst_size) % word in
    rw (up_word s.tos s.size v.top_in v.small) (
      record s { tos = i; stack = set s.stack i x; pushes = s.pushes + 1 },
      rw
          (
            nonzero s.size (omega (arith, h)),
            read_of_lt s.stack i 0 (rw v.room (mod-lt _ (omega (arith, h)))),
          )
          refl,
      record {
        top_in = mod-lt _ (omega (arith, v.top_in));
        room = length-set s.stack i x ∙ v.room;
        small = v.small;
      },
      (
        get_or-set_self s.stack i x 0 (rw v.room (mod-lt _ (omega (arith, h)))),
        rw (up_down s.tos s.size v.top_in) (
            Below-set s.stack s.size s.tos i 1 x rs v.top_in (omega arith) (omega (arith, h)) refl
              b),
      ),
    )

-- On a well-formed stack of fewer than 2^32 entries that holds an address, a return does not abort
-- and takes the latest address; the stack holds the others after it and stays well formed.
pub pop-Holds :
    (s : Retstack) (r : ℕ) (rs : List ℕ)
    → IsStack s
    → Holds s (r ∷ rs)
    → (s' : Retstack) × (pop s ≡ ok (r, s')) × IsStack s' × Holds s' rs
unfolding pop
pop-Holds s r rs v b =
    let t = (s.tos + s.size + word - 1) % word % s.size in
    (
      record s { tos = t; pops = s.pops + 1 },
      rw (read_of_lt s.stack s.tos 0 (rw v.room v.top_in), b.0) refl,
      record { top_in = mod-lt _ (omega (arith, v.top_in)); room = v.room; small = v.small },
      rw (down_word s.tos s.size v.top_in v.small) b.1,
    )
