-- ===== src/Bimodal.antt =====
-- The direction tables of bpred_bimodal.h and bpred_bimodal.c: two-bit counters, one for each branch
-- that the table's index tells apart.
mod Tests
pub mod Training
pub mod Predictor
use smt_register_capping.Base.{
  ℕ, zero, suc, ◌+◌, ◌-◌, ◌%◌, ◌/◌, ◌^◌, Bool, true, false, not, ◌&&◌, ◌==◌, ltb, leb,
  if◌then◌else◌, List, [], ◌∷◌, Option, none, some, Outcome, ok, ◌>>=◌, ◌>>◌, assert, read, length,
  set, bit_and, bit_xor,
}

-- the constructor's loop, which fills the table with 1, 2, 1, 2, ...
pub flip_flop : ℕ → ℕ → List ℕ
flip_flop zero state = []
flip_flop (suc n) state = state ∷ flip_flop n (3 - state)

-- bpred_bpred_2bit::bpred_bpred_2bit: `fatal` unless the size is a power of two
new_table : ℕ → Outcome (List ℕ)
unfolding flip_flop
new_table size = do assert (not (size == 0) && bit_and size (size - 1) == 0); ok (flip_flop size 1)

-- get_index, as an index of the table, which is not empty; MD_BR_SHIFT is 2
pub get_index : List ℕ → ℕ → ℕ
get_index table baddr = bit_and (bit_xor (baddr / 2 ^ 19) (baddr / 2 ^ 2)) (length table - 1)

-- whether a conditional branch is predicted taken, from its counter
pub predicts : List ℕ → ℕ → Outcome Bool
predicts table i = do state ← read table i; ok (not (leb state 1))

abbrev next_state : ℕ → Bool → ℕ
next_state state true = if ltb state 3 then state + 1 else state
next_state state false = if ltb 0 state then state - 1 else state

-- update_state; `none` is the null pointer of a jump
pub update_state : List ℕ → Option ℕ → Bool → Outcome (List ℕ)
update_state table none taken = ok table
update_state table (some i) taken = do
  state ← read table i
  ok (set table i (next_state state taken))
