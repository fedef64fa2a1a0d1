-- ===== src/Smt/Cap.antt =====
-- The cap on in-flight renamed registers: reg_counter and RENAME_REG_LIMIT of sim-outorder.c.
use smt_register_capping.Base.{
  ℕ, zero, suc, ◌+◌, ◌-◌, Bool, true, false, ltb, leb, if◌then◌else◌, List, [], ◌∷◌, Outcome, ok,
  ◌>>=◌, read, set,
}
use smt_register_capping.Isa.Opcode.{Opcode, RegType, reg_none}
use smt_register_capping.RegFile.RegSet.{get_reg_set}
use smt_register_capping.RegFile.Physical.{find_free_physreg}
use smt_register_capping.Base.{Option, none, some}
use smt_register_capping.Smt.State.{Machine}

-- RENAME_REG_LIMIT
abbrev pub rename_reg_limit : ℕ
rename_reg_limit = 10

-- MAX_CONTEXTS, the length of the array reg_counter
abbrev pub max_contexts : ℕ
max_contexts = 4

-- reg_counter_decref_if_positive(tid), for the tid of a context, which is not negative. The array
-- is read only if tid < num_contexts.
unfoldable pub reg_counter_decref_if_positive : Machine → ℕ → Outcome Machine
reg_counter_decref_if_positive m tid =
    if ltb tid m.num_contexts
    then (do
      count ← read m.reg_counter tid
      ok (if ltb 0 count then record m { reg_counter = set m.reg_counter tid (count - 1) } else m))
    else ok m

-- reg_counter[tid]++ at the end of the destination's renaming
unfoldable pub reg_counter_incref : Machine → ℕ → Outcome Machine
reg_counter_incref m tid =
    if ltb tid m.num_contexts
    then (do
      count ← read m.reg_counter tid
      ok (record m { reg_counter = set m.reg_counter tid (count + 1) }))
    else ok m

-- the loop at the start of sim_main, `for t < num_contexts: reg_counter[t] = 0`
unfoldable pub reset_counters : ℕ → List ℕ → List ℕ
reset_counters zero counters = counters
reset_counters (suc n) [] = []
reset_counters (suc n) (x ∷ xs) = 0 ∷ reset_counters n xs

-- disp_context_id < num_contexts && reg_counter[disp_context_id] >= RENAME_REG_LIMIT
unfoldable pub at_limit : Machine → ℕ → Outcome Bool
at_limit m cid =
    if ltb cid m.num_contexts
    then (do count ← read m.reg_counter cid; ok (leb rename_reg_limit count))
    else ok false

abbrev pub is_none {ℓ} : {A : Type ℓ} → Option A → Bool
is_none none = true
is_none (some a) = false

-- the register test of register_rename: true if this thread must stall
abbrev pub no_register : RegType → Machine → ℕ → Outcome Bool
no_register reg_none m cid = ok false
no_register t m cid = do
  limited ← at_limit m cid
  ok (if limited then true else is_none (find_free_physreg m.regs t))

unfoldable pub must_stall : Machine → ℕ → Opcode → Outcome Bool
unfolding at_limit
must_stall m cid op = no_register (get_reg_set op).dest m cid
