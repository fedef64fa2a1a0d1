-- ===== src/Smt/Invariant.antt =====
-- The invariant of the rename and commit stages, first part: the circular queues and the counters.
use smt_register_capping.Base.{
  ℕ, ◌+◌, ◌%◌, ◌≤◌, ◌<◌, ◌≡◌, Bool, true, false, [], none, some, length, get_or, count_if,
}
use smt_register_capping.Isa.Opcode.{RegType, reg_int, reg_fp}
use smt_register_capping.Smt.State.{RobEntry, Context, Machine, rob_entries}
use smt_register_capping.Smt.Cap.{rename_reg_limit, max_contexts}

-- an index, a count and a tail that fit a vector of `size` entries
pub record IsRing (size head tail num : ℕ) : Type 0 where
  pub head_in : head < size
  pub num_in : num ≤ size
  pub tail_at : tail ≡ (head + num) % size

pub record HasRings (c : Context) : Type 0 where
  pub rob_ring : IsRing (length c.rob) c.rob_head c.rob_tail c.rob_num
  pub lsq_ring : IsRing (length c.lsq) c.lsq_head c.lsq_tail c.lsq_num

-- an entry whose destination was renamed, and one in each of the two register files
abbrev pub is_renamed : RobEntry → Bool
is_renamed e = elim e.physreg [ none ↦ false | some p ↦ true ]

abbrev pub renamed_as : RegType → RobEntry → Bool
renamed_as reg_int e = elim e.physreg [
  | none ↦ false
  | some p ↦ elim e.dest_format [ reg_int ↦ true | _ ↦ false ]
]
renamed_as _ e = elim e.physreg [
  | none ↦ false
  | some p ↦ elim e.dest_format [ reg_int ↦ false | _ ↦ true ]
]

-- the counters of a thread are the numbers of its renamed instructions in flight
pub record IsCounted (c : Context) (counter : ℕ) : Type 0 where
  pub capped : counter ≤ rename_reg_limit
  pub counted : counter ≡ count_if is_renamed (rob_entries c)
  pub dcra_int : c.dcra_int_rf ≡ count_if (renamed_as reg_int) (rob_entries c)
  pub dcra_fp : c.dcra_fp_rf ≡ count_if (renamed_as reg_fp) (rob_entries c)

-- no more threads than counters
pub record Fits (m : Machine) : Type 0 where
  pub threads : length m.contexts ≡ m.num_contexts
  pub counters : length m.reg_counter ≡ max_contexts
  pub few : m.num_contexts ≤ max_contexts

-- a context that no thread has, for an index out of range
abbrev pub idle_context : Context
idle_context = record {
  rename_table = [];
  rob = [];
  rob_head = 0;
  rob_tail = 0;
  rob_num = 0;
  lsq = [];
  lsq_head = 0;
  lsq_tail = 0;
  lsq_num = 0;
  dcra_int_rf = 0;
  dcra_fp_rf = 0;
}

abbrev pub thread : Machine → ℕ → Context
thread m cid = get_or m.contexts cid idle_context

abbrev pub counter : Machine → ℕ → ℕ
counter m cid = get_or m.reg_counter cid 0

-- every thread has its queues and its counters in order, within the cap
pub record IsCapped (m : Machine) : Type 0 where
  pub fits : Fits m
  pub rings : (cid : ℕ) → cid < m.num_contexts → HasRings (thread m cid)
  pub counts : (cid : ℕ) → cid < m.num_contexts → IsCounted (thread m cid) (counter m cid)
