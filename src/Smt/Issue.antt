-- ===== src/Smt/Issue.antt =====
-- How sim-outorder.c moves one ROB or LSQ entry from dispatch to its functional unit: readyq_enqueue,
-- one turn of selection's loop, and what execute does to the entries of a replay. The latencies that
-- the caches and the latency predictor give are arguments.
pub mod Kept
pub mod Freed
use smt_register_capping.Base.{
  ℕ, ◌+◌, ◌^◌, Bool, true, false, ◌&&◌, ◌||◌, not, leb, if◌then◌else◌, Option, none, some, Outcome,
  ok, ◌>>=◌, ◌>>◌, assert, read, set,
}
use smt_register_capping.Isa.Opcode.{RegType, reg_none}
use smt_register_capping.Isa.Flags.{is_load, is_store, has_store_flag}
use smt_register_capping.Isa.Units.{needs_unit}
use smt_register_capping.RegFile.RegSet.{get_reg_set}
use smt_register_capping.RegFile.Physical.{
  RegFile, PhysReg, never, access, write_reg, is_alloc, reg_wb,
}
use smt_register_capping.Smt.State.{RobEntry, Machine, put_context}
use smt_register_capping.Smt.Operands.{all_operands_spec_ready}
use smt_register_capping.Smt.Commit.{move_state}

-- the latency of the instruction and the one that its dependents are woken up for
pub record Timing : Type 0 where
  pub exec_lat : ℕ
  pub spec_lat : ℕ
  pub issue_exec_delay : ℕ

-- spec_ready and ready of the destination
set_times : RegFile → ℕ → RegType → ℕ → ℕ → Outcome RegFile
unfolding access write_reg
set_times f i t spec_ready ready = do
  r ← access f i t
  ok (write_reg f i t (record r { spec_ready = spec_ready; ready = ready }))

has_dest : RegType → Bool
has_dest reg_none = false
has_dest _ = true

-- the wakeup of the dependents, for an entry with a physical register of its own
wake : RegFile → ℕ → ℕ → Timing → Option ℕ → RegType → Outcome RegFile
unfolding set_times has_dest
wake f cycle lat time none t = ok f
wake f cycle lat time (some i) t =
    if has_dest t
    then set_times f i t (cycle + lat) (cycle + time.exec_lat + time.issue_exec_delay)
    else ok f

-- the register of a store conditional is marked as written
store_register : RegFile → ℕ → Timing → Option ℕ → RegType → Outcome RegFile
unfolding set_times
store_register f cycle time none t = ok f
store_register f cycle time (some i) t = do
  f1 ← set_times f i t (cycle + time.exec_lat) (cycle + time.exec_lat + time.issue_exec_delay)
  move_state is_alloc reg_wb f1 i t

-- a store's value goes into the LSQ: the entry is complete
issue_store : RegFile → ℕ → Timing → RobEntry → Outcome (RegFile × RobEntry)
unfolding store_register
issue_store f cycle time rs = do
  f1 ← store_register f cycle time rs.physreg rs.dest_format
  assert (not rs.recover_inst)
  ok (f1, record rs { issued = true; completed = true })

-- issue_exec_q_queue_event, for an event that is not in the past
queue_event : RegFile → ℕ → RobEntry → Outcome (Unit {0})
queue_event f cycle rs = do
  assert (not rs.completed)
  ready ← all_operands_spec_ready f cycle rs
  assert ready

-- a load, an operation on a functional unit, and an operation without one
issue_load : RegFile → ℕ → Timing → RobEntry → Outcome (RegFile × RobEntry)
unfolding queue_event wake
issue_load f cycle time rs = do
  queue_event f cycle rs
  f1 ← wake f cycle time.spec_lat time rs.physreg rs.dest_format
  ok (f1, record rs { issued = true })

issue_unit : RegFile → ℕ → Timing → RobEntry → Outcome (RegFile × RobEntry)
unfolding queue_event wake
issue_unit f cycle time rs = do
  queue_event f cycle rs
  f1 ← if rs.ea_comp then ok f else wake f cycle time.exec_lat time rs.physreg rs.dest_format
  ok (f1, record rs { issued = true })

-- without a unit, a destination must have a register
wake_free : RegFile → ℕ → ℕ → Option ℕ → RegType → Outcome RegFile
unfolding wake has_dest
wake_free f cycle delay i t = do
  assert (if has_dest t then elim i [ none ↦ false | some _ ↦ true ] else true)
  wake f cycle 1 (record { exec_lat = 1; spec_lat = 1; issue_exec_delay = delay }) i t

issue_free : RegFile → ℕ → ℕ → RobEntry → Outcome (RegFile × RobEntry)
unfolding queue_event wake_free
issue_free f cycle delay rs = do
  queue_event f cycle rs
  f1 ← wake_free f cycle delay rs.physreg rs.dest_format
  ok (f1, record rs { issued = true })

-- what one entry goes through: readyq_enqueue; selection, with a functional unit at hand or not; and
-- the two parts of a replay, for an issued entry and for one in the ready queue
pub data EntryStep : Type 0 where
  enqueue : EntryStep
  select : Bool → Timing → EntryStep
  unissue : EntryStep
  unqueue : EntryStep

issue : RegFile → ℕ → Bool → Timing → RobEntry → Outcome (RegFile × RobEntry)
unfolding issue_store issue_load issue_unit issue_free
issue f cycle unit_free time rs =
    if rs.in_lsq && is_store rs.op
    then issue_store f cycle time rs
    else if not (needs_unit rs.op)
    then issue_free f cycle time.issue_exec_delay rs
    else if not unit_free
    then ok (f, record rs { queued = true })
    else if rs.in_lsq && is_load rs.op
    then issue_load f cycle time rs
    else issue_unit f cycle time rs

-- a replayed entry's register is due at no cycle
forget_times : RegFile → Option ℕ → RegType → Outcome RegFile
unfolding set_times has_dest
forget_times f none t = ok f
forget_times f (some i) t = if has_dest t then set_times f i t never never else ok f

pub entry_step : EntryStep → RegFile → ℕ → RobEntry → Outcome (RegFile × RobEntry)
unfolding issue forget_times
entry_step enqueue f cycle rs = do
  assert (not rs.queued)
  ready ← all_operands_spec_ready f cycle rs
  assert ready
  ok (f, record rs { queued = true })
entry_step (select unit_free time) f cycle rs = do
  ready ← all_operands_spec_ready f cycle rs
  assert (ready && rs.queued && not rs.issued && (has_store_flag rs.op || not rs.completed))
  issue f cycle unit_free time (record rs { queued = false })
entry_step unissue f cycle rs = do
  f1 ← if rs.ea_comp then ok f else forget_times f rs.physreg rs.dest_format
  assert (not rs.queued)
  assert (not rs.completed)
  ok (f1, record rs { issued = false; replayed = true })
entry_step unqueue f cycle rs = do
  assert (not rs.completed)
  ok (f, record rs { queued = false; replayed = true })

-- an entry of the ROB, or of the LSQ
unfoldable pub step_rob : EntryStep → Machine → ℕ → ℕ → Outcome Machine
unfolding entry_step
step_rob s m cid i = do
  c ← read m.contexts cid
  rs ← read c.rob i
  (f, rs1) ← entry_step s m.regs m.sim_cycle rs
  ok (put_context (record m { regs = f }) cid (record c { rob = set c.rob i rs1 }))

unfoldable pub step_lsq : EntryStep → Machine → ℕ → ℕ → Outcome Machine
unfolding entry_step
step_lsq s m cid i = do
  c ← read m.contexts cid
  rs ← read c.lsq i
  (f, rs1) ← entry_step s m.regs m.sim_cycle rs
  ok (put_context (record m { regs = f }) cid (record c { lsq = set c.lsq i rs1 }))
