-- ===== src/Smt/Commit.antt =====
-- Completion and retirement in sim-outorder.c: how writeback marks a destination register, and how
-- commit retires the oldest ROB entry of a thread, with the LSQ entry of a load or store.
pub mod Steps
pub mod Capped
pub mod Freed
use smt_register_capping.Base.{
  ℕ, ◌+◌, ◌-◌, ◌%◌, ◌^◌, Bool, true, false, ◌&&◌, not, ◌==◌, ltb, if◌then◌else◌, Option, none, some,
  Outcome, ok, fault, ◌>>=◌, ◌>>◌, assert, read, length, set,
}
use smt_register_capping.Isa.Opcode.{RegType, reg_int}
use smt_register_capping.Isa.Flags.{is_store}
use smt_register_capping.RegFile.Physical.{
  RegFile, PhysReg, RegState, reg_free, reg_wb, reg_arch, is_alloc, is_wb, is_arch, access,
  write_reg,
}
use smt_register_capping.Smt.Operands.{all_operands_ready}
use smt_register_capping.Smt.Ring.{advance}
use smt_register_capping.Smt.State.{RobEntry, Context, Machine, put_context}
use smt_register_capping.Smt.Cap.{reg_counter_decref_if_positive}

-- `assert(state == s); state = t` on one physical register
unfoldable pub move_state : (PhysReg → Bool) → RegState → RegFile → ℕ → RegType → Outcome RegFile
unfolding access write_reg
move_state test s f i t = do
  r ← access f i t
  assert (test r)
  ok (write_reg f i t (record r { state = s }))

-- writeback of a completed entry: the destination is marked as written. An address computation
-- leaves that to the LSQ entry. The register must be due in this cycle.
pub mark_written : RegFile → ℕ → Option ℕ → RegType → Bool → Outcome RegFile
unfolding move_state access
mark_written f cycle none t ea = ok f
mark_written f cycle (some i) t true = ok f
mark_written f cycle (some i) t false = do
  r ← access f i t
  assert (r.ready == cycle)
  move_state is_alloc reg_wb f i t

-- the first part of writeback for the ROB or LSQ entry of an event: its operands must be ready,
-- and it must be issued, not queued and not completed
unfoldable pub write_back : RegFile → ℕ → RobEntry → Outcome (RegFile × RobEntry)
unfolding mark_written
write_back f cycle rs = do
  ready ← all_operands_ready f cycle rs
  assert ready
  assert (not rs.queued && rs.issued && not rs.completed)
  f1 ← mark_written f cycle rs.physreg rs.dest_format rs.ea_comp
  ok (f1, record rs { completed = true })

-- an event for the entry at index `i` of the ROB, or of the LSQ
unfoldable pub write_back_rob : Machine → ℕ → ℕ → Outcome Machine
unfolding write_back
write_back_rob m cid i = do
  c ← read m.contexts cid
  rs ← read c.rob i
  (f, rs1) ← write_back m.regs m.sim_cycle rs
  ok (put_context (record m { regs = f }) cid (record c { rob = set c.rob i rs1 }))

unfoldable pub write_back_lsq : Machine → ℕ → ℕ → Outcome Machine
unfolding write_back
write_back_lsq m cid i = do
  c ← read m.contexts cid
  rs ← read c.lsq i
  (f, rs1) ← write_back m.regs m.sim_cycle rs
  ok (put_context (record m { regs = f }) cid (record c { lsq = set c.lsq i rs1 }))

-- DCRA_int_rf-- or DCRA_fp_rf--: the counters are unsigned, so the assertion `>= 0` always holds
abbrev pub uncount_dcra : RegType → Context → Context
uncount_dcra reg_int c = record c { dcra_int_rf = (c.dcra_int_rf + 2 ^ 32 - 1) % 2 ^ 32 }
uncount_dcra _ c = record c { dcra_fp_rf = (c.dcra_fp_rf + 2 ^ 32 - 1) % 2 ^ 32 }

-- the old mapping of a renamed entry; -1 is no index of the register file
abbrev pub old_mapping : Option ℕ → Outcome ℕ
old_mapping none = fault
old_mapping (some i) = ok i

-- handle register deallocations
release_registers : Machine → ℕ → Context → RobEntry → Option ℕ → Outcome (Machine × Context)
unfolding move_state reg_counter_decref_if_positive
release_registers m cid c rs none = ok (m, c)
release_registers m cid c rs (some new) = do
  old ← old_mapping rs.old_physreg
  f1 ← move_state is_arch reg_free m.regs old rs.dest_format
  m1 ← reg_counter_decref_if_positive (record m { regs = f1 }) cid
  f2 ← move_state is_wb reg_arch m1.regs new rs.dest_format
  ok (record m1 { regs = f2 }, uncount_dcra rs.dest_format c)

abbrev pub pop_rob : Context → Context
pop_rob c = record c { rob_head = advance c.rob_head (length c.rob); rob_num = c.rob_num - 1 }

abbrev pub pop_lsq : Context → Context
pop_lsq c = record c { lsq_head = advance c.lsq_head (length c.lsq); lsq_num = c.lsq_num - 1 }

abbrev same_context : Option ℕ → Option ℕ → Bool
same_context none none = true
same_context (some a) (some b) = a == b
same_context _ _ = false

-- The LSQ part of commit for an address computation at the head of the ROB: `none` if the load or
-- store has not completed, and the panic if the queues are out of step. `port` says whether a store
-- found a free port and a place in the write buffer.
retire_lsq : Context → RobEntry → Bool → Outcome (Option Context)
retire_lsq c rs port =
    if rs.ea_comp
    then (do
      assert (ltb 0 c.lsq_num)
      l ← read c.lsq c.lsq_head
      assert l.in_lsq
      if not l.completed then ok none else (do
        assert (same_context rs.context_id l.context_id)
        ok (if is_store l.op && not port then none else some (pop_lsq c))))
    else ok (some c)

-- what a try to commit from one thread does
pub data Committed : Type 0 where
  waits : Committed
  commits : Machine → Committed

retire : Machine → ℕ → RobEntry → Option Context → Outcome Committed
unfolding release_registers
retire m cid rs none = ok waits
retire m cid rs (some c) = do
  (m1, c1) ← release_registers m cid c rs rs.physreg
  ok (commits (put_context m1 cid (pop_rob c1)))

-- one turn of commit's loop for thread `cid`
unfoldable pub commit_one : Machine → ℕ → Bool → Outcome Committed
unfolding retire retire_lsq
commit_one m cid port = do
  c ← read m.contexts cid
  if c.rob_num == 0 then ok waits else (do
    rs ← read c.rob c.rob_head
    if not rs.completed then ok waits else (do next ← retire_lsq c rs port; retire m cid rs next))
