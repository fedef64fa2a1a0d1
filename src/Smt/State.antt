-- ===== src/Smt/State.antt =====
-- The state that rename, writeback and commit share: ROB_entry (rob.h, rob.c), the context of smt.h,
-- and the globals of sim-outorder.c with the register file of the core. One core is modelled, with
-- the contexts that run on it. A field that only statistics, power estimates, traces, the branch
-- predictor update or the rollback of values read is left out.
use smt_register_capping.Base.{ℕ, Bool, false, List, Option, none, some, length, set}
use smt_register_capping.Isa.Opcode.{Opcode, RegType, reg_none}
use smt_register_capping.RegFile.Physical.{RegFile}
use smt_register_capping.Smt.Ring.{window}

-- class ROB_entry; `none` is the number -1
pub record RobEntry : Type 0 where
  pub op : Opcode
  pub pc : ℕ
  pub next_pc : ℕ
  pub pred_pc : ℕ
  pub in_lsq : Bool
  pub lsq_index : Option ℕ
  pub ea_comp : Bool
  pub recover_inst : Bool
  pub spec_mode : Bool
  pub addr : ℕ
  pub seq : ℕ
  pub dispatched : Bool
  pub queued : Bool
  pub issued : Bool
  pub completed : Bool
  pub replayed : Bool
  pub context_id : Option ℕ
  pub iq_entry_num : Option ℕ
  pub in_iq : Bool
  pub rename_cycle : Option ℕ
  pub physreg : Option ℕ
  pub old_physreg : Option ℕ
  pub src_physreg0 : Option ℕ
  pub src_physreg1 : Option ℕ
  pub dest_format : RegType
  pub archreg : ℕ
  pub src_archreg0 : ℕ
  pub src_archreg1 : ℕ
  pub regs_index : Option ℕ
  pub is_store : Bool

-- ROB_entry::ROB_entry
abbrev pub empty_entry : RobEntry
empty_entry = record {
  op = Opcode.op_na;
  pc = 0;
  next_pc = 0;
  pred_pc = 0;
  in_lsq = false;
  lsq_index = some 0;
  ea_comp = false;
  recover_inst = false;
  spec_mode = false;
  addr = 0;
  seq = 0;
  dispatched = false;
  queued = false;
  issued = false;
  completed = false;
  replayed = false;
  context_id = none;
  iq_entry_num = none;
  in_iq = false;
  rename_cycle = none;
  physreg = none;
  old_physreg = none;
  src_physreg0 = none;
  src_physreg1 = none;
  dest_format = reg_none;
  archreg = 0;
  src_archreg0 = 0;
  src_archreg1 = 0;
  regs_index = some 0;
  is_store = false;
}

-- class context: the rename table, the ROB and the LSQ as circular queues, and the counters
pub record Context : Type 0 where
  pub rename_table : List ℕ
  pub rob : List RobEntry
  pub rob_head : ℕ
  pub rob_tail : ℕ
  pub rob_num : ℕ
  pub lsq : List RobEntry
  pub lsq_head : ℕ
  pub lsq_tail : ℕ
  pub lsq_num : ℕ
  pub dcra_int_rf : ℕ
  pub dcra_fp_rf : ℕ

-- contexts, num_contexts, reg_counter, sim_cycle and inst_seq, and the core's reg_file
pub record Machine : Type 0 where
  pub contexts : List Context
  pub num_contexts : ℕ
  pub reg_counter : List ℕ
  pub regs : RegFile
  pub sim_cycle : ℕ
  pub inst_seq : ℕ

-- the entries of the ROB and of the LSQ in program order, oldest first
abbrev pub rob_entries : Context → List RobEntry
rob_entries c = window empty_entry (length c.rob) c.rob c.rob_head c.rob_num

abbrev pub lsq_entries : Context → List RobEntry
lsq_entries c = window empty_entry (length c.lsq) c.lsq c.lsq_head c.lsq_num

abbrev pub put_context : Machine → ℕ → Context → Machine
put_context m cid c = record m { contexts = set m.contexts cid c }
