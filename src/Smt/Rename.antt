-- ===== src/Smt/Rename.antt =====
-- register_rename of sim-outorder.c, for one instruction that a thread has fetched and that the
-- functional simulation has executed: the tests that need a free slot and a register, the new ROB
-- and LSQ entries, and the renaming of the destination. The choice of the thread, the instruction
-- fetch queue, the execution itself and the branch recovery are not in this file.
pub mod Index
pub mod Effect
pub mod Steps
pub mod Capped
pub mod Held
pub mod Stall
pub mod Progress
use smt_register_capping.Base.{
  ℕ, ◌+◌, ◌-◌, ◌%◌, ◌^◌, Bool, true, false, ◌&&◌, ◌||◌, not, leb, ◌==◌, if◌then◌else◌, Option, none,
  some, Outcome, ok, ◌>>=◌, ◌>>◌, assert, read, length, set,
}
use smt_register_capping.Isa.Opcode.{Opcode, RegType, reg_none, reg_int}
use smt_register_capping.Isa.Operands.{ra, rb, rc}
use smt_register_capping.Isa.Decode.{field, out1, in1, in2}
use smt_register_capping.Isa.Flags.{is_mem, is_store, is_trap}
use smt_register_capping.RegFile.RegSet.{get_reg_set}
use smt_register_capping.RegFile.Physical.{size, alloc_physreg}
use smt_register_capping.Smt.Ring.{advance}
use smt_register_capping.Smt.State.{RobEntry, empty_entry, Context, Machine, put_context}
use smt_register_capping.Smt.Cap.{must_stall, reg_counter_incref}

-- What the fetch queue, the decoder and the execution of the instruction give.
pub record Executed : Type 0 where
  pub op : Opcode
  pub inst : ℕ
  pub pc : ℕ
  pub npc : ℕ
  pub pred_pc : ℕ
  pub addr : ℕ
  pub spec_mode : Bool

-- the `switch(op)` turns the decoder's own opcodes into no-ops before the entry is built
abbrev pub effective : Opcode → Opcode
effective Opcode.link = Opcode.op_na
effective Opcode.call_pal = Opcode.op_na
effective op = op

abbrev pub is_nop : Opcode → Bool
is_nop Opcode.op_na = true
is_nop _ = false

-- the ROB or the LSQ is full
abbrev pub queues_full : Context → Bool
queues_full c = leb (length c.rob) c.rob_num || leb (length c.lsq) c.lsq_num

-- DGPR(out1) and DFPR(out1) as register numbers; `none` is a negative result
abbrev gpr_index : ℕ → Option ℕ
gpr_index n = if leb n 31 then some (31 - n) else none

abbrev fpr_index : ℕ → Option ℕ
fpr_index n = if leb n 63 then some (63 - n) else none

abbrev same_index : Option ℕ → ℕ → Bool
same_index none n = false
same_index (some i) n = i == n

-- the search for regs_index among RA, RB and RC, with the assertion of the last case
in_fields : Option ℕ → ℕ → Outcome (Option ℕ)
in_fields index inst = do
  assert (
      same_index index (field ra inst)
      || same_index index (field rb inst)
      || same_index index (field rc inst))
  ok index

unfoldable pub dest_index : RegType → ℕ → ℕ → Outcome (Option ℕ)
unfolding in_fields
dest_index reg_int inst out = in_fields (gpr_index out) inst
dest_index _ inst out = do
  let index = fpr_index out
  let index' : Option ℕ =
      if not (same_index index (field ra inst))
        && not (same_index index (field rb inst))
        && out == 64
      then some (field rc inst)
      else index
  i ← in_fields index' inst
  ok (elim i [ none ↦ none | some k ↦ some (k + 32) ])

-- DCRA_int_rf++ or DCRA_fp_rf++, with its assertion
count_dcra : RegType → Context → ℕ → Outcome Context
count_dcra reg_int c limit = do
  let n = (c.dcra_int_rf + 1) % 2 ^ 32
  assert (leb n limit)
  ok (record c { dcra_int_rf = n })
count_dcra _ c limit = do
  let n = (c.dcra_fp_rf + 1) % 2 ^ 32
  assert (leb n limit)
  ok (record c { dcra_fp_rf = n })

-- the branch that allocates a physical register for the destination
pub rename_dest :
    RegType → Machine → ℕ → Context → Executed → RobEntry → Outcome (Machine × Context × RobEntry)
unfolding count_dcra dest_index
rename_dest reg_none m cid c x rs =
    ok (m, c, record rs { physreg = none; old_physreg = none; dest_format = reg_none })
rename_dest t m cid c x rs = do
  c1 ← count_dcra t c (size m.regs)
  index ← dest_index t x.inst rs.archreg
  r ← alloc_physreg m.regs rs.op rs.archreg m.sim_cycle c1.rename_table
  m1 ← reg_counter_incref (record m { regs = r.regs }) cid
  ok (
    m1,
    record c1 { rename_table = r.rename_table },
    record rs {
      physreg = some r.physreg;
      old_physreg = some r.old_physreg;
      dest_format = t;
      regs_index = index;
    },
  )

-- register 0 of either file is not renamed
pub rename_register :
    Machine → ℕ → Context → Executed → RobEntry → Outcome (Machine × Context × RobEntry)
unfolding rename_dest
rename_register m cid c x rs =
    if not (rs.archreg == 0) && not (rs.archreg == 32)
    then rename_dest (get_reg_set rs.op).dest m cid c x rs
    else ok (m, c, record rs { physreg = none; old_physreg = none; dest_format = reg_none })

abbrev next_seq : ℕ → ℕ
next_seq n = (n + 1) % 2 ^ 64

-- the ROB entry as it is filled in before the destination is renamed; what is not assigned keeps
-- the value that the slot held
pub new_entry : Machine → ℕ → Context → Executed → RobEntry → Outcome RobEntry
new_entry m cid c x slot = do
  src0 ← read c.rename_table (in1 x.op x.inst)
  src1 ← read c.rename_table (in2 x.op x.inst)
  ok (record slot {
    op = x.op;
    pc = x.pc;
    next_pc = x.npc;
    pred_pc = x.pred_pc;
    in_lsq = false;
    lsq_index = none;
    ea_comp = false;
    recover_inst = false;
    spec_mode = x.spec_mode;
    addr = 0;
    seq = next_seq m.inst_seq;
    dispatched = false;
    queued = false;
    issued = false;
    completed = false;
    replayed = false;
    context_id = some cid;
    iq_entry_num = none;
    in_iq = false;
    rename_cycle = some m.sim_cycle;
    archreg = out1 x.op x.inst;
    src_archreg0 = in1 x.op x.inst;
    src_archreg1 = in2 x.op x.inst;
    src_physreg0 = some src0;
    src_physreg1 = some src1;
    regs_index = none;
  })

-- the LSQ entry of a load or store, from the slot and the renamed ROB entry
lsq_entry : Executed → RobEntry → ℕ → RobEntry → RobEntry
lsq_entry x rs seq slot = record slot {
  op = x.op;
  pc = rs.pc;
  next_pc = rs.next_pc;
  pred_pc = rs.pred_pc;
  in_lsq = true;
  ea_comp = false;
  recover_inst = false;
  spec_mode = rs.spec_mode;
  addr = x.addr;
  seq = seq;
  dispatched = false;
  queued = false;
  issued = false;
  completed = false;
  replayed = false;
  context_id = rs.context_id;
  iq_entry_num = none;
  in_iq = false;
  rename_cycle = rs.rename_cycle;
  physreg = rs.physreg;
  old_physreg = none;
  src_physreg0 = rs.src_physreg0;
  src_physreg1 = rs.src_physreg1;
  dest_format = rs.dest_format;
  archreg = rs.archreg;
  src_archreg0 = rs.src_archreg0;
  src_archreg1 = rs.src_archreg1;
  is_store = is_store x.op;
}

abbrev pub push_rob : Context → RobEntry → Context
push_rob c rs = record c {
  rob = set c.rob c.rob_tail rs;
  rob_tail = advance c.rob_tail (length c.rob);
  rob_num = c.rob_num + 1;
}

abbrev pub push_lsq : Context → RobEntry → Context
push_lsq c e = record c {
  lsq = set c.lsq c.lsq_tail e;
  lsq_tail = advance c.lsq_tail (length c.lsq);
  lsq_num = c.lsq_num + 1;
}

-- a load or store becomes an address computation in the ROB, with an entry of its own in the LSQ
abbrev pub agen : RobEntry → ℕ → RobEntry
agen rs i = record rs { op = Opcode.addq; ea_comp = true; lsq_index = some i }

install : Machine → ℕ → Context → Executed → RobEntry → Outcome Machine
unfolding lsq_entry
install m cid c x rs =
    if is_mem x.op
    then (do
      slot ← read c.lsq c.lsq_tail
      let seq = next_seq (next_seq m.inst_seq)
      ok (
          put_context (record m { inst_seq = seq }) cid
            (push_lsq (push_rob c (agen rs c.lsq_tail)) (lsq_entry x rs seq slot))))
    else ok (put_context (record m { inst_seq = next_seq m.inst_seq }) cid (push_rob c rs))

-- what happens to the instruction
pub data Renamed : Type 0 where
  stalled : Renamed
  dropped : Renamed
  renamed : Machine → Renamed

-- the entry, the destination and the queues, for an instruction that is no no-op
rename_entry : Machine → ℕ → Context → Executed → Outcome Renamed
unfolding new_entry rename_register install
rename_entry m cid c x = do
  slot ← read c.rob c.rob_tail
  rs ← new_entry m cid c x slot
  (m1, c1, rs1) ← rename_register m cid c x rs
  m2 ← install m1 cid c1 x rs1
  ok (renamed m2)

-- the tests and the renaming of one instruction of thread `cid`. A trap waits for an empty ROB.
unfoldable pub rename_inst : Machine → ℕ → Executed → Outcome Renamed
unfolding rename_entry must_stall
rename_inst m cid x = do
  c ← read m.contexts cid
  if queues_full c then ok stalled else (do
    stall ← must_stall m cid x.op
    if stall || (is_trap x.op && not (c.rob_num == 0))
        then ok stalled
        else if is_nop (effective x.op)
        then ok dropped
        else rename_entry m cid c x)
