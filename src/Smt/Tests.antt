-- ===== src/Smt/Tests.antt =====
-- A machine with one thread, on which the pipeline's theorems are tried.
mod Owned
use smt_register_capping.Base.{
  ◌≢◌, set, none, some, ℕ, zero, suc, ◌+◌, ◌^◌, ◌*◌, ◌≤◌, ◌<◌, ◌≡◌, refl, true, false, List, [],
  ◌∷◌, ◌++◌, ok, arith, replicate, count_if,
}
use smt_register_capping.Isa.Opcode.{Opcode, reg_none, reg_int}
use smt_register_capping.Isa.Decode.{in1, in2, out1}
use smt_register_capping.Isa.Operands.{operands}
use smt_register_capping.Isa.Flags.{is_trap, is_mem, has_store_flag}
use smt_register_capping.Isa.Units.{needs_unit}
use smt_register_capping.RegFile.RegSet.{get_reg_set}
use smt_register_capping.RegFile.Physical.{
  find_free_physreg, size, alloc_physreg, PhysReg, fresh_physreg, reg_arch, reg_alloc, reg_wb,
  never,
}
use smt_register_capping.Smt.State.{RobEntry, empty_entry, Context, Machine, rob_entries}
use smt_register_capping.Smt.Cap.{is_none, reset_counters, reg_counter_incref, rename_reg_limit}
use smt_register_capping.Smt.Rename.{Executed, stalled, renamed, rename_inst}
use smt_register_capping.Smt.Commit.{write_back_rob, commits, commit_one}
use smt_register_capping.Smt.Issue.{EntryStep, enqueue, select, step_rob}
use smt_register_capping.Smt.Invariant.{Fits, IsCapped, is_renamed, thread, counter}
use smt_register_capping.Smt.Rename.Capped.{rename_inst-IsCapped}
use smt_register_capping.Smt.Rename.Held.{Held, no_free}
use smt_register_capping.Smt.Rename.Stall.{rename_inst-stalls}
use smt_register_capping.Smt.Waiting.{
  is_waiting, not_dispatched_count, not_dispatched_count-rob_entries,
}
use smt_register_capping.Smt.Issue.Kept.{step_rob-IsCapped}
use smt_register_capping.Smt.Writeback.{write_back_rob-IsCapped}
use smt_register_capping.Smt.Commit.Capped.{commit_one-IsCapped}
use smt_register_capping.Smt.Run.{
  Reach, IsIdle, start, start-IsCapped, Reach-IsCapped, Reach-capped, here, next, renames,
  schedules, completes, retires, ticks,
}

abbrev count_up : ℕ → ℕ → List ℕ
count_up i zero = []
count_up i (suc n) = i ∷ count_up (suc i) n

abbrev arch_physreg : PhysReg
arch_physreg = record fresh_physreg { state = reg_arch }

abbrev int_regs : List PhysReg
int_regs = replicate 32 arch_physreg ++ replicate 8 fresh_physreg

abbrev regs : List PhysReg
regs = replicate 33 arch_physreg ++ replicate 7 fresh_physreg

abbrev pub idle : Context
idle = record {
  rename_table = count_up 0 32 ++ count_up 0 37;
  rob = replicate 4 empty_entry;
  rob_head = 0;
  rob_tail = 0;
  rob_num = 0;
  lsq = replicate 2 empty_entry;
  lsq_head = 0;
  lsq_tail = 0;
  lsq_num = 0;
  dcra_int_rf = 0;
  dcra_fp_rf = 0;
}

abbrev pub boot : Machine
boot = record {
  contexts = idle ∷ [];
  num_contexts = 1;
  reg_counter = 7 ∷ 7 ∷ 7 ∷ 7 ∷ [];
  regs = record { intregs = int_regs; fpregs = regs };
  sim_cycle = 5;
  inst_seq = 0;
}

-- addq r1, r2, r3
abbrev add : Executed
add = record {
  op = Opcode.addq;
  inst = 2 ^ 21 + 2 * 2 ^ 16 + 3;
  pc = 4096;
  npc = 4100;
  pred_pc = 4100;
  addr = 0;
  spec_mode = false;
}

abbrev one_cycle : EntryStep
one_cycle = select true (record { exec_lat = 1; spec_lat = 1; issue_exec_delay = 1 })

-- the entry of the instruction, which gets integer register 32 in place of 28
abbrev added : RobEntry
added = record empty_entry {
  op = Opcode.addq;
  pc = 4096;
  next_pc = 4100;
  pred_pc = 4100;
  lsq_index = none;
  seq = 1;
  context_id = some 0;
  rename_cycle = some 5;
  physreg = some 32;
  old_physreg = some 28;
  src_physreg0 = some 30;
  src_physreg1 = some 29;
  dest_format = reg_int;
  archreg = 28;
  src_archreg0 = 30;
  src_archreg1 = 29;
  regs_index = some 3;
}

-- the machine with the entry in the ROB, a state of register 32, and the cycle
abbrev running : RobEntry → PhysReg → ℕ → Machine
running e r cycle = record boot {
  contexts =
      record idle {
        rename_table = set (count_up 0 32 ++ count_up 0 37) 28 32;
        rob = e ∷ replicate 3 empty_entry;
        rob_tail = 1;
        rob_num = 1;
        dcra_int_rf = 1;
      }
      ∷ [];
  reg_counter = 1 ∷ 7 ∷ 7 ∷ 7 ∷ [];
  regs = record { intregs = set int_regs 32 r; fpregs = regs };
  sim_cycle = cycle;
  inst_seq = 1;
}

abbrev waiting : PhysReg
waiting = record { state = reg_alloc; ready = never; spec_ready = never; alloc_cycle = 5 }

abbrev due : PhysReg
due = record waiting { ready = 7; spec_ready = 6 }

-- renamed, in the ready queue, issued, and two cycles later complete
abbrev first : Machine
first = running added waiting 5

abbrev queued : Machine
queued = running (record added { queued = true }) waiting 5

abbrev issued : Machine
issued = running (record added { issued = true }) due 5

abbrev pub written : Machine
written =
    running (record added { issued = true; completed = true }) (record due { state = reg_wb }) 7

abbrev pub retired : Machine
retired = record written {
  contexts =
      record idle {
        rename_table = set (count_up 0 32 ++ count_up 0 37) 28 32;
        rob = record added { issued = true; completed = true } ∷ replicate 3 empty_entry;
        rob_head = 1;
        rob_tail = 1;
      }
      ∷ [];
  reg_counter = 0 ∷ 7 ∷ 7 ∷ 7 ∷ [];
  regs = record {
    intregs = set (set int_regs 32 (record due { state = reg_arch })) 28 fresh_physreg;
    fpregs = regs;
  };
}

pub boot-Fits : Fits boot
boot-Fits = record { threads = refl; counters = refl; few = omega arith }

idle-IsIdle : IsIdle idle
idle-IsIdle = record {
  rings = record {
    rob_ring = record { head_in = omega arith; num_in = omega arith; tail_at = refl };
    lsq_ring = record { head_in = omega arith; num_in = omega arith; tail_at = refl };
  };
  empty = refl;
  no_int = refl;
  no_fp = refl;
}

pub boot-IsIdle : (j : ℕ) → j < 1 → IsIdle (thread boot j)
boot-IsIdle zero lt = idle-IsIdle
boot-IsIdle (suc j) lt = absurd (omega arith)

renames_first : rename_inst (start boot) 0 add ≡ ok (renamed first)
unfolding rename_inst get_reg_set reset_counters find_free_physreg is_trap is_mem in1 in2 out1
    operands size alloc_physreg reg_counter_incref
renames_first = refl

retires_it : commit_one written 0 true ≡ ok (commits retired)
unfolding commit_one
retires_it = refl

queues_it : step_rob enqueue first 0 0 ≡ ok queued
unfolding step_rob get_reg_set
queues_it = refl

issues_it : step_rob one_cycle queued 0 0 ≡ ok issued
unfolding step_rob get_reg_set has_store_flag needs_unit
issues_it = refl

completes_it : write_back_rob (record issued { sim_cycle = 7 }) 0 0 ≡ ok written
unfolding write_back_rob get_reg_set
completes_it = refl

to_first : Reach (start boot) first
to_first = next here (renames 0 add (omega arith) renames_first)

pub to_written : Reach (start boot) written
to_written =
    next
      (next
        (next (next to_first (schedules enqueue 0 0 (omega arith) queues_it))
          (schedules one_cycle 0 0 (omega arith) issues_it))
        (ticks 7))
      (completes 0 0 (omega arith) completes_it)

pub to_retired : Reach (start boot) retired
to_retired = next to_written (retires 0 true (omega arith) retires_it)

Reach-capped_example :
    (count_if is_renamed (rob_entries (thread retired 0)) ≤ rename_reg_limit)
    × (counter retired 0 ≡ count_if is_renamed (rob_entries (thread retired 0)))
    × ((thread retired 0).dcra_int_rf + (thread retired 0).dcra_fp_rf ≡ counter retired 0)
Reach-capped_example = Reach-capped boot retired 0 boot-Fits boot-IsIdle to_retired (omega arith)

boot-IsCapped : IsCapped (start boot)
boot-IsCapped = start-IsCapped boot boot-Fits boot-IsIdle

rename_inst-IsCapped_example : IsCapped first
rename_inst-IsCapped_example =
    rename_inst-IsCapped (start boot) 0 add (omega arith) boot-IsCapped renames_first

commit_one-IsCapped_example : IsCapped retired
commit_one-IsCapped_example =
    commit_one-IsCapped written 0 true (omega arith) (Reach-IsCapped to_written boot-IsCapped)
      retires_it

to_queued : Reach (start boot) queued
to_queued = next to_first (schedules enqueue 0 0 (omega arith) queues_it)

-- a machine without a free integer register
abbrev spent : Machine
spent = record boot { regs = record { intregs = replicate 40 arch_physreg; fpregs = regs } }

spent-IsCapped : IsCapped (start spent)
spent-IsCapped =
    start-IsCapped spent (record { threads = refl; counters = refl; few = omega arith }) boot-IsIdle

add-dest : (get_reg_set add.op).dest ≢ reg_none
unfolding get_reg_set
add-dest e = cc

spent-Held : Held (start spent) 0 add
unfolding get_reg_set
spent-Held = no_free add-dest refl

spent_stalls : rename_inst (start spent) 0 add ≡ ok stalled
spent_stalls = (rename_inst-stalls (start spent) 0 add (omega arith) spent-IsCapped).1 spent-Held

not_dispatched_count-rob_entries_example :
    not_dispatched_count (thread first 0) ≡ ok (count_if is_waiting (rob_entries (thread first 0)))
not_dispatched_count-rob_entries_example =
    not_dispatched_count-rob_entries (thread first 0) (omega arith)
