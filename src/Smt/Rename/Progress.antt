-- ===== src/Smt/Rename/Progress.antt =====
-- When register_rename renames an instruction.
use smt_register_capping.Base.{
  ℕ, ◌<◌, ◌≤◌, ◌≡◌, ◌≢◌, refl, false, ◌&&◌, not, ◌==◌, inl, inr, some, ok, fault, length, ◌⊎◌,
}
use smt_register_capping.Isa.Opcode.{RegType, reg_none, reg_int, reg_fp}
use smt_register_capping.Isa.Decode.{out1}
use smt_register_capping.Isa.Flags.{is_trap}
use smt_register_capping.RegFile.RegSet.{get_reg_set}
use smt_register_capping.RegFile.Physical.{size, find_free_physreg}
use smt_register_capping.Smt.State.{Machine}
use smt_register_capping.Smt.Cap.{must_stall, rename_reg_limit}
use smt_register_capping.Smt.Rename.{Executed, queues_full, effective, is_nop, dest_index}
use smt_register_capping.Smt.Invariant.{thread}

-- what the register files and the rename table of the thread must have
pub record Ready (m : Machine) (cid : ℕ) (x : Executed) : Type 0 where
  pub room : queues_full (thread m cid) ≡ false
  pub granted : must_stall m cid x.op ≡ ok false
  pub no_trap : (is_trap x.op && not ((thread m cid).rob_num == 0)) ≡ false
  pub no_nop : is_nop (effective x.op) ≡ false
  pub mapped : 66 ≤ length (thread m cid).rename_table
  pub files : rename_reg_limit ≤ size m.regs
  pub numbered : dest_index (get_reg_set x.op).dest x.inst (out1 x.op x.inst) ≢ fault

pub is_destination : (t : RegType) → (t ≡ reg_none) ⊎ (t ≢ reg_none)
is_destination reg_none = inl refl
is_destination reg_int = inr (λ e. cc)
is_destination reg_fp = inr (λ e. cc)

-- what a destination needs
record Granted (m : Machine) (t : RegType) (n : ℕ) : Type 0 where
  pub below : t ≢ reg_none → n < rename_reg_limit
  pub free : t ≢ reg_none → (i : ℕ) × (find_free_physreg m.regs t ≡ some i)
