-- ===== src/Smt/Operands.antt =====
-- operand_ready, operand_spec_ready and the two all_operands tests of sim-outorder.c.
use smt_register_capping.Base.{
  ℕ, Bool, true, false, leb, if◌then◌else◌, Option, none, some, Outcome, ok, ◌>>=◌,
}
use smt_register_capping.Isa.Opcode.{RegType, reg_none}
use smt_register_capping.RegFile.RegSet.{get_reg_set}
use smt_register_capping.RegFile.Physical.{RegFile, PhysReg, access}
use smt_register_capping.Smt.State.{RobEntry}

-- operand_ready and operand_spec_ready, with the field of the register that they read
abbrev pub operand_due : (PhysReg → ℕ) → RegFile → ℕ → Option ℕ → RegType → Outcome Bool
unfolding access
operand_due when f cycle none t = ok true
operand_due when f cycle (some i) reg_none = ok true
operand_due when f cycle (some i) t = do r ← access f i t; ok (leb (when r) cycle)

-- all_operands_ready and all_operands_spec_ready: an address computation needs its second operand
abbrev all_operands_due : (PhysReg → ℕ) → RegFile → ℕ → RobEntry → Outcome Bool
all_operands_due when f cycle rs =
    let second = operand_due when f cycle rs.src_physreg1 (get_reg_set rs.op).src2 in
    if rs.ea_comp then second else (do
      first ← operand_due when f cycle rs.src_physreg0 (get_reg_set rs.op).src1
      if first then second else ok false)

abbrev pub all_operands_ready : RegFile → ℕ → RobEntry → Outcome Bool
all_operands_ready f cycle rs = all_operands_due (λ r. r.ready) f cycle rs

abbrev pub all_operands_spec_ready : RegFile → ℕ → RobEntry → Outcome Bool
all_operands_spec_ready f cycle rs = all_operands_due (λ r. r.spec_ready) f cycle rs
