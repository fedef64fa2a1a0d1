-- ===== src/Isa/Decode.antt =====
-- The register numbers of a decoded instruction: the fields of machine.h, and the names DNA,
-- DGPR(N), DFPR(N), DFPCR and DUNIQ of sim-outorder.c, for the operands of machine.def.
use smt_register_capping.Base.{ℕ, ◌-◌, ◌/◌, ◌%◌, ◌^◌, ◌<◌, arith}
use smt_register_capping.Isa.Opcode.{Opcode}
use smt_register_capping.Isa.Operands.{
  Field, ra, rb, rc, fixed, Operand, dna, fpcr, uniq, gpr, fpr, operands,
}

-- RA, RB and RC of machine.h
abbrev pub field : Field → ℕ → ℕ
field ra inst = inst / 2 ^ 21 % 32
field rb inst = inst / 2 ^ 16 % 32
field rc inst = inst % 32
field (fixed n) inst = n

abbrev register : Operand → ℕ → ℕ
register dna inst = 0
register (gpr f) inst = 31 - field f inst
register (fpr f) inst = 63 - field f inst
register fpcr inst = 64
register uniq inst = 65

unfoldable pub out1 : Opcode → ℕ → ℕ
out1 op inst = register (operands op).out1 inst

unfoldable pub in1 : Opcode → ℕ → ℕ
in1 op inst = register (operands op).in1 inst

unfoldable pub in2 : Opcode → ℕ → ℕ
in2 op inst = register (operands op).in2 inst

-- every register number is below MD_TOTAL_REGS
register_lt : (o : Operand) (inst : ℕ) → register o inst < 66
register_lt dna inst = omega arith
register_lt fpcr inst = omega arith
register_lt uniq inst = omega arith
register_lt (gpr f) inst = omega arith
register_lt (fpr f) inst = omega arith

pub out1-lt : (op : Opcode) (inst : ℕ) → out1 op inst < 66
unfolding out1
out1-lt op inst = register_lt (operands op).out1 inst

pub in1-lt : (op : Opcode) (inst : ℕ) → in1 op inst < 66
unfolding in1
in1-lt op inst = register_lt (operands op).in1 inst

pub in2-lt : (op : Opcode) (inst : ℕ) → in2 op inst < 66
unfolding in2
in2-lt op inst = register_lt (operands op).in2 inst
