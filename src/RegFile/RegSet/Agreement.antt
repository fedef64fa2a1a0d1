-- ===== src/RegFile/RegSet/Agreement.antt =====
-- `get_reg_set` against the operand table and the flags of machine.def.
use smt_register_capping.Base.{◌≡◌, refl, Bool, true, false, ◌&&◌, not, ◌==◌}
use smt_register_capping.Isa.Opcode.{Opcode, RegType, reg_none, reg_int, reg_fp}
use smt_register_capping.Isa.Operands.{Operand, dna, fpcr, uniq, gpr, fpr, operands}
use smt_register_capping.Isa.Flags.{flags, is_load_flag, is_store_flag, any_flag}
use smt_register_capping.RegFile.RegSet.{get_reg_set}

-- the register file of an operand; DUNIQ is in neither
abbrev type_of : Operand → RegType
type_of dna = reg_none
type_of uniq = reg_none
type_of fpcr = reg_fp
type_of (gpr f) = reg_int
type_of (fpr f) = reg_fp

abbrev same_type : RegType → RegType → Bool
same_type reg_none reg_none = true
same_type reg_int reg_int = true
same_type reg_fp reg_fp = true
same_type _ _ = false

abbrev agrees : Bool → Bool → Bool
agrees true b = b
agrees false b = not b

-- dest, src1 and src2 are the register files of the operands O1, I1 and I2
pub registers_agree : Opcode → Bool
registers_agree op =
    same_type (get_reg_set op).dest (type_of (operands op).out1)
    && (same_type (get_reg_set op).src1 (type_of (operands op).in1)
        && same_type (get_reg_set op).src2 (type_of (operands op).in2))

-- load and store are 1 for exactly the opcodes with F_LOAD and F_STORE
pub memory_agrees : Opcode → Bool
memory_agrees op =
    agrees ((get_reg_set op).load == 1) (any_flag is_load_flag (flags op))
    && agrees ((get_reg_set op).store == 1) (any_flag is_store_flag (flags op))

abbrev pub misses_register : Opcode → Bool
misses_register Opcode.pal_wrent = true
misses_register Opcode.pal_wrkgp = true
misses_register Opcode.mt_fpcr = true
misses_register Opcode.mf_fpcr = true
misses_register _ = false

abbrev pub misses_memory : Opcode → Bool
misses_memory Opcode.lda = true
misses_memory Opcode.ldah = true
misses_memory Opcode.sts = true
misses_memory Opcode.stt = true
misses_memory _ = false

-- For every opcode, `get_reg_set` gives the register files of the operands that machine.def
-- declares, except for PAL_WRENT, PAL_WRKGP, MT_FPCR and MF_FPCR, where it does not; and its load
-- and store marks are those of the flags, except for LDA, LDAH, STS and STT, where they are not.
pub get_reg_set-operands :
    (op : Opcode)
    → (registers_agree op ≡ not (misses_register op)) × (memory_agrees op ≡ not (misses_memory op))
unfolding registers_agree memory_agrees get_reg_set operands flags
get_reg_set-operands Opcode.op_na = (refl, refl)
get_reg_set-operands _ = (refl, refl)
