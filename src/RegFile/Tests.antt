-- ===== src/RegFile/Tests.antt =====
-- Two opcodes on which get_reg_set and machine.def differ, and an allocation.
use smt_register_capping.Base.{◌≡◌, refl, not, [], ◌∷◌, ok}
use smt_register_capping.Isa.Opcode.{Opcode}
use smt_register_capping.RegFile.RegSet.{get_reg_set}
use smt_register_capping.RegFile.RegSet.Agreement.{
  registers_agree, memory_agrees, misses_register, misses_memory, get_reg_set-operands,
}
use smt_register_capping.RegFile.Physical.{
  RegFile, Renaming, fresh_physreg, reg_arch, alloc_physreg,
}
use smt_register_capping.RegFile.Physical.Alloc.{taken}

get_reg_set-operands_example :
    (registers_agree Opcode.mf_fpcr ≡ not (misses_register Opcode.mf_fpcr))
    × (memory_agrees Opcode.mf_fpcr ≡ not (misses_memory Opcode.mf_fpcr))
get_reg_set-operands_example = get_reg_set-operands Opcode.mf_fpcr

abbrev file : RegFile
file = record {
  intregs = record fresh_physreg { state = reg_arch } ∷ fresh_physreg ∷ [];
  fpregs = [];
}

abbrev renaming : Renaming
renaming = record {
  physreg = 1;
  old_physreg = 0;
  regs = record { intregs = record fresh_physreg { state = reg_arch } ∷ taken 3 ∷ []; fpregs = [] };
  rename_table = 1 ∷ [];
}

allocates : alloc_physreg file Opcode.addq 0 3 (0 ∷ []) ≡ ok renaming
unfolding alloc_physreg get_reg_set
allocates = refl
