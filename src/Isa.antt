-- ===== src/Isa.antt =====
-- The instruction set tables of machine.def and machine.h that the pipeline reads.
pub mod Opcode
pub mod Operands
pub mod Flags
pub mod Decode
pub mod Units
