-- ===== src/RegFile/Physical.antt =====
-- The physical registers of regrename.h and regrename.c. `unsigned` and `int` sizes are below 2^31,
-- so the search's index does not wrap.
pub mod Alloc
use smt_register_capping.Base.{
  ℕ, ◌-◌, ◌^◌, Bool, true, false, List, ◌++◌, Option, none, some, Outcome, ok, fault, ◌>>=◌, ◌>>◌,
  assert, read, length, set, take, replicate, find_index,
}
use smt_register_capping.Isa.Opcode.{Opcode, RegType, reg_int}
use smt_register_capping.RegFile.RegSet.{get_reg_set}

-- enum reg_state
pub data RegState : Type 0 where
  reg_free reg_alloc reg_wb reg_arch : RegState

-- class physreg_t; ticks are long long values
pub record PhysReg : Type 0 where
  pub state : RegState
  pub ready : ℕ
  pub spec_ready : ℕ
  pub alloc_cycle : ℕ

-- physreg_t::physreg_t
abbrev pub fresh_physreg : PhysReg
fresh_physreg = record { state = reg_free; ready = 0; spec_ready = 0; alloc_cycle = 0 }

-- `__LONG_LONG_MAX__`: an operand that is never ready
abbrev pub never : ℕ
never = 2 ^ 63 - 1

abbrev pub is_free : PhysReg → Bool
is_free r = elim r.state [ reg_free ↦ true | _ ↦ false ]

abbrev pub is_alloc : PhysReg → Bool
is_alloc r = elim r.state [ reg_alloc ↦ true | _ ↦ false ]

abbrev pub is_wb : PhysReg → Bool
is_wb r = elim r.state [ reg_wb ↦ true | _ ↦ false ]

abbrev pub is_arch : PhysReg → Bool
is_arch r = elim r.state [ reg_arch ↦ true | _ ↦ false ]

-- class reg_file_t, with the vectors of its two physical_reg_file objects
pub record RegFile : Type 0 where
  pub intregs : List PhysReg
  pub fpregs : List PhysReg

-- physical_reg_file::resize, on the vector
resize_regs : List PhysReg → ℕ → List PhysReg
resize_regs regs n = take n regs ++ replicate (n - length regs) fresh_physreg

-- reg_file_t::resize
unfoldable resize : RegFile → ℕ → RegFile
unfolding resize_regs
resize f n = record { intregs = resize_regs f.intregs n; fpregs = resize_regs f.fpregs n }

-- reg_file_t::size
unfoldable pub size : RegFile → ℕ
size f = length f.intregs

-- physical_reg_file::find_free_physreg; `none` is the result -1
find_free_in : List PhysReg → Option ℕ
find_free_in regs = find_index is_free regs

-- the vector that a register type selects: any type but REG_INT takes the floating-point one
abbrev pub bank : RegFile → RegType → List PhysReg
bank f reg_int = f.intregs
bank f _ = f.fpregs

abbrev with_bank : RegFile → RegType → List PhysReg → RegFile
with_bank f reg_int regs = record f { intregs = regs }
with_bank f _ regs = record f { fpregs = regs }

-- reg_file_t::find_free_physreg
unfoldable pub find_free_physreg : RegFile → RegType → Option ℕ
unfolding find_free_in
find_free_physreg f t = find_free_in (bank f t)

-- reg_file_t::reg_file_access, for a read and for a write through the reference
unfoldable pub access : RegFile → ℕ → RegType → Outcome PhysReg
access f i t = read (bank f t) i

unfoldable pub write_reg : RegFile → ℕ → RegType → PhysReg → RegFile
write_reg f i t r = with_bank f t (set (bank f t) i r)

-- what alloc_physreg returns: the new register and the old mapping (`physreg` and `old_physreg` of
-- the ROB entry), the files and the rename table
pub record Renaming : Type 0 where
  pub physreg : ℕ
  pub old_physreg : ℕ
  pub regs : RegFile
  pub rename_table : List ℕ

abbrev or_fault {ℓ} : {A : Type ℓ} → Option A → Outcome A
or_fault none = fault
or_fault (some a) = ok a

-- reg_file_t::alloc_physreg, for a ROB entry with opcode `op` and destination `archreg`
unfoldable pub alloc_physreg : RegFile → Opcode → ℕ → ℕ → List ℕ → Outcome Renaming
unfolding find_free_physreg access write_reg
alloc_physreg f op archreg sim_cycle rename_table = do
  let t = (get_reg_set op).dest
  old ← read rename_table archreg
  i ← or_fault (find_free_physreg f t)
  target ← access f i t
  assert (is_free target)
  let taken : PhysReg = record {
    state = reg_alloc;
    ready = never;
    spec_ready = never;
    alloc_cycle = sim_cycle;
  }
  ok (record {
    physreg = i;
    old_physreg = old;
    regs = write_reg f i t taken;
    rename_table = set rename_table archreg i;
  })
