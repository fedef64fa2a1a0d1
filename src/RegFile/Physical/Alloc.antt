-- ===== src/RegFile/Physical/Alloc.antt =====
-- What a successful allocation of a physical register has done.
use smt_register_capping.Base.{
  ℕ, ◌≡◌, ◌<◌, refl, List, some, ok, read, set, arith, length, get_or, read_of_lt, find_index-some,
}
use smt_register_capping.Isa.Opcode.{Opcode, RegType}
use smt_register_capping.RegFile.RegSet.{get_reg_set}
use smt_register_capping.RegFile.Physical.{
  bank, is_free, fresh_physreg, PhysReg, reg_alloc, RegFile, Renaming, never, find_free_physreg,
  write_reg, alloc_physreg,
}

-- the register as the allocation leaves it
abbrev pub taken : ℕ → PhysReg
taken cycle = record { state = reg_alloc; ready = never; spec_ready = never; alloc_cycle = cycle }

pub record Allocates (f : RegFile) (t : RegType) (a cycle : ℕ) (table : List ℕ) (r : Renaming)
    : Type 0 where
  pub free : find_free_physreg f t ≡ some r.physreg
  pub old : read table a ≡ ok r.old_physreg
  pub regs : r.regs ≡ write_reg f r.physreg t (taken cycle)
  pub mapped : r.rename_table ≡ set table a r.physreg

-- An allocation that does not abort takes the first free register in the file of the destination,
-- marks it as allocated and ready at no cycle, returns the old mapping of the architectural
-- register, and maps that to the new one.
pub alloc_physreg-Allocates :
    (f : RegFile) (op : Opcode) (a cycle : ℕ) (table : List ℕ) {r : Renaming}
    → alloc_physreg f op a cycle table ≡ ok r
    → Allocates f (get_reg_set op).dest a cycle table r
unfolding alloc_physreg
alloc_physreg-Allocates f op a cycle table h = ground arith

-- An allocation does not abort if the file of the destination has a free register and the table has
-- the architectural one.
pub alloc_physreg-total :
    (f : RegFile) (op : Opcode) (a cycle : ℕ) (table : List ℕ) (i : ℕ)
    → find_free_physreg f (get_reg_set op).dest ≡ some i
    → a < length table
    → (r : Renaming) × (alloc_physreg f op a cycle table ≡ ok r)
unfolding alloc_physreg find_free_physreg
alloc_physreg-total f op a cycle table i found lt =
    let regs = bank f (get_reg_set op).dest in
    let (inside, is_free_there) = find_index-some is_free regs i fresh_physreg found in
    let old = read_of_lt table a 0 lt in
    let target = read_of_lt regs i fresh_physreg inside in
    let r : Renaming = record {
      physreg = i;
      old_physreg = get_or table a 0;
      regs = write_reg f i (get_reg_set op).dest (taken cycle);
      rename_table = set table a i;
    } in
    (r, rw old (rw found (rw target (rw is_free_there refl))))
