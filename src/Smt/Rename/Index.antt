-- ===== src/Smt/Rename/Index.antt =====
-- The search for regs_index, and the register file of the destination.
use smt_register_capping.Base.{
  ℕ, ◌<◌, ◌≡◌, ◌≢◌, refl, true, ◌||◌, ◌==◌, Option, none, some, ok, inl, inr, Bool-cases, >>=-elim,
  assert, arith,
}
use smt_register_capping.Isa.Opcode.{RegType, reg_none, reg_int, reg_fp}
use smt_register_capping.Isa.Operands.{ra, rb, rc}
use smt_register_capping.Isa.Decode.{field}
use smt_register_capping.Smt.Rename.{dest_index, gpr_index, fpr_index, in_fields}
use smt_register_capping.Smt.Owners.{in_file}

-- the search finds a number of five bits
in_fields-found :
    (index : Option ℕ) (inst : ℕ) {i : Option ℕ}
    → in_fields index inst ≡ ok i
    → (k : ℕ) × (index ≡ some k) × (k < 32)
unfolding in_fields
in_fields-found none inst h = absurd (ground arith)
in_fields-found (some k) inst h =
    >>=-elim (assert (k == field ra inst || k == field rb inst || k == field rc inst)) _ h
      λ _ e _. (k, refl, ground arith)

gpr_index-in_file : (out k : ℕ) → gpr_index out ≡ some k → in_file reg_int out ≡ true
gpr_index-in_file out k h = ground arith

fpr_index-in_file : (out k : ℕ) → fpr_index out ≡ some k → k < 32 → in_file reg_fp out ≡ true
fpr_index-in_file out k h lt = ground arith

pub dest_index-in_file :
    (t : RegType) (inst out : ℕ) {i : Option ℕ}
    → t ≢ reg_none
    → dest_index t inst out ≡ ok i
    → in_file t out ≡ true
unfolding dest_index
dest_index-in_file reg_none inst out ne h = absurd (ne refl)
dest_index-in_file reg_int inst out ne h =
    let (k, e, _) = in_fields-found (gpr_index out) inst h in gpr_index-in_file out k e
dest_index-in_file reg_fp inst out ne h = elim (Bool-cases (out == 64)) [
  | inl fpcr ↦ let e : out ≡ 64 = ground arith in rw e refl
  | inr other ↦ >>=-elim (in_fields _ inst) _ h λ j ej _.
      let (k, e, lt) = in_fields-found _ inst ej in fpr_index-in_file out k (ground arith) lt
]
