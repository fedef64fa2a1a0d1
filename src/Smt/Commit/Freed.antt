-- ===== src/Smt/Commit/Freed.antt =====
-- The free registers before and after writeback.
use smt_register_capping.Base.{
  ℕ, ◌≡◌, Bool, true, false, ◌&&◌, not, ◌==◌, Option, none, some, ok, assert, >>=-elim,
  ok-injective, subst, arith,
}
use smt_register_capping.Isa.Opcode.{RegType}
use smt_register_capping.RegFile.Physical.{
  RegFile, PhysReg, RegState, is_free, is_alloc, reg_wb, access,
}
use smt_register_capping.Smt.State.{RobEntry}
use smt_register_capping.Smt.Operands.{all_operands_ready}
use smt_register_capping.Smt.Commit.{move_state, mark_written, write_back}
use smt_register_capping.Smt.Owners.Free.{FreesAs, FreesAs-refl, Wrote-FreesAs, move_state-Wrote}

-- a register that is neither free before nor after a change of state
pub move_state-FreesAs :
    (test : PhysReg → Bool) (s : RegState) (f : RegFile) (i : ℕ) (t : RegType) {f' : RegFile}
    → ((r : PhysReg) → test r ≡ true → is_free (record r { state = s }) ≡ is_free r)
    → move_state test s f i t ≡ ok f'
    → FreesAs f' f
move_state-FreesAs test s f i t {f'} all h =
    let (r, e, w) = move_state-Wrote test s f i t h in
    Wrote-FreesAs f i t r (record r { state = s }) f' w (all r e)

pub alloc_to_wb :
    (r : PhysReg) → is_alloc r ≡ true → is_free (record r { state = reg_wb }) ≡ is_free r
alloc_to_wb r e = ground arith

mark_written-FreesAs :
    (f : RegFile) (cycle : ℕ) (i : Option ℕ) (t : RegType) (ea : Bool) {f' : RegFile}
    → mark_written f cycle i t ea ≡ ok f'
    → FreesAs f' f
unfolding mark_written
mark_written-FreesAs f cycle none t ea h =
    subst (λ g. FreesAs g f) (ok-injective h) (FreesAs-refl f)
mark_written-FreesAs f cycle (some i) t true h =
    subst (λ g. FreesAs g f) (ok-injective h) (FreesAs-refl f)
mark_written-FreesAs f cycle (some i) t false h = >>=-elim (access f i t) _ h λ r _ h1.
    >>=-elim (assert (r.ready == cycle)) _ h1
      λ _ _ h2. move_state-FreesAs is_alloc reg_wb f i t alloc_to_wb h2

pub write_back-FreesAs :
    (f : RegFile) (cycle : ℕ) (rs : RobEntry) {r : RegFile × RobEntry}
    → write_back f cycle rs ≡ ok r
    → FreesAs r.0 f
unfolding write_back
write_back-FreesAs f cycle rs h = >>=-elim (all_operands_ready f cycle rs) _ h λ b _ h0.
    >>=-elim (assert b) _ h0 λ _ _ h1.
      >>=-elim (assert (not rs.queued && rs.issued && not rs.completed)) _ h1 λ _ _ h2.
        >>=-elim (mark_written f cycle rs.physreg rs.dest_format rs.ea_comp) _ h2 λ f1 e h3.
          subst (λ (t : RegFile × RobEntry). FreesAs t.0 f) (ok-injective h3)
            (mark_written-FreesAs f cycle rs.physreg rs.dest_format rs.ea_comp e)
