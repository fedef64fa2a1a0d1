-- ===== src/Smt/Owners/Free.antt =====
-- Which physical registers are free, after a write to one of them.
use native.Mathlib.Decide.{ℕ_discrete}
use smt_register_capping.Base.{
  ℕ, ◌<◌, ◌≡◌, refl, ap, sym, ◌∙◌, Bool, true, false, ◌&&◌, ◌==◌, if◌then◌else◌, List, ok, read,
  length, set, get_or, read-lt, get_or_of_read, get_or-set_self, get_or-set_ne, >>=-elim, assert,
  ok-injective, arith,
}
use smt_register_capping.Isa.Opcode.{RegType, reg_none, reg_int, reg_fp}
use smt_register_capping.RegFile.Physical.{
  RegFile, PhysReg, RegState, bank, is_free, fresh_physreg, access, write_reg,
}
use smt_register_capping.Smt.Commit.{move_state}
use smt_register_capping.Smt.Owners.{free_at}

-- whether two types select the same file
abbrev pub same_file : RegType → RegType → Bool
same_file reg_int reg_int = true
same_file reg_int _ = false
same_file _ reg_int = false
same_file _ _ = true

free_in-set :
    (regs : List PhysReg) (i p : ℕ) (r : PhysReg)
    → i < length regs
    → is_free (get_or (set regs i r) p fresh_physreg)
      ≡ (if i == p then is_free r else is_free (get_or regs p fresh_physreg))
free_in-set regs i p r lt = elim (ℕ_discrete i p) [
  | yes e ↦
      let same : (i == p) ≡ true = ground arith in
      rw same (
        ap (λ n. is_free (get_or (set regs i r) n fresh_physreg)) (sym e)
        ∙ ap is_free (get_or-set_self regs i r fresh_physreg lt))
  | no ne ↦
      let other : (i == p) ≡ false = ground arith in
      rw other (ap is_free (get_or-set_ne regs i p r fresh_physreg ne))
]

-- A write to register `i` of the file of type `t`, as register `p` of the file of type `s` sees it.
pub free_at-write :
    (f : RegFile) (s t : RegType) (i p : ℕ) (r : PhysReg)
    → i < length (bank f t)
    → free_at (write_reg f i t r) s p
      ≡ (if same_file t s && i == p then is_free r else free_at f s p)
unfolding write_reg
free_at-write f reg_none reg_none i p r lt = free_in-set f.fpregs i p r lt
free_at-write f reg_none reg_int i p r lt = refl
free_at-write f reg_none reg_fp i p r lt = free_in-set f.fpregs i p r lt
free_at-write f reg_int reg_none i p r lt = refl
free_at-write f reg_int reg_int i p r lt = free_in-set f.intregs i p r lt
free_at-write f reg_int reg_fp i p r lt = refl
free_at-write f reg_fp reg_none i p r lt = free_in-set f.fpregs i p r lt
free_at-write f reg_fp reg_int i p r lt = refl
free_at-write f reg_fp reg_fp i p r lt = free_in-set f.fpregs i p r lt

-- two types of the same file see the same registers
pub free_at-same_file :
    (f : RegFile) (s t : RegType) (p : ℕ) → same_file t s ≡ true → free_at f s p ≡ free_at f t p
free_at-same_file f reg_none reg_none p e = refl
free_at-same_file f reg_none reg_int p e = cc
free_at-same_file f reg_none reg_fp p e = refl
free_at-same_file f reg_int reg_none p e = cc
free_at-same_file f reg_int reg_int p e = refl
free_at-same_file f reg_int reg_fp p e = cc
free_at-same_file f reg_fp reg_none p e = refl
free_at-same_file f reg_fp reg_int p e = cc
free_at-same_file f reg_fp reg_fp p e = refl

-- the same registers are free
pub record FreesAs (f' f : RegFile) : Type 0 where
  pub free_as : (s : RegType) (p : ℕ) → free_at f' s p ≡ free_at f s p

pub FreesAs-refl : (f : RegFile) → FreesAs f f
FreesAs-refl f = record { free_as = λ s p. refl }

pub FreesAs-trans : (f g h : RegFile) → FreesAs f g → FreesAs g h → FreesAs f h
FreesAs-trans f g h a b = record { free_as = λ s p. a.free_as s p ∙ b.free_as s p }

-- the registers after a write
pub record Wrote (f : RegFile) (i : ℕ) (t : RegType) (r r' : PhysReg) (f' : RegFile) : Type 0 where
  pub was : read (bank f t) i ≡ ok r
  pub now : f' ≡ write_reg f i t r'

if_same : (b : Bool) (x y : Bool) → (b ≡ true → x ≡ y) → (if b then x else y) ≡ y
if_same true x y h = h refl
if_same false x y h = refl

-- A write that leaves the register free, or not free, changes nothing.
pub Wrote-FreesAs :
    (f : RegFile) (i : ℕ) (t : RegType) (r r' : PhysReg) (f' : RegFile)
    → Wrote f i t r r' f'
    → is_free r' ≡ is_free r
    → FreesAs f' f
Wrote-FreesAs f i t r r' f' w e = record {
  free_as = λ s p.
      ap (λ g. free_at g s p) w.now
      ∙ free_at-write f s t i p r' (read-lt (bank f t) i w.was)
      ∙ if_same (same_file t s && i == p) (is_free r') (free_at f s p) (λ h.
        let one : same_file t s ≡ true = ground arith in
        let two : i ≡ p = ground arith in
        e
        ∙ ap is_free (sym (get_or_of_read (bank f t) i fresh_physreg w.was))
        ∙ ap (λ n. free_at f t n) two
        ∙ sym (free_at-same_file f s t p one));
}

-- what a checked change of state has gone through
pub move_state-Wrote :
    (test : PhysReg → Bool) (s : RegState) (f : RegFile) (i : ℕ) (t : RegType) {f' : RegFile}
    → move_state test s f i t ≡ ok f'
    → (r : PhysReg) × (test r ≡ true) × Wrote f i t r (record r { state = s }) f'
unfolding move_state access
move_state-Wrote test s f i t h = >>=-elim (read (bank f t) i) _ h λ r e h1.
    >>=-elim (assert (test r)) _ h1
      λ _ e2 h2. (r, ground arith, record { was = e; now = sym (ok-injective h2) })
