-- ===== src/Smt/Owners.antt =====
-- Who holds a physical register: the rename tables, and the instructions in flight that will give an
-- old mapping back.
pub mod Free
pub mod Kept
pub mod Rename
pub mod Commit
pub mod Run
use smt_register_capping.Base.{
  ℕ, zero, suc, ◌+◌, ◌<◌, ◌≡◌, refl, ap, Bool, true, false, ◌&&◌, ltb, leb, ◌==◌, if◌then◌else◌,
  List, [], ◌∷◌, Option, none, some, length, set, get_or, arith, count_if,
}
use smt_register_capping.Isa.Opcode.{RegType, reg_int}
use smt_register_capping.RegFile.Physical.{RegFile, bank, is_free, fresh_physreg}
use smt_register_capping.Smt.State.{RobEntry, Context, Machine, rob_entries}
use smt_register_capping.Smt.Invariant.{renamed_as}

-- whether an architectural register is renamed in the file of a type: 0 to 31 in the integer file, 32
-- to 64, which are the floating-point registers and FPCR, in the other
abbrev pub in_file : RegType → ℕ → Bool
in_file reg_int a = ltb a 32
in_file _ a = leb 32 a && leb a 64

-- the registers of the table from register `a` on that are mapped to `p`
abbrev pub mapped : RegType → (p a : ℕ) → List ℕ → ℕ
mapped t p a [] = 0
mapped t p a (q ∷ qs) = (if in_file t a && q == p then 1 else 0) + mapped t p (suc a) qs

abbrev pub is_at : Option ℕ → ℕ → Bool
is_at none p = false
is_at (some q) p = q == p

-- an instruction in flight whose old mapping is `p`
abbrev pub keeps_old : RegType → ℕ → RobEntry → Bool
keeps_old t p e = renamed_as t e && is_at e.old_physreg p

abbrev pub held : RegType → ℕ → Context → ℕ
held t p c = mapped t p 0 c.rename_table + count_if (keeps_old t p) (rob_entries c)

abbrev pub total : (Context → ℕ) → List Context → ℕ
total f [] = 0
total f (c ∷ cs) = f c + total f cs

-- how often the threads hold physical register `p` of the file of type `t`
abbrev pub holders : Machine → RegType → ℕ → ℕ
holders m t p = total (held t p) m.contexts

abbrev pub free_at : RegFile → RegType → ℕ → Bool
free_at f t p = is_free (get_or (bank f t) p fresh_physreg)

-- every register that is not free is held exactly once, and no free one is held
pub record IsOwned (m : Machine) : Type 0 where
  pub owned : (t : RegType) (p : ℕ) → holders m t p ≡ (if free_at m.regs t p then 0 else 1)

pub total-set :
    (f : Context → ℕ) (cs : List Context) (i : ℕ) (c d : Context)
    → i < length cs
    → total f (set cs i c) + f (get_or cs i d) ≡ total f cs + f c
total-set f [] i c d lt = absurd (omega arith)
total-set f (x ∷ cs) zero c d lt = omega arith
total-set f (x ∷ cs) (suc i) c d lt = omega (arith, total-set f cs i c d (omega arith))

-- the count that a single register adds
abbrev pub at : RegType → (p a q : ℕ) → ℕ
at t p a q = if in_file t a && q == p then 1 else 0

pub mapped-set :
    (t : RegType) (p a : ℕ) (qs : List ℕ) (i q : ℕ)
    → i < length qs
    → mapped t p a (set qs i q) + at t p (a + i) (get_or qs i 0)
      ≡ mapped t p a qs + at t p (a + i) q
mapped-set t p a [] i q lt = absurd (omega arith)
mapped-set t p a (x ∷ qs) zero q lt = let e : a + 0 ≡ a = omega arith in rw e (omega arith)
mapped-set t p a (x ∷ qs) (suc i) q lt =
    let e : a + suc i ≡ suc a + i = omega arith in
    rw e (omega (arith, mapped-set t p (suc a) qs i q (omega arith)))
