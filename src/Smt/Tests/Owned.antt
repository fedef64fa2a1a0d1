-- ===== src/Smt/Tests/Owned.antt =====
-- The same machine, with every physical register that is not free mapped once.
use native.Mathlib.Decide.{dec_lt}
use smt_register_capping.Base.{
  ℕ, zero, suc, ◌≤◌, ◌<◌, ◌≡◌, refl, Bool, true, false, ◌&&◌, ltb, ◌==◌, if◌then◌else◌, List, [],
  ◌∷◌, length, get_or, arith,
}
use smt_register_capping.Isa.Opcode.{RegType, reg_none, reg_int, reg_fp}
use smt_register_capping.RegFile.Physical.{PhysReg, fresh_physreg}
use smt_register_capping.Smt.Invariant.{thread}
use smt_register_capping.Smt.Owners.{mapped, holders, free_at, IsOwned}
use smt_register_capping.Smt.Owners.Run.{IsMapped, Reach-owned, Reach-distinct}
use smt_register_capping.Smt.Tests.{
  boot, boot-Fits, boot-IsIdle, written, to_written, retired, to_retired,
}

all_below : ℕ → (ℕ → Bool) → Bool
all_below zero p = true
all_below (suc n) p = p n && all_below n p

all_below_lem : (n : ℕ) (p : ℕ → Bool) (x : ℕ) → all_below n p ≡ true → x < n → p x ≡ true
unfolding all_below
all_below_lem zero p x h lt = absurd (omega arith)
all_below_lem (suc n) p x h lt = ground (arith, all_below_lem n p x)

all_under : ℕ → List ℕ → Bool
all_under n [] = true
all_under n (q ∷ qs) = ltb q n && all_under n qs

-- no register of the table is mapped to a number above all of its entries
mapped_out :
    (n : ℕ) (t : RegType) (p a : ℕ) (qs : List ℕ)
    → all_under n qs ≡ true
    → n ≤ p
    → mapped t p a qs ≡ 0
unfolding all_under
mapped_out n t p a [] h le = refl
mapped_out n t p a (q ∷ qs) h le =
    let other : (q == p) ≡ false = ground arith in
    let rest = mapped_out n t p (suc a) qs (ground arith) le in ground arith

get_or_out :
    (regs : List PhysReg) (p : ℕ) → length regs ≤ p → get_or regs p fresh_physreg ≡ fresh_physreg
get_or_out [] p le = refl
get_or_out (r ∷ regs) zero le = absurd (omega arith)
get_or_out (r ∷ regs) (suc p) le = get_or_out regs p (omega arith)

abbrev agrees : RegType → ℕ → Bool
agrees t p = holders boot t p == (if free_at boot.regs t p then 0 else 1)

int_agrees : all_below 40 (agrees reg_int) ≡ true
unfolding all_below
int_agrees = refl

fp_agrees : all_below 40 (agrees reg_fp) ≡ true
unfolding all_below
fp_agrees = refl

table_under : all_under 40 (thread boot 0).rename_table ≡ true
unfolding all_under
table_under = refl

eq_of_test : (a b : ℕ) → (a == b) ≡ true → a ≡ b
eq_of_test a b h = ground arith

agreed :
    (t : RegType) (p : ℕ)
    → agrees t p ≡ true
    → holders boot t p ≡ (if free_at boot.regs t p then 0 else 1)
agreed t p h = eq_of_test (holders boot t p) (if free_at boot.regs t p then 0 else 1) h

-- above the last register nothing is held, and nothing is in use
out_of_range : (p : ℕ) → 40 ≤ p → (t : RegType) → holders boot t p ≡ 0
out_of_range p le t =
    let none_there = mapped_out 40 t p 0 (thread boot 0).rename_table table_under le in
    omega (arith, none_there)

boot-IsOwned : IsOwned boot
boot-IsOwned = record {
  owned = λ t p. elim (dec_lt p 40) [ yes lt ↦ below t p lt | no ge ↦ above t p (omega arith) ];
}
  where
    below :
        (t : RegType) (p : ℕ) → p < 40 → holders boot t p ≡ (if free_at boot.regs t p then 0 else 1)
    below reg_none p lt = agreed reg_none p (all_below_lem 40 (agrees reg_none) p fp_agrees lt)
    below reg_int p lt = agreed reg_int p (all_below_lem 40 (agrees reg_int) p int_agrees lt)
    below reg_fp p lt = agreed reg_fp p (all_below_lem 40 (agrees reg_fp) p fp_agrees lt)

    above :
        (t : RegType) (p : ℕ) → 40 ≤ p → holders boot t p ≡ (if free_at boot.regs t p then 0 else 1)
    above reg_none p le = rw (get_or_out boot.regs.fpregs p le) (out_of_range p le reg_none)
    above reg_int p le = rw (get_or_out boot.regs.intregs p le) (out_of_range p le reg_int)
    above reg_fp p le = rw (get_or_out boot.regs.fpregs p le) (out_of_range p le reg_fp)

-- the instruction has been committed: register 32 is mapped, and register 28 is free again
Reach-owned_example :
    holders retired reg_int 28 ≡ (if free_at retired.regs reg_int 28 then 0 else 1)
Reach-owned_example =
    Reach-owned boot retired reg_int 28 boot-Fits boot-IsIdle boot-IsOwned to_retired

twenty_eight : IsMapped written reg_int 0 28
twenty_eight = record { thread_in = omega arith; register_in = omega arith; side = refl }

Reach-distinct_example : ◌≡◌ {A = ℕ} 0 0 × ◌≡◌ {A = ℕ} 28 28
Reach-distinct_example =
    Reach-distinct boot written reg_int 0 0 28 28 boot-Fits boot-IsIdle boot-IsOwned to_written
      twenty_eight twenty_eight refl
