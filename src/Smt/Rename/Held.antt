-- ===== src/Smt/Rename/Held.antt =====
-- The reasons to hold a thread back in register_rename, against its tests.
use smt_register_capping.Base.{
  ℕ, suc, ◌+◌, ◌<◌, ◌≤◌, ◌≡◌, ◌≢◌, refl, sym, ◌∙◌, Bool, true, false, ◌&&◌, ◌||◌, not, ltb, leb,
  ◌==◌, if◌then◌else◌, ◌⊎◌, inl, inr, ok, List, [], ◌∷◌, arith, ap, read_of_lt, Bool-cases, length,
  count_if, find_index,
}
use mathlib.Core.Option.{Option, none, some}
use mathlib.Core.Option
use smt_register_capping.Isa.Opcode.{RegType, reg_none, reg_int, reg_fp}
use smt_register_capping.Isa.Flags.{is_trap}
use smt_register_capping.RegFile.RegSet.{get_reg_set}
use smt_register_capping.RegFile.Physical.{bank, is_free, find_free_physreg}
use smt_register_capping.Smt.State.{Context, Machine, rob_entries}
use smt_register_capping.Smt.Cap.{rename_reg_limit, at_limit, no_register, is_none}
use smt_register_capping.Smt.Rename.{Executed, queues_full}
use smt_register_capping.Smt.Invariant.{IsCapped, thread, counter, is_renamed}

-- Why a thread must wait with an instruction: a full queue, RENAME_REG_LIMIT renamed instructions in
-- its ROB or no free register, for an instruction with a destination, or a trap behind others.
pub data Held (m : Machine) (cid : ℕ) (x : Executed) : Type 0 where
  rob_full : length (thread m cid).rob ≤ (thread m cid).rob_num → Held m cid x
  lsq_full : length (thread m cid).lsq ≤ (thread m cid).lsq_num → Held m cid x
  capped :
      (get_reg_set x.op).dest ≢ reg_none
      → count_if is_renamed (rob_entries (thread m cid)) ≡ rename_reg_limit
      → Held m cid x
  no_free :
      (get_reg_set x.op).dest ≢ reg_none
      → count_if is_free (bank m.regs (get_reg_set x.op).dest) ≡ 0
      → Held m cid x
  trap_waits : is_trap x.op ≡ true → (thread m cid).rob_num ≢ 0 → Held m cid x

is_none-suc : (o : Option ℕ) → is_none (Option.map suc o) ≡ is_none o
is_none-suc none = refl
is_none-suc (some i) = refl

-- the search finds nothing exactly when no entry passes the test
is_none-find_index {ℓ} :
    {A : Type ℓ} (p : A → Bool) (xs : List A) → is_none (find_index p xs) ≡ (count_if p xs == 0)
is_none-find_index p [] = refl
is_none-find_index p (x ∷ xs) = elim (Bool-cases (p x)) [
  | inl e ↦ rw e (sym (positive (count_if p xs)))
  | inr e ↦
      rw e (is_none-suc (find_index p xs) ∙ is_none-find_index p xs ∙ sym (plain (count_if p xs)))
]
  where
    positive : (n : ℕ) → ((1 + n) == 0) ≡ false
    positive n = ground arith

    plain : (n : ℕ) → ((0 + n) == 0) ≡ (n == 0)
    plain n = ap (λ k. k == 0) (omega arith)

-- the counter of a thread of the machine decides
at_limit-counter :
    (m : Machine) (cid : ℕ)
    → cid < m.num_contexts
    → IsCapped m
    → at_limit m cid ≡ ok (leb rename_reg_limit (counter m cid))
unfolding at_limit
at_limit-counter m cid lt v =
    let inside : ltb cid m.num_contexts ≡ true = ground arith in
    rw (inside, read_of_lt m.reg_counter cid 0 (omega (arith, v.fits.counters, v.fits.few))) refl

-- the register test, by the number of counted and of free registers
pub short : Machine → ℕ → RegType → Bool
short m cid t =
    if leb rename_reg_limit (counter m cid) then true else count_if is_free (bank m.regs t) == 0

pub no_register-short :
    (t : RegType) (m : Machine) (cid : ℕ)
    → t ≢ reg_none
    → cid < m.num_contexts
    → IsCapped m
    → no_register t m cid ≡ ok (short m cid t)
unfolding find_free_physreg short
no_register-short reg_none m cid ne lt v = absurd (ne refl)
no_register-short reg_int m cid ne lt v = rw (at_limit-counter m cid lt v) (
    ap (λ b. ok (if leb rename_reg_limit (counter m cid) then true else b))
      (is_none-find_index is_free m.regs.intregs))
no_register-short reg_fp m cid ne lt v = rw (at_limit-counter m cid lt v) (
    ap (λ b. ok (if leb rename_reg_limit (counter m cid) then true else b))
      (is_none-find_index is_free m.regs.fpregs))

-- the Boolean test of the queues
full_cases :
    (c : Context) → queues_full c ≡ true → (length c.rob ≤ c.rob_num) ⊎ (length c.lsq ≤ c.lsq_num)
full_cases c h = elim (Bool-cases (leb (length c.rob) c.rob_num)) [
  | inl e ↦ inl (ground arith)
  | inr e ↦ inr (ground arith)
]

pub short-Held :
    (m : Machine) (cid : ℕ) (x : Executed)
    → cid < m.num_contexts
    → IsCapped m
    → (get_reg_set x.op).dest ≢ reg_none
    → short m cid (get_reg_set x.op).dest ≡ true
    → Held m cid x
unfolding short
short-Held m cid x lt v ne h = elim (Bool-cases (leb rename_reg_limit (counter m cid))) [
  | inl e ↦
      let limit : rename_reg_limit ≤ counter m cid = ground arith in
      capped ne (omega (arith, limit, (v.counts cid lt).capped, (v.counts cid lt).counted))
  | inr e ↦ let none_free = rw e at h in no_free ne (ground arith)
]

waiting-Held :
    (m : Machine) (cid : ℕ) (x : Executed)
    → (is_trap x.op && not ((thread m cid).rob_num == 0)) ≡ true
    → Held m cid x
waiting-Held m cid x h = elim (Bool-cases (is_trap x.op)) [
  | inl e ↦ let rest = rw e at h in trap_waits e (ground arith)
  | inr e ↦ let rest = rw e at h in cc
]

-- the tests against the reasons, with the register test's value
pub tests-Held :
    (m : Machine) (cid : ℕ) (x : Executed) (stall : Bool)
    → (stall ≡ true → Held m cid x)
    → (queues_full (thread m cid) || (stall || (is_trap x.op && not ((thread m cid).rob_num == 0))))
      ≡ true
    → Held m cid x
tests-Held m cid x stall why h = elim (Bool-cases (queues_full (thread m cid))) [
  | inl full ↦ elim (full_cases (thread m cid) full) [ inl a ↦ rob_full a | inr b ↦ lsq_full b ]
  | inr room ↦
      let rest = rw room at h in
      elim (Bool-cases stall) [
        | inl e ↦ why e
        | inr e ↦ let wait = rw e at rest in waiting-Held m cid x wait
      ]
]

true_or : (b c : Bool) → (b || (true || c)) ≡ true
true_or true c = refl
true_or false c = refl

wait_or : (b stall : Bool) → (b || (stall || (true && not false))) ≡ true
wait_or true stall = refl
wait_or false true = refl
wait_or false false = refl

either : (b : Bool) → (if b then true else (0 == 0)) ≡ true
either true = refl
either false = refl

pub Held-tests :
    (m : Machine) (cid : ℕ) (x : Executed) (stall : Bool)
    → IsCapped m
    → cid < m.num_contexts
    → ((get_reg_set x.op).dest ≢ reg_none → stall ≡ short m cid (get_reg_set x.op).dest)
    → Held m cid x
    → (queues_full (thread m cid) || (stall || (is_trap x.op && not ((thread m cid).rob_num == 0))))
      ≡ true
unfolding short
Held-tests m cid x stall v lt test (rob_full h) =
    let full : leb (length (thread m cid).rob) (thread m cid).rob_num ≡ true = ground arith in
    rw full refl
Held-tests m cid x stall v lt test (lsq_full h) =
    let full : leb (length (thread m cid).lsq) (thread m cid).lsq_num ≡ true = ground arith in
    ground (arith, full)
Held-tests m cid x stall v lt test (capped ne h) =
    let limit : leb rename_reg_limit (counter m cid) ≡ true =
      let count = (v.counts cid lt).counted in ground arith in
    let yes' : stall ≡ true = test ne ∙ rw limit refl in
    rw yes'
      (true_or (queues_full (thread m cid)) (is_trap x.op && not ((thread m cid).rob_num == 0)))
Held-tests m cid x stall v lt test (no_free ne h) =
    let yes' : stall ≡ true = test ne ∙ (rw h (either (leb rename_reg_limit (counter m cid)))) in
    rw yes'
      (true_or (queues_full (thread m cid)) (is_trap x.op && not ((thread m cid).rob_num == 0)))
Held-tests m cid x stall v lt test (trap_waits e ne) =
    let others : ((thread m cid).rob_num == 0) ≡ false = ground arith in
    rw (e, others) (wait_or (queues_full (thread m cid)) stall)
