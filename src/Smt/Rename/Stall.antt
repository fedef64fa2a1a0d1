-- ===== src/Smt/Rename/Stall.antt =====
-- When register_rename holds a thread back.
use smt_register_capping.Base.{
  ℕ, ◌<◌, ◌≡◌, ◌≢◌, refl, Bool, true, false, ◌&&◌, ◌||◌, not, ◌==◌, ◌↔◌, inl, inr, ok, arith, read,
  read_of_lt, Bool-cases, Outcome-cases,
}
use smt_register_capping.Isa.Flags.{is_trap}
use smt_register_capping.RegFile.RegSet.{get_reg_set}
use smt_register_capping.Smt.State.{Context, Machine}
use smt_register_capping.Smt.Cap.{must_stall}
use smt_register_capping.Smt.Rename.{
  Executed, stalled, rename_inst, rename_entry, new_entry, rename_register, install, queues_full,
  is_nop, effective,
}
use smt_register_capping.Smt.Rename.Progress.{is_destination}
use smt_register_capping.Smt.Rename.Held.{
  Held, short, no_register-short, short-Held, tests-Held, Held-tests,
}
use smt_register_capping.Smt.Invariant.{IsCapped, idle_context, thread}

-- an instruction that passed the tests does not stall
rename_entry-ne_stalled :
    (m : Machine) (cid : ℕ) (c : Context) (x : Executed) → rename_entry m cid c x ≢ ok stalled
unfolding rename_entry
rename_entry-ne_stalled m cid c x h = elim (Outcome-cases (read c.rob c.rob_tail)) [
  | inl e ↦ let run = rw e at h in cc
  | inr (slot, e) ↦
      let run = rw e at h in
      elim (Outcome-cases (new_entry m cid c x slot)) [
        | inl e1 ↦ let run1 = rw e1 at run in cc
        | inr (rs, e1) ↦
            let run1 = rw e1 at run in
            elim (Outcome-cases (rename_register m cid c x rs)) [
              | inl e2 ↦ let run2 = rw e2 at run1 in cc
              | inr ((m1, c1, rs1), e2) ↦
                  let run2 = rw e2 at run1 in
                  elim (Outcome-cases (install m1 cid c1 x rs1)) [
                    | inl e3 ↦ let run3 = rw e3 at run2 in cc
                    | inr (m2, e3) ↦ let run3 = rw e3 at run2 in cc
                  ]
            ]
      ]
]

-- the tests of rename_inst, when the register test gives `stall`
rename_inst-tests :
    (m : Machine) (cid : ℕ) (x : Executed) (c : Context) (stall : Bool)
    → read m.contexts cid ≡ ok c
    → must_stall m cid x.op ≡ ok stall
    → (rename_inst m cid x ≡ ok stalled)
      ↔ ((queues_full c || (stall || (is_trap x.op && not (c.rob_num == 0)))) ≡ true)
unfolding rename_inst
rename_inst-tests m cid x c stall context test = elim (Bool-cases (queues_full c)) [
  | inl full ↦ (λ h. rw full refl, λ h. rw context (rw full refl))
  | inr room ↦ elim (Bool-cases (stall || (is_trap x.op && not (c.rob_num == 0)))) [
    | inl held ↦ (λ h. rw room held, λ h. rw context (rw room (rw test (rw held refl))))
    | inr free ↦ (
      λ h.
          let run = rw context at h in
          let run1 = rw room at run in
          let run2 = rw test at run1 in
          let run3 = rw free at run2 in
          elim (Bool-cases (is_nop (effective x.op))) [
            | inl e ↦ let run4 = rw e at run3 in cc
            | inr e ↦ absurd (rename_entry-ne_stalled m cid c x (rw e at run3))
          ],
      λ h. let past = rw (room, free) at h in cc,
    )
  ]
]

pub rename_inst-stalls :
    (m : Machine) (cid : ℕ) (x : Executed)
    → cid < m.num_contexts
    → IsCapped m
    → (rename_inst m cid x ≡ ok stalled) ↔ Held m cid x
unfolding must_stall
rename_inst-stalls m cid x lt v =
    let context = read_of_lt m.contexts cid idle_context (omega (arith, v.fits.threads)) in
    elim (is_destination (get_reg_set x.op).dest) [
      | inl none' ↦
          let test : must_stall m cid x.op ≡ ok false = rw none' refl in
          let tests = rename_inst-tests m cid x (thread m cid) false context test in
          (
            λ h. tests-Held m cid x false (λ e. cc) (tests.0 h),
            λ h. tests.1 (Held-tests m cid x false v lt (λ ne. absurd (ne none')) h),
          )
      | inr ne ↦
          let test = no_register-short (get_reg_set x.op).dest m cid ne lt v in
          let stall = short m cid (get_reg_set x.op).dest in
          let tests = rename_inst-tests m cid x (thread m cid) stall context test in
          (
            λ h. tests-Held m cid x stall (short-Held m cid x lt v ne) (tests.0 h),
            λ h. tests.1 (Held-tests m cid x stall v lt (λ ne'. refl) h),
          )
    ]
