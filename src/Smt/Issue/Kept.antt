-- ===== src/Smt/Issue/Kept.antt =====
-- The queues and the counters before and after the scheduling of an entry.
use smt_register_capping.Base.{
  ℕ, ◌<◌, ◌≡◌, refl, Bool, ok, read, assert, ◌&&◌, ◌||◌, not, if◌then◌else◌, ok-injective, >>=-elim,
  true, false, ◌>>=◌, Outcome, subst,
}
use smt_register_capping.RegFile.Physical.{RegFile}
use smt_register_capping.Isa.Flags.{is_load, is_store, has_store_flag}
use smt_register_capping.Isa.Units.{needs_unit}
use smt_register_capping.Smt.State.{RobEntry, Machine}
use smt_register_capping.Smt.Operands.{all_operands_spec_ready}
use smt_register_capping.Smt.Issue.{
  EntryStep, enqueue, select, unissue, unqueue, Timing, entry_step, step_rob, step_lsq, issue,
  issue_store, issue_load, issue_unit, issue_free, wake, store_register, wake_free, forget_times,
  queue_event,
}
use smt_register_capping.Smt.Invariant.{IsCapped}
use smt_register_capping.Smt.Writeback.{kept_rob-IsCapped, kept_lsq-IsCapped}

-- the same destination and old mapping as before
abbrev pub Same : RobEntry → RobEntry → Type 0
Same a b =
    (a.physreg ≡ b.physreg) × (a.dest_format ≡ b.dest_format) × (a.old_physreg ≡ b.old_physreg)

-- whatever comes out has the destination of `rs`
record Keeps (rs : RobEntry) (m : Outcome (RegFile × RobEntry)) : Type 0 where
  pub kept : (r : RegFile × RobEntry) → m ≡ ok r → Same r.1 rs

Keeps-ok : (rs : RobEntry) (f : RegFile) (x : RobEntry) → Same x rs → Keeps rs (ok (f, x))
Keeps-ok rs f x s = record {
  kept = λ r e. subst (λ (t : RegFile × RobEntry). Same t.1 rs) (ok-injective e) s;
}

Keeps-if :
    (rs : RobEntry) (b : Bool) (x y : Outcome (RegFile × RobEntry))
    → Keeps rs x
    → Keeps rs y
    → Keeps rs (if b then x else y)
Keeps-if rs true x y p q = p
Keeps-if rs false x y p q = q

Keeps->>= {ℓ} :
    {A : Type ℓ} (rs : RobEntry) (m : Outcome A) (k : A → Outcome (RegFile × RobEntry))
    → ((a : A) → Keeps rs (k a))
    → Keeps rs (m >>= k)
Keeps->>= rs m k all = record { kept = λ r e. >>=-elim m k e λ a _ h. (all a).kept r h }

-- an event queued and the registers updated, whatever the update
started-Keeps :
    (rs : RobEntry) (q : Outcome (Unit {0})) (m : Outcome RegFile) (x : RobEntry)
    → Same x rs
    → Keeps rs (q >>= λ _. m >>= λ f. ok (f, x))
started-Keeps rs q m x s =
    Keeps->>= rs q (λ _. m >>= λ f. ok (f, x))
      (λ _. Keeps->>= rs m (λ f. ok (f, x)) (λ f. Keeps-ok rs f x s))

issue-Keeps :
    (f : RegFile) (cycle : ℕ) (unit_free : Bool) (time : Timing) (rs : RobEntry)
    → Keeps rs (issue f cycle unit_free time rs)
unfolding issue issue_store issue_load issue_unit issue_free
issue-Keeps f cycle u time rs =
    Keeps-if rs (rs.in_lsq && is_store rs.op) (issue_store f cycle time rs) _
      (Keeps->>= rs (store_register f cycle time rs.physreg rs.dest_format)
        (λ f1. assert (not rs.recover_inst) >>= λ _.
          ok (f1, record rs { issued = true; completed = true }))
        (λ f1.
          Keeps->>= rs (assert (not rs.recover_inst))
            (λ _. ok (f1, record rs { issued = true; completed = true }))
            (λ _. Keeps-ok rs f1 _ (refl, refl, refl))))
      (Keeps-if rs (not (needs_unit rs.op)) (issue_free f cycle time.issue_exec_delay rs) _
        (started-Keeps rs (queue_event f cycle rs)
          (wake_free f cycle time.issue_exec_delay rs.physreg rs.dest_format) _ (refl, refl, refl))
        (Keeps-if rs (not u) (ok (f, record rs { queued = true })) _
          (Keeps-ok rs f _ (refl, refl, refl))
          (Keeps-if rs (rs.in_lsq && is_load rs.op) (issue_load f cycle time rs)
            (issue_unit f cycle time rs)
            (started-Keeps rs (queue_event f cycle rs)
              (wake f cycle time.spec_lat time rs.physreg rs.dest_format) _ (refl, refl, refl))
            (started-Keeps rs (queue_event f cycle rs)
              (if rs.ea_comp
                then ok f
                else wake f cycle time.exec_lat time rs.physreg rs.dest_format)
              _ (refl, refl, refl)))))

entry_step-Keeps :
    (s : EntryStep) (f : RegFile) (cycle : ℕ) (rs : RobEntry) → Keeps rs (entry_step s f cycle rs)
unfolding entry_step
entry_step-Keeps enqueue f cycle rs = record {
  kept = λ r e. >>=-elim (assert (not rs.queued)) _ e λ _ _ h1.
      >>=-elim (all_operands_spec_ready f cycle rs) _ h1
        λ b _ h2. >>=-elim (assert b) _ h2 λ _ _ h3. (Keeps-ok rs f _ (refl, refl, refl)).kept r h3;
}
entry_step-Keeps (select u time) f cycle rs = record {
  kept = λ r e. >>=-elim (all_operands_spec_ready f cycle rs) _ e λ b _ h1.
      >>=-elim
        (assert (b && rs.queued && not rs.issued && (has_store_flag rs.op || not rs.completed))) _
        h1 λ _ _ h2. (issue-Keeps f cycle u time (record rs { queued = false })).kept r h2;
}
entry_step-Keeps unissue f cycle rs = record {
  kept = λ r e.
      >>=-elim (if rs.ea_comp then ok f else forget_times f rs.physreg rs.dest_format) _ e
        λ f1 _ h1. >>=-elim (assert (not rs.queued)) _ h1 λ _ _ h2.
          >>=-elim (assert (not rs.completed)) _ h2
            λ _ _ h3. (Keeps-ok rs f1 _ (refl, refl, refl)).kept r h3;
}
entry_step-Keeps unqueue f cycle rs = record {
  kept = λ r e.
      >>=-elim (assert (not rs.completed)) _ e
        λ _ _ h. (Keeps-ok rs f _ (refl, refl, refl)).kept r h;
}

pub entry_step-Same :
    (s : EntryStep) (f : RegFile) (cycle : ℕ) (rs : RobEntry) {r : RegFile × RobEntry}
    → entry_step s f cycle rs ≡ ok r
    → Same r.1 rs
entry_step-Same s f cycle rs h = (entry_step-Keeps s f cycle rs).kept _ h

-- Queueing, selecting, or taking back an entry of the ROB of a thread, when it does not abort,
-- keeps the queues and the counters of every thread in order.
pub step_rob-IsCapped :
    (s : EntryStep) (m : Machine) (cid i : ℕ) {m' : Machine}
    → cid < m.num_contexts
    → IsCapped m
    → step_rob s m cid i ≡ ok m'
    → IsCapped m'
unfolding step_rob
step_rob-IsCapped s m cid i lt v h = >>=-elim (read m.contexts cid) _ h λ c ec h1.
    >>=-elim (read c.rob i) _ h1 λ rs er h2.
      >>=-elim (entry_step s m.regs m.sim_cycle rs) _ h2 λ (r : RegFile × RobEntry) ew h3.
        let (a, b, _) = entry_step-Same s m.regs m.sim_cycle rs ew in
        subst IsCapped (ok-injective h3) (kept_rob-IsCapped m cid i c rs r.1 r.0 lt v ec er a b)

-- So does every step of an entry of the LSQ.
pub step_lsq-IsCapped :
    (s : EntryStep) (m : Machine) (cid i : ℕ) {m' : Machine}
    → cid < m.num_contexts
    → IsCapped m
    → step_lsq s m cid i ≡ ok m'
    → IsCapped m'
unfolding step_lsq
step_lsq-IsCapped s m cid i lt v h = >>=-elim (read m.contexts cid) _ h λ c ec h1.
    >>=-elim (read c.lsq i) _ h1 λ rs er h2.
      >>=-elim (entry_step s m.regs m.sim_cycle rs) _ h2 λ (r : RegFile × RobEntry) ew h3.
        subst IsCapped (ok-injective h3) (kept_lsq-IsCapped m cid i c r.1 r.0 lt v ec)
