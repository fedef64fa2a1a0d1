-- ===== src/Smt/Issue/Freed.antt =====
-- The free registers before and after the scheduling of an entry.
use smt_register_capping.Base.{
  ℕ, ◌≡◌, refl, Bool, true, false, ◌&&◌, ◌||◌, not, if◌then◌else◌, Option, none, some, Outcome, ok,
  ◌>>=◌, read, assert, >>=-elim, ok-injective, subst, sym,
}
use smt_register_capping.Isa.Opcode.{RegType}
use smt_register_capping.Isa.Flags.{is_load, is_store, has_store_flag}
use smt_register_capping.Isa.Units.{needs_unit}
use smt_register_capping.RegFile.Physical.{RegFile, bank, is_alloc, reg_wb, access, never}
use smt_register_capping.Smt.State.{RobEntry}
use smt_register_capping.Smt.Operands.{all_operands_spec_ready}
use smt_register_capping.Smt.Commit.{move_state}
use smt_register_capping.Smt.Commit.Freed.{move_state-FreesAs, alloc_to_wb}
use smt_register_capping.Smt.Issue.{
  EntryStep, enqueue, select, unissue, unqueue, Timing, entry_step, issue, issue_store, issue_load,
  issue_unit, issue_free, has_dest, set_times, wake, store_register, wake_free, forget_times,
  queue_event,
}
use smt_register_capping.Smt.Owners.Free.{FreesAs, FreesAs-refl, FreesAs-trans, Wrote-FreesAs}

-- whatever registers come out, the same ones are free as in `f`
record Leaves {ℓ} {A : Type ℓ} (f : RegFile) (out : A → RegFile) (m : Outcome A) : Type ℓ where
  pub leaves : (a : A) → m ≡ ok a → FreesAs (out a) f

abbrev file : RegFile → RegFile
file f = f

abbrev with_entry : RegFile × RobEntry → RegFile
with_entry r = r.0

Leaves-ok {ℓ} :
    {A : Type ℓ} (f : RegFile) (out : A → RegFile) (a : A) → FreesAs (out a) f → Leaves f out (ok a)
Leaves-ok f out a s = record { leaves = λ b e. subst (λ u. FreesAs (out u) f) (ok-injective e) s }

Leaves-if {ℓ} :
    {A : Type ℓ} (f : RegFile) (out : A → RegFile) (b : Bool) (x y : Outcome A)
    → Leaves f out x
    → Leaves f out y
    → Leaves f out (if b then x else y)
Leaves-if f out true x y p q = p
Leaves-if f out false x y p q = q

-- after a check
Leaves-check {ℓ κ} :
    {A : Type ℓ} {B : Type κ} (f : RegFile) (out : A → RegFile) (m : Outcome B) (k : B → Outcome A)
    → ((b : B) → Leaves f out (k b))
    → Leaves f out (m >>= k)
Leaves-check f out m k all = record { leaves = λ a e. >>=-elim m k e λ b _ h. (all b).leaves a h }

-- an update, and then what leaves the updated registers
Leaves-update {ℓ} :
    {A : Type ℓ} (f : RegFile) (out : A → RegFile) (m : Outcome RegFile) (k : RegFile → Outcome A)
    → Leaves f file m
    → ((g : RegFile) → Leaves g out (k g))
    → Leaves f out (m >>= k)
Leaves-update f out m k first all = record {
  leaves = λ a e.
      >>=-elim m k e λ g eg h. FreesAs-trans (out a) g f ((all g).leaves a h) (first.leaves g eg);
}

set_times-Leaves :
    (f : RegFile) (i : ℕ) (t : RegType) (spec ready : ℕ)
    → Leaves f file (set_times f i t spec ready)
unfolding set_times access
set_times-Leaves f i t spec ready = record {
  leaves = λ g e. >>=-elim (read (bank f t) i) _ e λ r er h.
      Wrote-FreesAs f i t r (record r { spec_ready = spec; ready = ready }) g
        (record { was = er; now = sym (ok-injective h) }) refl;
}

Leaves-same : (f : RegFile) → Leaves f file (ok f)
Leaves-same f = Leaves-ok f file f (FreesAs-refl f)

wake-Leaves :
    (f : RegFile) (cycle lat : ℕ) (time : Timing) (i : Option ℕ) (t : RegType)
    → Leaves f file (wake f cycle lat time i t)
unfolding wake
wake-Leaves f cycle lat time none t = Leaves-same f
wake-Leaves f cycle lat time (some i) t =
    Leaves-if f file (has_dest t) (set_times f i t _ _) (ok f) (set_times-Leaves f i t _ _)
      (Leaves-same f)

forget_times-Leaves :
    (f : RegFile) (i : Option ℕ) (t : RegType) → Leaves f file (forget_times f i t)
unfolding forget_times
forget_times-Leaves f none t = Leaves-same f
forget_times-Leaves f (some i) t =
    Leaves-if f file (has_dest t) (set_times f i t never never) (ok f)
      (set_times-Leaves f i t never never) (Leaves-same f)

store_register-Leaves :
    (f : RegFile) (cycle : ℕ) (time : Timing) (i : Option ℕ) (t : RegType)
    → Leaves f file (store_register f cycle time i t)
unfolding store_register
store_register-Leaves f cycle time none t = Leaves-same f
store_register-Leaves f cycle time (some i) t =
    Leaves-update f file (set_times f i t _ _) (λ f1. move_state is_alloc reg_wb f1 i t)
      (set_times-Leaves f i t _ _)
      (λ g. record { leaves = λ a e. move_state-FreesAs is_alloc reg_wb g i t alloc_to_wb e })

wake_free-Leaves :
    (f : RegFile) (cycle delay : ℕ) (i : Option ℕ) (t : RegType)
    → Leaves f file (wake_free f cycle delay i t)
unfolding wake_free
wake_free-Leaves f cycle delay i t =
    let time : Timing = record { exec_lat = 1; spec_lat = 1; issue_exec_delay = delay } in
    Leaves-check f file (assert _) (λ _. wake f cycle 1 time i t)
      (λ _. wake-Leaves f cycle 1 time i t)

-- the registers updated, and the entry with them
updated-Leaves :
    (f : RegFile) (m : Outcome RegFile) (x : RobEntry)
    → Leaves f file m
    → Leaves f with_entry (m >>= λ g. ok (g, x))
updated-Leaves f m x first =
    Leaves-update f with_entry m (λ g. ok (g, x)) first
      (λ g. Leaves-ok g with_entry (g, x) (FreesAs-refl g))

-- the same behind an event that is queued
started-Leaves :
    (f : RegFile) (q : Outcome (Unit {0})) (m : Outcome RegFile) (x : RobEntry)
    → Leaves f file m
    → Leaves f with_entry (q >>= λ _. m >>= λ g. ok (g, x))
started-Leaves f q m x first =
    Leaves-check f with_entry q (λ _. m >>= λ g. ok (g, x)) (λ _. updated-Leaves f m x first)

kept-Leaves : (f : RegFile) (x : RobEntry) → Leaves f with_entry (ok (f, x))
kept-Leaves f x = Leaves-ok f with_entry (f, x) (FreesAs-refl f)

issue-Leaves :
    (f : RegFile) (cycle : ℕ) (unit_free : Bool) (time : Timing) (rs : RobEntry)
    → Leaves f with_entry (issue f cycle unit_free time rs)
unfolding issue issue_store issue_load issue_unit issue_free
issue-Leaves f cycle u time rs =
    Leaves-if f with_entry (rs.in_lsq && is_store rs.op) (issue_store f cycle time rs) _
      (Leaves-update f with_entry (store_register f cycle time rs.physreg rs.dest_format)
        (λ f1. assert (not rs.recover_inst) >>= λ _.
          ok (f1, record rs { issued = true; completed = true }))
        (store_register-Leaves f cycle time rs.physreg rs.dest_format)
        (λ g.
          Leaves-check g with_entry (assert (not rs.recover_inst))
            (λ _. ok (g, record rs { issued = true; completed = true })) (λ _. kept-Leaves g _)))
      (Leaves-if f with_entry (not (needs_unit rs.op)) (issue_free f cycle time.issue_exec_delay rs)
        _
        (started-Leaves f (queue_event f cycle rs)
          (wake_free f cycle time.issue_exec_delay rs.physreg rs.dest_format) _
          (wake_free-Leaves f cycle time.issue_exec_delay rs.physreg rs.dest_format))
        (Leaves-if f with_entry (not u) (ok (f, record rs { queued = true })) _ (kept-Leaves f _) (
          Leaves-if f with_entry (rs.in_lsq && is_load rs.op) (issue_load f cycle time rs)
            (issue_unit f cycle time rs)
            (started-Leaves f (queue_event f cycle rs)
              (wake f cycle time.spec_lat time rs.physreg rs.dest_format) _
              (wake-Leaves f cycle time.spec_lat time rs.physreg rs.dest_format))
            (started-Leaves f (queue_event f cycle rs)
              (if rs.ea_comp
                then ok f
                else wake f cycle time.exec_lat time rs.physreg rs.dest_format)
              _
              (Leaves-if f file rs.ea_comp (ok f) _ (Leaves-same f)
                (wake-Leaves f cycle time.exec_lat time rs.physreg rs.dest_format))))))

entry_step-Leaves :
    (s : EntryStep) (f : RegFile) (cycle : ℕ) (rs : RobEntry)
    → Leaves f with_entry (entry_step s f cycle rs)
unfolding entry_step
entry_step-Leaves enqueue f cycle rs = Leaves-check f with_entry (assert (not rs.queued)) _ λ _.
    Leaves-check f with_entry (all_operands_spec_ready f cycle rs) _
      λ b. Leaves-check f with_entry (assert b) _ λ _. kept-Leaves f (record rs { queued = true })
entry_step-Leaves (select u time) f cycle rs =
    Leaves-check f with_entry (all_operands_spec_ready f cycle rs) _ λ b.
      Leaves-check f with_entry
        (assert (b && rs.queued && not rs.issued && (has_store_flag rs.op || not rs.completed))) _
        λ _. issue-Leaves f cycle u time (record rs { queued = false })
entry_step-Leaves unissue f cycle rs =
    Leaves-update f with_entry
      (if rs.ea_comp then ok f else forget_times f rs.physreg rs.dest_format) _
      (Leaves-if f file rs.ea_comp (ok f) _ (Leaves-same f)
        (forget_times-Leaves f rs.physreg rs.dest_format))
      λ g. Leaves-check g with_entry (assert (not rs.queued)) _ λ _.
        Leaves-check g with_entry (assert (not rs.completed)) _
          λ _. kept-Leaves g (record rs { issued = false; replayed = true })
entry_step-Leaves unqueue f cycle rs =
    Leaves-check f with_entry (assert (not rs.completed)) _
      λ _. kept-Leaves f (record rs { queued = false; replayed = true })

pub entry_step-FreesAs :
    (s : EntryStep) (f : RegFile) (cycle : ℕ) (rs : RobEntry) {r : RegFile × RobEntry}
    → entry_step s f cycle rs ≡ ok r
    → FreesAs r.0 f
entry_step-FreesAs s f cycle rs h = (entry_step-Leaves s f cycle rs).leaves _ h
