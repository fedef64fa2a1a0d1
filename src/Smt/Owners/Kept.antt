-- ===== src/Smt/Owners/Kept.antt =====
-- Writeback and the scheduling of an entry, and who holds the registers afterwards.
use mathlib.Core.Path.{ap₂}
use smt_register_capping.Base.{
  ℕ, ◌+◌, ◌≡◌, refl, ap, sym, subst, ◌∙◌, ◌&&◌, if◌then◌else◌, ok, read, length, set,
  get_or_of_read, read-lt, ok-injective, >>=-elim, length-set, arith,
}
use smt_register_capping.Isa.Opcode.{RegType}
use smt_register_capping.RegFile.Physical.{RegFile}
use smt_register_capping.Smt.State.{RobEntry, empty_entry, Context, Machine, put_context}
use smt_register_capping.Smt.Commit.{write_back, write_back_rob, write_back_lsq}
use smt_register_capping.Smt.Commit.Freed.{write_back-FreesAs}
use smt_register_capping.Smt.Issue.{EntryStep, entry_step, step_rob, step_lsq}
use smt_register_capping.Smt.Issue.Kept.{Same, entry_step-Same}
use smt_register_capping.Smt.Issue.Freed.{entry_step-FreesAs}
use smt_register_capping.Smt.Invariant.{idle_context}
use smt_register_capping.Smt.Writeback.{renamed_as-same, count-window-set, write_back-completed}
use smt_register_capping.Smt.Owners.{mapped, keeps_old, is_at, held, holders, total-set, IsOwned}
use smt_register_capping.Smt.Owners.Free.{FreesAs}

-- the holders after the context of one thread is replaced
pub holders-update :
    (m m' : Machine) (cid : ℕ) (c c' : Context) (t : RegType) (p : ℕ)
    → read m.contexts cid ≡ ok c
    → m'.contexts ≡ set m.contexts cid c'
    → holders m' t p + held t p c ≡ holders m t p + held t p c'
holders-update m m' cid c c' t p ec e =
    let was = get_or_of_read m.contexts cid idle_context ec in
    rw e
      (rw (← was) (total-set (held t p) m.contexts cid c' idle_context (read-lt m.contexts cid ec)))

kept-IsOwned :
    (m : Machine) (cid : ℕ) (c c' : Context) (f : RegFile)
    → IsOwned m
    → read m.contexts cid ≡ ok c
    → FreesAs f m.regs
    → ((t : RegType) (p : ℕ) → held t p c' ≡ held t p c)
    → IsOwned (put_context (record m { regs = f }) cid c')
kept-IsOwned m cid c c' f v ec fr same = record {
  owned = λ t p.
      let m' = put_context (record m { regs = f }) cid c' in
      let now : holders m' t p ≡ holders m t p =
        omega (arith, holders-update m m' cid c c' t p ec refl, same t p) in
      now ∙ v.owned t p ∙ ap (λ b. if b then 0 else 1) (sym (fr.free_as t p));
}

held-set_rob :
    (c : Context) (i : ℕ) (rs x : RobEntry) (t : RegType) (p : ℕ)
    → read c.rob i ≡ ok rs
    → Same x rs
    → held t p (record c { rob = set c.rob i x }) ≡ held t p c
held-set_rob c i rs x t p er (ep, ef, eo) =
    let seen : keeps_old t p x ≡ keeps_old t p rs =
      ap₂ (λ a o. a && is_at o p) (renamed_as-same t x rs ep ef) eo in
    let was = get_or_of_read c.rob i empty_entry er in
    rw (length-set c.rob i x) (
      ap (λ n. mapped t p 0 c.rename_table + n)
        (count-window-set (keeps_old t p) (length c.rob) c.rob i c.rob_head c.rob_num x
          (seen ∙ ap (keeps_old t p) (sym was))))

pub write_back_rob-IsOwned :
    (m : Machine) (cid i : ℕ) {m' : Machine}
    → IsOwned m
    → write_back_rob m cid i ≡ ok m'
    → IsOwned m'
unfolding write_back_rob
write_back_rob-IsOwned m cid i v h = >>=-elim (read m.contexts cid) _ h λ c ec h1.
    >>=-elim (read c.rob i) _ h1 λ rs er h2.
      >>=-elim (write_back m.regs m.sim_cycle rs) _ h2 λ (r : RegFile × RobEntry) ew h3.
        let done = write_back-completed m.regs m.sim_cycle rs ew in
        subst IsOwned (ok-injective h3) (
          kept-IsOwned m cid c _ r.0 v ec (write_back-FreesAs m.regs m.sim_cycle rs ew) (λ t p.
            held-set_rob c i rs r.1 t p er (
              ap (λ (t : RobEntry). t.physreg) done,
              ap (λ (t : RobEntry). t.dest_format) done,
              ap (λ (t : RobEntry). t.old_physreg) done,
            )))

pub write_back_lsq-IsOwned :
    (m : Machine) (cid i : ℕ) {m' : Machine}
    → IsOwned m
    → write_back_lsq m cid i ≡ ok m'
    → IsOwned m'
unfolding write_back_lsq
write_back_lsq-IsOwned m cid i v h = >>=-elim (read m.contexts cid) _ h λ c ec h1.
    >>=-elim (read c.lsq i) _ h1 λ rs er h2.
      >>=-elim (write_back m.regs m.sim_cycle rs) _ h2 λ (r : RegFile × RobEntry) ew h3.
        subst IsOwned (ok-injective h3) (
          kept-IsOwned m cid c _ r.0 v ec (write_back-FreesAs m.regs m.sim_cycle rs ew)
            (λ t p. refl))

pub step_rob-IsOwned :
    (s : EntryStep) (m : Machine) (cid i : ℕ) {m' : Machine}
    → IsOwned m
    → step_rob s m cid i ≡ ok m'
    → IsOwned m'
unfolding step_rob
step_rob-IsOwned s m cid i v h = >>=-elim (read m.contexts cid) _ h λ c ec h1.
    >>=-elim (read c.rob i) _ h1 λ rs er h2.
      >>=-elim (entry_step s m.regs m.sim_cycle rs) _ h2 λ (r : RegFile × RobEntry) ew h3.
        subst IsOwned (ok-injective h3) (
          kept-IsOwned m cid c _ r.0 v ec (entry_step-FreesAs s m.regs m.sim_cycle rs ew)
            (λ t p. held-set_rob c i rs r.1 t p er (entry_step-Same s m.regs m.sim_cycle rs ew)))

pub step_lsq-IsOwned :
    (s : EntryStep) (m : Machine) (cid i : ℕ) {m' : Machine}
    → IsOwned m
    → step_lsq s m cid i ≡ ok m'
    → IsOwned m'
unfolding step_lsq
step_lsq-IsOwned s m cid i v h = >>=-elim (read m.contexts cid) _ h λ c ec h1.
    >>=-elim (read c.lsq i) _ h1 λ rs er h2.
      >>=-elim (entry_step s m.regs m.sim_cycle rs) _ h2 λ (r : RegFile × RobEntry) ew h3.
        subst IsOwned (ok-injective h3) (
          kept-IsOwned m cid c _ r.0 v ec (entry_step-FreesAs s m.regs m.sim_cycle rs ew)
            (λ t p. refl))
