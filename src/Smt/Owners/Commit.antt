-- ===== src/Smt/Owners/Commit.antt =====
-- Committing, and who holds the registers afterwards.
use smt_register_capping.Base.{
  ℕ, ◌+◌, ◌<◌, ◌≡◌, ◌≢◌, refl, ap, sym, ◌∙◌, Bool, true, false, ◌&&◌, ◌==◌, if◌then◌else◌, ◌∷◌, ok,
  read, set, get_or_of_read, read-lt, count_if, arith,
}
use smt_register_capping.Isa.Opcode.{RegType, reg_none, reg_int, reg_fp}
use smt_register_capping.RegFile.Physical.{
  PhysReg, bank, is_free, is_arch, is_wb, reg_free, reg_arch,
}
use smt_register_capping.Smt.State.{RobEntry, empty_entry, Context, Machine, rob_entries}
use smt_register_capping.Smt.Commit.{uncount_dcra, pop_rob, commits, commit_one}
use smt_register_capping.Smt.Commit.Steps.{
  LsqRetired, no_access, access, Released, no_register, freed, Commits, commit_one-Commits,
}
use smt_register_capping.Smt.Commit.Capped.{SameRob, lsq-SameRob}
use smt_register_capping.Smt.Commit.Freed.{move_state-FreesAs}
use smt_register_capping.Smt.Queues.{rob_entries-pop}
use smt_register_capping.Smt.Owners.{keeps_old, held, holders, free_at, IsOwned}
use smt_register_capping.Smt.Owners.Free.{same_file, free_at-write, move_state-Wrote}
use smt_register_capping.Smt.Owners.Kept.{holders-update}
use smt_register_capping.Smt.Owners.Rename.{keeps_old-some, keeps_old-none, one_if}

lsq-held :
    (s : RegType) (p : ℕ) (c : Context) (rs : RobEntry) (c0 : Context)
    → LsqRetired c rs c0
    → held s p c0 ≡ held s p c
lsq-held s p c rs c0 (no_access _ e) = ap (held s p) e
lsq-held s p c rs c0 (access l _ _ _ _ e) = ap (held s p) e

pop-held :
    (s : RegType) (p : ℕ) (c : Context) (rs : RobEntry)
    → c.rob_num ≢ 0
    → read c.rob c.rob_head ≡ ok rs
    → held s p c ≡ held s p (pop_rob c) + one_if (keeps_old s p rs)
pop-held s p c rs ne h =
    let e = get_or_of_read c.rob c.rob_head empty_entry h in
    let es : rob_entries c ≡ rs ∷ rob_entries (pop_rob c) =
      rob_entries-pop c ne ∙ ap (λ t. t ∷ rob_entries (pop_rob c)) e in
    omega (arith, ap (count_if (keeps_old s p)) es)

uncount-held :
    (s : RegType) (p : ℕ) (t : RegType) (c : Context)
    → held s p (pop_rob (uncount_dcra t c)) ≡ held s p (pop_rob c)
uncount-held s p reg_none c = refl
uncount-held s p reg_int c = refl
uncount-held s p reg_fp c = refl

wb_to_arch : (r : PhysReg) → is_wb r ≡ true → is_free (record r { state = reg_arch }) ≡ is_free r
wb_to_arch r e = ground arith

-- what the release of the registers does to the holders of a register
record Gives (m : Machine) (c : Context) (rs : RobEntry) (m1 : Machine) (c1 : Context) (s : RegType)
    (p : ℕ) : Type 0 where
  gone : Bool
  entry : keeps_old s p rs ≡ gone
  holds : held s p (pop_rob c1) ≡ held s p (pop_rob c)
  contexts : m1.contexts ≡ m.contexts
  now_free : free_at m1.regs s p ≡ (if gone then true else free_at m.regs s p)

Released-Gives :
    (m : Machine) (cid : ℕ) (c : Context) (rs : RobEntry) (m1 : Machine) (c1 : Context)
    (s : RegType) (p : ℕ)
    → Released m cid c rs m1 c1
    → Gives m c rs m1 c1 s p
Released-Gives m cid c rs m1 c1 s p (no_register e em ec) =
    rw (em, ec)
      (record {
        gone = false;
        entry = keeps_old-none s p rs e;
        holds = refl;
        contexts = refl;
        now_free = refl;
      })
Released-Gives m cid c rs m1 c1 s p (freed new old count f1 f2 e eo h1 h2 er em ec) =
    let (r, _, w) = move_state-Wrote is_arch reg_free m.regs old rs.dest_format h1 in
    let after = move_state-FreesAs is_wb reg_arch f1 new rs.dest_format wb_to_arch h2 in
    let freed_at : free_at f1 s p
        ≡ (if same_file rs.dest_format s && old == p then true else free_at m.regs s p) =
      ap (λ f. free_at f s p) w.now
      ∙ free_at-write m.regs s rs.dest_format old p (record r { state = reg_free })
          (read-lt (bank m.regs rs.dest_format) old w.was) in
    record {
      gone = same_file rs.dest_format s && old == p;
      entry = keeps_old-some s p rs new old e eo;
      holds = ap (λ u. held s p (pop_rob u)) ec ∙ uncount-held s p rs.dest_format c;
      contexts = ap (λ (u : Machine). u.contexts) em;
      now_free = ap (λ (u : Machine). free_at u.regs s p) em ∙ after.free_as s p ∙ freed_at;
    }

balance :
    (gone free : Bool) (n n' : ℕ)
    → n ≡ (if free then 0 else 1)
    → n' + one_if gone ≡ n
    → n' ≡ (if (if gone then true else free) then 0 else 1)
balance true true n n' e h = absurd (omega arith)
balance true false n n' e h = omega arith
balance false free n n' e h = ground arith

Commits-IsOwned :
    (m : Machine) (cid : ℕ) (c : Context) (m' : Machine)
    → read m.contexts cid ≡ ok c
    → IsOwned m
    → Commits m cid c m'
    → IsOwned m'
Commits-IsOwned m cid c m' ec o s = record {
  owned = λ t p.
      let g = Released-Gives m cid s.c0 s.rs s.m1 s.c1 t p s.released in
      let contexts : m'.contexts ≡ set m.contexts cid (pop_rob s.c1) =
        ap (λ (u : Machine). u.contexts) s.result ∙ ap (λ l. set l cid (pop_rob s.c1)) g.contexts in
      let update = holders-update m m' cid c (pop_rob s.c1) t p ec contexts in
      let fewer : holders m' t p + one_if g.gone ≡ holders m t p = omega (
        arith,
        g.holds,
        lsq-held t p c s.rs s.c0 s.lsq,
        pop-held t p s.c0 s.rs busy0 head0,
        ap one_if g.entry,
      ) in
      balance g.gone (free_at m.regs t p) (holders m t p) (holders m' t p) (o.owned t p) fewer
      ∙ ap (λ b. if b then 0 else 1)
          (sym (ap (λ (u : Machine). free_at u.regs t p) s.result ∙ g.now_free));
}
  where
    same : SameRob c s.c0
    same = lsq-SameRob c s.rs s.c0 s.lsq

    busy0 : s.c0.rob_num ≢ 0
    busy0 e = s.busy (sym same.num ∙ e)

    head0 : read s.c0.rob s.c0.rob_head ≡ ok s.rs
    head0 = ap (λ l. read l s.c0.rob_head) same.rob ∙ ap (read c.rob) same.head ∙ s.head

-- Committing an instruction of a thread of the machine, when it does not abort, keeps every register
-- that is not free held exactly once, and every free one unheld.
pub commit_one-IsOwned :
    (m : Machine) (cid : ℕ) (port : Bool) {m' : Machine}
    → cid < m.num_contexts
    → IsOwned m
    → commit_one m cid port ≡ ok (commits m')
    → IsOwned m'
commit_one-IsOwned m cid port {m'} lt o h =
    let (c, e, s) = commit_one-Commits m cid port lt h in Commits-IsOwned m cid c m' e o s
