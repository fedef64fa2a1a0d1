-- ===== src/Smt/Owners/Rename.antt =====
-- Renaming, and who holds the registers afterwards.
use mathlib.Core.Path.{ap₂}
use smt_register_capping.Base.{
  ℕ, ◌+◌, ◌<◌, ◌≡◌, refl, ap, sym, subst, ◌∙◌, Bool, true, false, ◌&&◌, ◌==◌, if◌then◌else◌, List,
  [], ◌∷◌, none, some, ok, read, length, set, read-lt, get_or_of_read, read_of_lt, count_if,
  count_if-append, find_index-some, arith,
}
use smt_register_capping.Isa.Opcode.{RegType, reg_none, reg_int, reg_fp}
use smt_register_capping.RegFile.Physical.{
  RegFile, Renaming, bank, is_free, fresh_physreg, find_free_physreg,
}
use smt_register_capping.RegFile.Physical.Alloc.{Allocates, taken}
use smt_register_capping.Smt.State.{RobEntry, Context, Machine, rob_entries}
use smt_register_capping.Smt.Rename.{Executed, renamed, rename_inst, push_rob, agen}
use smt_register_capping.Smt.Rename.Effect.{Destined, kept, given, undestined, counted_dcra}
use smt_register_capping.Smt.Rename.Steps.{Installed, plain, paired, Stages, rename_inst-Stages}
use smt_register_capping.Smt.Rename.Capped.{Counts, Destined-Counts, queues-room}
use smt_register_capping.Smt.Invariant.{
  HasRings, IsCounted, IsCapped, renamed_as, idle_context, thread, counter,
}
use smt_register_capping.Smt.Queues.{rob_entries-push}
use smt_register_capping.Smt.Writeback.{renamed_as-same}
use smt_register_capping.Smt.Owners.{
  in_file, mapped, at, mapped-set, keeps_old, is_at, held, holders, free_at, IsOwned,
}
use smt_register_capping.Smt.Owners.Free.{same_file, free_at-write, free_at-same_file}
use smt_register_capping.Smt.Owners.Kept.{holders-update}

abbrev pub one_if : Bool → ℕ
one_if b = if b then 1 else 0

-- a destination is renamed in one file
in_file-same : (s t : RegType) (a : ℕ) → in_file t a ≡ true → in_file s a ≡ same_file t s
in_file-same reg_none reg_none a e = e
in_file-same reg_none reg_int a e = ground arith
in_file-same reg_none reg_fp a e = e
in_file-same reg_int reg_none a e = ground arith
in_file-same reg_int reg_int a e = e
in_file-same reg_int reg_fp a e = ground arith
in_file-same reg_fp reg_none a e = e
in_file-same reg_fp reg_int a e = ground arith
in_file-same reg_fp reg_fp a e = e

-- an instruction with a destination in the file of `t` is counted there
renamed_as-same_file :
    (s : RegType) (e : RobEntry) (new : ℕ)
    → e.physreg ≡ some new
    → renamed_as s e ≡ same_file e.dest_format s
renamed_as-same_file reg_none e new h = ground arith
renamed_as-same_file reg_int e new h = ground arith
renamed_as-same_file reg_fp e new h = ground arith

renamed_as-none : (s : RegType) (e : RobEntry) → e.physreg ≡ none → renamed_as s e ≡ false
renamed_as-none reg_none e h = ground arith
renamed_as-none reg_int e h = ground arith
renamed_as-none reg_fp e h = ground arith

pub keeps_old-some :
    (s : RegType) (p : ℕ) (e : RobEntry) (new old : ℕ)
    → e.physreg ≡ some new
    → e.old_physreg ≡ some old
    → keeps_old s p e ≡ (same_file e.dest_format s && old == p)
keeps_old-some s p e new old h k = ap₂ (λ b o. b && is_at o p) (renamed_as-same_file s e new h) k

pub keeps_old-none :
    (s : RegType) (p : ℕ) (e : RobEntry) → e.physreg ≡ none → keeps_old s p e ≡ false
keeps_old-none s p e h = ap (λ b. b && is_at e.old_physreg p) (renamed_as-none s e h)

-- what an installed entry adds to the holders
push_rob-held :
    (s : RegType) (p : ℕ) (c : Context) (e : RobEntry)
    → HasRings c
    → c.rob_num < length c.rob
    → held s p (push_rob c e) ≡ held s p c + one_if (keeps_old s p e)
push_rob-held s p c e rings room =
    rw (rob_entries-push c e rings room)
      (omega (arith, count_if-append (keeps_old s p) (rob_entries c) (e ∷ [])))

Installed-held :
    (s : RegType) (p : ℕ) (c1 : Context) (rs1 : RobEntry) (c' : Context)
    → HasRings c1
    → c1.rob_num < length c1.rob
    → Installed c1 rs1 c'
    → held s p c' ≡ held s p c1 + one_if (keeps_old s p rs1)
Installed-held s p c1 rs1 c' rings room (plain e) = rw e (push_rob-held s p c1 rs1 rings room)
Installed-held s p c1 rs1 c' rings room (paired l _ _ _ _ _ _ e) =
    let same : keeps_old s p (agen rs1 c1.lsq_tail) ≡ keeps_old s p rs1 =
      ap (λ b. b && is_at rs1.old_physreg p)
        (renamed_as-same s (agen rs1 c1.lsq_tail) rs1 refl refl) in
    ap (held s p) e
    ∙ push_rob-held s p c1 (agen rs1 c1.lsq_tail) rings room
    ∙ ap (λ b. held s p c1 + one_if b) same

-- the register taken was free, and its index is in the file
free_found :
    (f : RegFile) (t : RegType) (i : ℕ)
    → find_free_physreg f t ≡ some i
    → (i < length (bank f t)) × (free_at f t i ≡ true)
unfolding find_free_physreg
free_found f t i h = find_index-some is_free (bank f t) i fresh_physreg h

-- the rename table after an allocation
remapped :
    (s t : RegType) (p a cycle : ℕ) (f : RegFile) (table : List ℕ) (r : Renaming)
    → in_file t a ≡ true
    → Allocates f t a cycle table r
    → mapped s p 0 r.rename_table + one_if (same_file t s && r.old_physreg == p)
      ≡ mapped s p 0 table + one_if (same_file t s && r.physreg == p)
remapped s t p a cycle f table r inside al =
    let start : 0 + a ≡ a = omega arith in
    let old = get_or_of_read table a 0 al.old in
    let step = mapped-set s p 0 table a r.physreg (read-lt table a al.old) in
    let step' : mapped s p 0 (set table a r.physreg) + at s p a r.old_physreg
        ≡ mapped s p 0 table + at s p a r.physreg =
      rw (start, old) at step in
    let side = in_file-same s t a inside in rw al.mapped (rw side at step')

counted_dcra-same :
    (t : RegType) (c : Context)
    → (rob_entries (counted_dcra t c) ≡ rob_entries c)
      × ((counted_dcra t c).rename_table ≡ c.rename_table)
counted_dcra-same reg_none c = (refl, refl)
counted_dcra-same reg_int c = (refl, refl)
counted_dcra-same reg_fp c = (refl, refl)

-- what the renaming of the destination does to the holders of a register, with the old mapping that
-- the new entry keeps, and to the free registers
record Takes (m : Machine) (c : Context) (m1 : Machine) (c1 : Context) (rs1 : RobEntry)
    (s : RegType) (p : ℕ) : Type 0 where
  new : Bool
  holds : held s p c1 + one_if (keeps_old s p rs1) ≡ held s p c + one_if new
  was_free : new ≡ true → free_at m.regs s p ≡ true
  now_free : free_at m1.regs s p ≡ (if new then false else free_at m.regs s p)

kept-Takes :
    (m : Machine) (c : Context) (rs : RobEntry) (s : RegType) (p : ℕ)
    → Takes m c m c (undestined rs) s p
kept-Takes m c rs s p = record {
  new = false;
  holds = ap (λ b. held s p c + one_if b) (keeps_old-none s p (undestined rs) refl);
  was_free = λ e. cc;
  now_free = refl;
}

given-Takes :
    (t : RegType) (m : Machine) (cid count : ℕ) (c : Context) (rs rs1 : RobEntry) (r : Renaming)
    (s : RegType) (p : ℕ)
    → in_file t rs.archreg ≡ true
    → Allocates m.regs t rs.archreg m.sim_cycle c.rename_table r
    → rs1.physreg ≡ some r.physreg
    → rs1.old_physreg ≡ some r.old_physreg
    → rs1.dest_format ≡ t
    → Takes m c
        (record m { regs = r.regs; reg_counter = set m.reg_counter cid (count + 1) })
        (record (counted_dcra t c) { rename_table = r.rename_table })
        rs1
        s
        p
given-Takes t m cid count c rs rs1 r s p inside al ep eo ef =
    let (within, free) = free_found m.regs t r.physreg al.free in
    let table = remapped s t p rs.archreg m.sim_cycle m.regs c.rename_table r inside al in
    let old = keeps_old-some s p rs1 r.physreg r.old_physreg ep eo in
    let old' : keeps_old s p rs1 ≡ (same_file t s && r.old_physreg == p) =
      old ∙ ap (λ d. same_file d s && r.old_physreg == p) ef in
    let entries = (counted_dcra-same t c).0 in
    record {
      new = same_file t s && r.physreg == p;
      holds = rw old' (
          ap
            (λ es.
              mapped s p 0 r.rename_table
              + count_if (keeps_old s p) es
              + one_if (same_file t s && r.old_physreg == p))
            entries
          ∙ omega (arith, table));
      was_free = λ e.
          let one : same_file t s ≡ true = ground arith in
          let two : r.physreg ≡ p = ground arith in
          free_at-same_file m.regs s t p one ∙ ap (free_at m.regs t) (sym two) ∙ free;
      now_free =
          ap (λ f. free_at f s p) al.regs
          ∙ free_at-write m.regs s t r.physreg p (taken m.sim_cycle) within;
    }

Destined-Takes :
    (m : Machine) (cid : ℕ) (c : Context) (rs : RobEntry) (m1 : Machine) (c1 : Context)
    (rs1 : RobEntry) (s : RegType) (p : ℕ)
    → Destined m cid c rs m1 c1 rs1
    → Takes m c m1 c1 rs1 s p
Destined-Takes m cid c rs m1 c1 rs1 s p (kept e1 e2 e3) = rw (e1, e2, e3) (kept-Takes m c rs s p)
Destined-Takes m cid c rs m1 c1 rs1 s p (given t r count index ne dest inside al er e1 e2 e3) =
    rw (e1, e2)
      (given-Takes t m cid count c rs rs1 r s p inside al (ap (λ (e : RobEntry). e.physreg) e3)
        (ap (λ (e : RobEntry). e.old_physreg) e3) (ap (λ (e : RobEntry). e.dest_format) e3))

balance :
    (new free : Bool) (n n' : ℕ)
    → n ≡ (if free then 0 else 1)
    → n' ≡ n + one_if new
    → (new ≡ true → free ≡ true)
    → n' ≡ (if (if new then false else free) then 0 else 1)
balance true free n n' e e' h = let f = h refl in ground arith
balance false free n n' e e' h = ground arith

Stages-IsOwned :
    (m : Machine) (cid : ℕ) (x : Executed) (c : Context) (m' : Machine)
    → cid < m.num_contexts
    → read m.contexts cid ≡ ok c
    → IsCapped m
    → IsOwned m
    → Stages m cid x c m'
    → IsOwned m'
Stages-IsOwned m cid x c m' lt ec v o s = record {
  owned = λ t p.
      let k = Destined-Takes m cid c s.rs s.m1 s.c1 s.rs1 t p s.destined in
      let joined = Installed-held t p s.c1 s.rs1 s.c' counts.rings room s.installed in
      let update = holders-update m m' cid c s.c' t p ec same in
      let more : holders m' t p ≡ holders m t p + one_if k.new = omega (arith, k.holds) in
      balance k.new (free_at m.regs t p) (holders m t p) (holders m' t p) (o.owned t p) more
        k.was_free
      ∙ ap (λ b. if b then 0 else 1) (sym (ap (λ f. free_at f t p) s.same_regs ∙ k.now_free));
}
  where
    is_thread : thread m cid ≡ c
    is_thread = get_or_of_read m.contexts cid idle_context ec

    counts : Counts m cid c s.m1 s.c1 s.rs1 (counter m cid)
    counts =
        Destined-Counts m cid c x.op s.rs s.m1 s.c1 s.rs1 (counter m cid) lt
          (subst HasRings is_thread (v.rings cid lt))
          (subst (λ t. IsCounted t (counter m cid)) is_thread (v.counts cid lt))
          (read_of_lt m.reg_counter cid 0 (omega (arith, v.fits.counters, v.fits.few)))
          s.fresh.opcode s.granted s.destined

    room : s.c1.rob_num < length s.c1.rob
    room = omega (arith, counts.room_rob, (queues-room c s.room).0)

    same : m'.contexts ≡ set m.contexts cid s.c'
    same = s.same_contexts ∙ ap (λ l. set l cid s.c') counts.contexts

-- Renaming an instruction of a thread of the machine, when it does not abort, keeps every register
-- that is not free held exactly once, and every free one unheld.
pub rename_inst-IsOwned :
    (m : Machine) (cid : ℕ) (x : Executed) {m' : Machine}
    → cid < m.num_contexts
    → IsCapped m
    → IsOwned m
    → rename_inst m cid x ≡ ok (renamed m')
    → IsOwned m'
rename_inst-IsOwned m cid x {m'} lt v o h =
    let (c, e, s) = rename_inst-Stages m cid x lt h in Stages-IsOwned m cid x c m' lt e v o s
