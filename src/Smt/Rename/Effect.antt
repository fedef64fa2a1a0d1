-- ===== src/Smt/Rename/Effect.antt =====
-- What the renaming of a destination changes.
use smt_register_capping.Base.{
  ℕ, ◌+◌, ◌%◌, ◌^◌, ◌<◌, ◌≡◌, ◌≢◌, subst, ap, ◌∙◌, true, Option, none, some, ok, inl, inr,
  Outcome-cases, read, set, arith, >>=-elim,
}
use smt_register_capping.Isa.Opcode.{RegType, reg_none, reg_int, reg_fp}
use smt_register_capping.RegFile.RegSet.{get_reg_set}
use smt_register_capping.RegFile.Physical.{Renaming, alloc_physreg, size}
use smt_register_capping.RegFile.Physical.Alloc.{Allocates, alloc_physreg-Allocates}
use smt_register_capping.Smt.State.{RobEntry, Context, Machine}
use smt_register_capping.Smt.Cap.{reg_counter_incref}
use smt_register_capping.Smt.Owners.{in_file}
use smt_register_capping.Smt.Rename.Index.{dest_index-in_file}
use smt_register_capping.Smt.Rename.{Executed, count_dcra, dest_index, rename_dest}

abbrev pub undestined : RobEntry → RobEntry
undestined rs = record rs { physreg = none; old_physreg = none; dest_format = reg_none }

abbrev pub counted_dcra : RegType → Context → Context
counted_dcra reg_int c = record c { dcra_int_rf = (c.dcra_int_rf + 1) % 2 ^ 32 }
counted_dcra _ c = record c { dcra_fp_rf = (c.dcra_fp_rf + 1) % 2 ^ 32 }

-- Either nothing is renamed, or a free register of the destination's type is taken, the counter of
-- the thread goes up by one, and the rename table maps the destination to the register.
pub data Destined (m : Machine) (cid : ℕ) (c : Context) (rs : RobEntry) (m1 : Machine)
    (c1 : Context) (rs1 : RobEntry) : Type 0 where
  kept : m1 ≡ m → c1 ≡ c → rs1 ≡ undestined rs → Destined m cid c rs m1 c1 rs1
  given :
      (t : RegType) (r : Renaming) (count : ℕ) (index : Option ℕ)
      → t ≢ reg_none
      → (get_reg_set rs.op).dest ≡ t
      → in_file t rs.archreg ≡ true
      → Allocates m.regs t rs.archreg m.sim_cycle c.rename_table r
      → read m.reg_counter cid ≡ ok count
      → m1 ≡ record m { regs = r.regs; reg_counter = set m.reg_counter cid (count + 1) }
      → c1 ≡ record (counted_dcra t c) { rename_table = r.rename_table }
      → rs1 ≡ record rs {
        physreg = some r.physreg;
        old_physreg = some r.old_physreg;
        dest_format = t;
        regs_index = index;
      }
      → Destined m cid c rs m1 c1 rs1

incref_read :
    (m : Machine) (cid : ℕ) {m1 : Machine}
    → cid < m.num_contexts
    → reg_counter_incref m cid ≡ ok m1
    → (count : ℕ) × (read m.reg_counter cid ≡ ok count)
      × (m1 ≡ record m { reg_counter = set m.reg_counter cid (count + 1) })
unfolding reg_counter_incref
incref_read m cid lt h = elim (Outcome-cases (read m.reg_counter cid)) [
  | inl e ↦ absurd (ground arith)
  | inr (count, e) ↦ (count, e, ground arith)
]

count_dcra_eq :
    (t : RegType) (c c1 : Context) (limit : ℕ)
    → count_dcra t c limit ≡ ok c1
    → c1 ≡ counted_dcra t c
unfolding count_dcra
count_dcra_eq reg_none c c1 limit h = ground arith
count_dcra_eq reg_int c c1 limit h = ground arith
count_dcra_eq reg_fp c c1 limit h = ground arith

-- the four steps of the renaming, put together
renamed-Destined :
    (t : RegType) (m : Machine) (cid : ℕ) (c : Context) (rs : RobEntry) (c' : Context)
    (index : Option ℕ) (r : Renaming) (m' : Machine) {m1 : Machine} {c1 : Context} {rs1 : RobEntry}
    → t ≢ reg_none
    → (get_reg_set rs.op).dest ≡ t
    → in_file t rs.archreg ≡ true
    → cid < m.num_contexts
    → c' ≡ counted_dcra t c
    → c'.rename_table ≡ c.rename_table
    → alloc_physreg m.regs rs.op rs.archreg m.sim_cycle c'.rename_table ≡ ok r
    → reg_counter_incref (record m { regs = r.regs }) cid ≡ ok m'
    → m1 ≡ m'
    → c1 ≡ record c' { rename_table = r.rename_table }
    → rs1 ≡ record rs {
      physreg = some r.physreg;
      old_physreg = some r.old_physreg;
      dest_format = t;
      regs_index = index;
    }
    → Destined m cid c rs m1 c1 rs1
renamed-Destined t m cid c rs c' index r m' ne dest inside lt ec et ea ei em e1 er =
    let (count, er', e4) = incref_read (record m { regs = r.regs }) cid lt ei in
    given t r count index ne dest inside
      (subst (λ u. Allocates m.regs t rs.archreg m.sim_cycle u r) et
        (subst (λ u. Allocates m.regs u rs.archreg m.sim_cycle c'.rename_table r) dest
          (alloc_physreg-Allocates m.regs rs.op rs.archreg m.sim_cycle c'.rename_table ea)))
      er' (em ∙ e4) (e1 ∙ ap (λ (u : Context). record u { rename_table = r.rename_table }) ec) er

pub rename_dest-Destined :
    (t : RegType) (m : Machine) (cid : ℕ) (c : Context) (x : Executed) (rs : RobEntry)
    {m1 : Machine} {c1 : Context} {rs1 : RobEntry}
    → (get_reg_set rs.op).dest ≡ t
    → cid < m.num_contexts
    → rename_dest t m cid c x rs ≡ ok (m1, c1, rs1)
    → Destined m cid c rs m1 c1 rs1
unfolding rename_dest
rename_dest-Destined reg_none m cid c x rs e lt h =
    kept (ground arith) (ground arith) (ground arith)
rename_dest-Destined reg_int m cid c x rs e lt h =
    >>=-elim (count_dcra reg_int c (size m.regs)) _ h λ c' e1 h1.
      >>=-elim (dest_index reg_int x.inst rs.archreg) _ h1 λ index e2 h2.
        >>=-elim (alloc_physreg m.regs rs.op rs.archreg m.sim_cycle c'.rename_table) _ h2 λ r e3 h3.
          >>=-elim (reg_counter_incref (record m { regs = r.regs }) cid) _ h3 λ m' e4 h4.
            let ec = count_dcra_eq reg_int c c' (size m.regs) e1 in
            renamed-Destined reg_int m cid c rs c' index r m' (λ b. cc) e
              (dest_index-in_file reg_int x.inst rs.archreg (λ b. cc) e2) lt ec
              (ap (λ (u : Context). u.rename_table) ec) e3 e4 (ground arith) (ground arith)
              (ground arith)
rename_dest-Destined reg_fp m cid c x rs e lt h =
    >>=-elim (count_dcra reg_fp c (size m.regs)) _ h λ c' e1 h1.
      >>=-elim (dest_index reg_fp x.inst rs.archreg) _ h1 λ index e2 h2.
        >>=-elim (alloc_physreg m.regs rs.op rs.archreg m.sim_cycle c'.rename_table) _ h2 λ r e3 h3.
          >>=-elim (reg_counter_incref (record m { regs = r.regs }) cid) _ h3 λ m' e4 h4.
            let ec = count_dcra_eq reg_fp c c' (size m.regs) e1 in
            renamed-Destined reg_fp m cid c rs c' index r m' (λ b. cc) e
              (dest_index-in_file reg_fp x.inst rs.archreg (λ b. cc) e2) lt ec
              (ap (λ (u : Context). u.rename_table) ec) e3 e4 (ground arith) (ground arith)
              (ground arith)
