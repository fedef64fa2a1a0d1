-- ===== src/Smt/Commit/Steps.antt =====
-- What a successful commit of one ROB entry has gone through.
use smt_register_capping.Base.{
  ℕ, ◌-◌, ◌<◌, ◌≡◌, ◌≢◌, refl, ap, sym, ◌∙◌, Bool, true, false, not, ◌==◌, ltb, if◌then◌else◌,
  Bool-cases, inl, inr, Option, none, some, Outcome, ok, assert, read, set, arith, >>=-elim,
  ok-injective, set_of_read, Outcome-cases,
}
use smt_register_capping.RegFile.Physical.{RegFile, reg_free, reg_arch, is_arch, is_wb}
use smt_register_capping.Smt.State.{RobEntry, Context, Machine, put_context}
use smt_register_capping.Smt.Cap.{reg_counter_decref_if_positive}
use smt_register_capping.Smt.Commit.{
  move_state, uncount_dcra, old_mapping, release_registers, pop_rob, pop_lsq, retire_lsq, Committed,
  waits, commits, retire, commit_one,
}

-- the LSQ part: nothing, or the completed entry at the head has left
pub data LsqRetired (c : Context) (rs : RobEntry) (c0 : Context) : Type 0 where
  no_access : rs.ea_comp ≡ false → c0 ≡ c → LsqRetired c rs c0
  access :
      (l : RobEntry)
      → rs.ea_comp ≡ true
      → c.lsq_num ≢ 0
      → read c.lsq c.lsq_head ≡ ok l
      → l.completed ≡ true
      → c0 ≡ pop_lsq c
      → LsqRetired c rs c0

-- the register part: nothing, or the old register is freed and the new one is architectural
pub data Released (m : Machine) (cid : ℕ) (c : Context) (rs : RobEntry) (m1 : Machine)
    (c1 : Context) : Type 0 where
  no_register : rs.physreg ≡ none → m1 ≡ m → c1 ≡ c → Released m cid c rs m1 c1
  freed :
      (new old count : ℕ) (f1 f2 : RegFile)
      → rs.physreg ≡ some new
      → rs.old_physreg ≡ some old
      → move_state is_arch reg_free m.regs old rs.dest_format ≡ ok f1
      → move_state is_wb reg_arch f1 new rs.dest_format ≡ ok f2
      → read m.reg_counter cid ≡ ok count
      → m1 ≡ record m { regs = f2; reg_counter = set m.reg_counter cid (count - 1) }
      → c1 ≡ uncount_dcra rs.dest_format c
      → Released m cid c rs m1 c1

-- the stages of a commit of thread `cid`, whose context was `c`
pub record Commits (m : Machine) (cid : ℕ) (c : Context) (m' : Machine) : Type 0 where
  pub busy : c.rob_num ≢ 0
  pub rs : RobEntry
  pub head : read c.rob c.rob_head ≡ ok rs
  pub done : rs.completed ≡ true
  pub c0 : Context
  pub lsq : LsqRetired c rs c0
  pub m1 : Machine
  pub c1 : Context
  pub released : Released m cid c0 rs m1 c1
  pub result : m' ≡ put_context m1 cid (pop_rob c1)

decref_read :
    (m : Machine) (cid : ℕ) {m1 : Machine}
    → cid < m.num_contexts
    → reg_counter_decref_if_positive m cid ≡ ok m1
    → (count : ℕ) × (read m.reg_counter cid ≡ ok count)
      × (m1 ≡ record m { reg_counter = set m.reg_counter cid (count - 1) })
unfolding reg_counter_decref_if_positive
decref_read m cid {m1} lt h = elim (Outcome-cases (read m.reg_counter cid)) [
  | inl e ↦ absurd (ground arith)
  | inr (count, e) ↦ (
    count,
    e,
    elim (Bool-cases (ltb 0 count)) [
      | inl pos ↦ ground arith
      | inr nil ↦
          let same : set m.reg_counter cid (count - 1) ≡ m.reg_counter =
            ap (set m.reg_counter cid) (ground arith) ∙ set_of_read m.reg_counter cid e in
          rw same (ground arith)
    ],
  )
]

old_mapping-some : (o : Option ℕ) {i : ℕ} → old_mapping o ≡ ok i → o ≡ some i
old_mapping-some none h = cc
old_mapping-some (some j) h = cc

release_registers-Released :
    (m : Machine) (cid : ℕ) (c : Context) (rs : RobEntry) (p : Option ℕ) {r : Machine × Context}
    → cid < m.num_contexts
    → rs.physreg ≡ p
    → release_registers m cid c rs p ≡ ok r
    → Released m cid c rs r.0 r.1
unfolding release_registers
release_registers-Released m cid c rs none lt e h =
    no_register e (sym (ap (λ (t : Machine × Context). t.0) (ok-injective h)))
      (sym (ap (λ (t : Machine × Context). t.1) (ok-injective h)))
release_registers-Released m cid c rs (some new) {r} lt e h =
    >>=-elim (old_mapping rs.old_physreg) _ h λ old e1 h1.
      >>=-elim (move_state is_arch reg_free m.regs old rs.dest_format) _ h1 λ f1 e2 h2.
        >>=-elim (reg_counter_decref_if_positive (record m { regs = f1 }) cid) _ h2 λ m1 e3 h3.
          >>=-elim (move_state is_wb reg_arch m1.regs new rs.dest_format) _ h3 λ f2 e4 h4.
            let (count, er, em) = decref_read (record m { regs = f1 }) cid lt e3 in
            let regs_same : m1.regs ≡ f1 = ap (λ (u : Machine). u.regs) em in
            let e4' : move_state is_wb reg_arch f1 new rs.dest_format ≡ ok f2 =
              rw regs_same at e4 in
            let result = sym (ok-injective h4) in
            freed new old count f1 f2 e (old_mapping-some rs.old_physreg e1) e2 e4' er
              (ap (λ (t : Machine × Context). t.0) result
                ∙ ap (λ (u : Machine). record u { regs = f2 }) em)
              (ap (λ (t : Machine × Context). t.1) result)

retire_lsq-LsqRetired :
    (c : Context) (rs : RobEntry) (port : Bool) {c0 : Context}
    → retire_lsq c rs port ≡ ok (some c0)
    → LsqRetired c rs c0
unfolding retire_lsq
retire_lsq-LsqRetired c rs port {c0} h = elim (Bool-cases rs.ea_comp) [
  | inl e ↦ >>=-elim (assert (ltb 0 c.lsq_num)) _ (rw e at h) λ _ e1 h1.
      >>=-elim (read c.lsq c.lsq_head) _ h1
        λ l e2 h2. access l e (ground arith) e2 (ground arith) (ground arith)
  | inr e ↦
      let h1 : ◌≡◌ {A = Outcome (Option Context)} (ok (some c)) (ok (some c0)) = rw e at h in
      no_access e (ground arith)
]

commits-injective : {a b : Machine} → commits a ≡ commits b → a ≡ b
commits-injective h = cc

retire-Commits :
    (m : Machine) (cid : ℕ) (c : Context) (rs : RobEntry) (next : Option Context) (port : Bool)
    {m' : Machine}
    → cid < m.num_contexts
    → c.rob_num ≢ 0
    → read c.rob c.rob_head ≡ ok rs
    → rs.completed ≡ true
    → retire_lsq c rs port ≡ ok next
    → retire m cid rs next ≡ ok (commits m')
    → Commits m cid c m'
unfolding retire
retire-Commits m cid c rs none port lt busy head done el h = absurd (ground arith)
retire-Commits m cid c rs (some c0) port lt busy head done el h =
    >>=-elim (release_registers m cid c0 rs rs.physreg) _ h λ (r : Machine × Context) e1 h1.
      record {
        busy = busy;
        rs = rs;
        head = head;
        done = done;
        c0 = c0;
        lsq = retire_lsq-LsqRetired c rs port el;
        m1 = r.0;
        c1 = r.1;
        released = release_registers-Released m cid c0 rs rs.physreg lt refl e1;
        result = sym (commits-injective (ok-injective h1));
      }

not_waiting :
    (b : Bool) (k : Outcome Committed) {m' : Machine}
    → (if b then ok waits else k) ≡ ok (commits m')
    → (b ≡ false) × (k ≡ ok (commits m'))
not_waiting true k h = cc
not_waiting false k h = (refl, h)

-- A commit of thread `cid` found a completed entry at the head of its ROB, and went through the
-- stages.
pub commit_one-Commits :
    (m : Machine) (cid : ℕ) (port : Bool) {m' : Machine}
    → cid < m.num_contexts
    → commit_one m cid port ≡ ok (commits m')
    → (c : Context) × (read m.contexts cid ≡ ok c) × Commits m cid c m'
unfolding commit_one
commit_one-Commits m cid port lt h = >>=-elim (read m.contexts cid) _ h λ c e h1.
    let (busy, h2) = not_waiting (c.rob_num == 0) _ h1 in
    >>=-elim (read c.rob c.rob_head) _ h2 λ rs e3 h3.
      let (done, h4) = not_waiting (not rs.completed) _ h3 in
      >>=-elim (retire_lsq c rs port) _ h4 λ next e5 h5.
        (c, e, retire-Commits m cid c rs next port lt (ground arith) e3 (ground arith) e5 h5)
