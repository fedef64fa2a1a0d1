-- ===== src/Smt/Rename/Steps.antt =====
-- What a successful renaming of one instruction has gone through.
use smt_register_capping.Base.{
  ℕ, ◌<◌, ◌≡◌, refl, ap, ◌∙◌, Bool, true, false, ◌||◌, ◌&&◌, not, ◌==◌, if◌then◌else◌, Bool-cases,
  inl, inr, some, Outcome, ok, read, set, arith, >>=-elim, subst, sym, ok-injective,
}
use smt_register_capping.Isa.Flags.{is_mem, is_trap}
use smt_register_capping.Isa.Decode.{out1, in1, in2}
use smt_register_capping.RegFile.RegSet.{get_reg_set}
use smt_register_capping.Smt.State.{RobEntry, Context, Machine, put_context}
use smt_register_capping.Smt.Cap.{must_stall}
use smt_register_capping.Smt.Rename.{
  Executed, Renamed, renamed, stalled, dropped, queues_full, effective, is_nop, new_entry,
  rename_register, install, lsq_entry, agen, push_rob, push_lsq, next_seq, rename_entry,
  rename_inst,
}
use smt_register_capping.Smt.Rename.Effect.{Destined, kept, undestined, rename_dest-Destined}

-- the queues after the installation: one entry, or a pair of an address computation and a memory
-- access that writes the same register
pub data Installed (c1 : Context) (rs : RobEntry) (c' : Context) : Type 0 where
  plain : c' ≡ push_rob c1 rs → Installed c1 rs c'
  paired :
      (l : RobEntry)
      → l.physreg ≡ rs.physreg
      → l.dest_format ≡ rs.dest_format
      → l.context_id ≡ rs.context_id
      → l.completed ≡ false
      → l.ea_comp ≡ false
      → l.in_lsq ≡ true
      → c' ≡ push_lsq (push_rob c1 (agen rs c1.lsq_tail)) l
      → Installed c1 rs c'

-- the entry that the fields of the instruction give
pub record IsNew (cid : ℕ) (x : Executed) (rs : RobEntry) : Type 0 where
  pub opcode : rs.op ≡ x.op
  pub dest : rs.archreg ≡ out1 x.op x.inst
  pub whose : rs.context_id ≡ some cid
  pub waiting : rs.completed ≡ false
  pub plain_op : rs.ea_comp ≡ false

-- the stages of a successful renaming of `x` for thread `cid`, whose context was `c`
pub record Stages (m : Machine) (cid : ℕ) (x : Executed) (c : Context) (m' : Machine) : Type 0 where
  pub room : queues_full c ≡ false
  pub granted : must_stall m cid x.op ≡ ok false
  pub rs : RobEntry
  pub fresh : IsNew cid x rs
  pub m1 : Machine
  pub c1 : Context
  pub rs1 : RobEntry
  pub destined : Destined m cid c rs m1 c1 rs1
  pub c' : Context
  pub installed : Installed c1 rs1 c'
  pub same_contexts : m'.contexts ≡ set m1.contexts cid c'
  pub same_num : m'.num_contexts ≡ m1.num_contexts
  pub same_counter : m'.reg_counter ≡ m1.reg_counter
  pub same_regs : m'.regs ≡ m1.regs
  pub same_cycle : m'.sim_cycle ≡ m1.sim_cycle

rename_register-Destined :
    (m : Machine) (cid : ℕ) (c : Context) (x : Executed) (rs : RobEntry) {m1 : Machine}
    {c1 : Context} {rs1 : RobEntry}
    → cid < m.num_contexts
    → rename_register m cid c x rs ≡ ok (m1, c1, rs1)
    → Destined m cid c rs m1 c1 rs1
unfolding rename_register
rename_register-Destined m cid c x rs {m1} {c1} {rs1} lt h =
    elim (Bool-cases (not (rs.archreg == 0) && not (rs.archreg == 32))) [
      | inl e ↦ rename_dest-Destined (get_reg_set rs.op).dest m cid c x rs refl lt (rw e at h)
      | inr e ↦
          let h' : ◌≡◌ {A = Outcome (Machine × Context × RobEntry)} (ok (m, c, undestined rs))
              (ok (m1, c1, rs1)) =
            rw e at h in
          kept (ground arith) (ground arith) (ground arith)
    ]

pub new_entry-IsNew :
    (m : Machine) (cid : ℕ) (c : Context) (x : Executed) (slot : RobEntry) {rs : RobEntry}
    → new_entry m cid c x slot ≡ ok rs
    → IsNew cid x rs
unfolding new_entry
new_entry-IsNew m cid c x slot h = >>=-elim (read c.rename_table (in1 x.op x.inst)) _ h λ src0 _ h1.
    >>=-elim (read c.rename_table (in2 x.op x.inst)) _ h1 λ src1 _ h2.
      subst (IsNew cid x) (ok-injective h2)
        (record { opcode = refl; dest = refl; whose = refl; waiting = refl; plain_op = refl })

-- the result of `install` as a change of the context, and of the sequence number
record Puts (m : Machine) (cid : ℕ) (c1 : Context) (rs : RobEntry) (m' : Machine) : Type 0 where
  c' : Context
  seq : ℕ
  installed : Installed c1 rs c'
  put : m' ≡ put_context (record m { inst_seq = seq }) cid c'

install-Puts :
    (m : Machine) (cid : ℕ) (c1 : Context) (x : Executed) (rs : RobEntry) {m' : Machine}
    → install m cid c1 x rs ≡ ok m'
    → Puts m cid c1 rs m'
unfolding install
install-Puts m cid c1 x rs {m'} h = elim (Bool-cases (is_mem x.op)) [
  | inl e ↦ >>=-elim (read c1.lsq c1.lsq_tail) _ (rw e at h) λ slot _ h1. record {
    c' =
        push_lsq (push_rob c1 (agen rs c1.lsq_tail))
          (lsq_entry x rs (next_seq (next_seq m.inst_seq)) slot);
    seq = next_seq (next_seq m.inst_seq);
    installed =
        paired (lsq_entry x rs (next_seq (next_seq m.inst_seq)) slot) refl refl refl refl refl refl
          refl;
    put = sym (ok-injective h1);
  }
  | inr e ↦
      let h1 : ◌≡◌ {A = Outcome Machine}
          (ok (put_context (record m { inst_seq = next_seq m.inst_seq }) cid (push_rob c1 rs)))
          (ok m') =
        rw e at h in
      record {
        c' = push_rob c1 rs;
        seq = next_seq m.inst_seq;
        installed = plain refl;
        put = sym (ok-injective h1);
      }
]

renamed-injective : {a b : Machine} → renamed a ≡ renamed b → a ≡ b
renamed-injective h = cc

rename_entry-Stages :
    (m : Machine) (cid : ℕ) (c : Context) (x : Executed) {m' : Machine}
    → cid < m.num_contexts
    → queues_full c ≡ false
    → must_stall m cid x.op ≡ ok false
    → rename_entry m cid c x ≡ ok (renamed m')
    → Stages m cid x c m'
unfolding rename_entry
rename_entry-Stages m cid c x {m'} lt room granted h =
    >>=-elim (read c.rob c.rob_tail) _ h λ slot _ h1.
      >>=-elim (new_entry m cid c x slot) _ h1 λ rs e2 h2.
        >>=-elim (rename_register m cid c x rs) _ h2 λ (r : Machine × Context × RobEntry) e3 h3.
          >>=-elim (install r.0 cid r.1 x r.2) _ h3 λ m2 e4 h4.
            let p = install-Puts r.0 cid r.1 x r.2 e4 in
            let e = sym (renamed-injective (ok-injective h4)) ∙ p.put in
            record {
              room = room;
              granted = granted;
              rs = rs;
              fresh = new_entry-IsNew m cid c x slot e2;
              m1 = r.0;
              c1 = r.1;
              rs1 = r.2;
              destined = rename_register-Destined m cid c x rs lt e3;
              c' = p.c';
              installed = p.installed;
              same_contexts = ap (λ (u : Machine). u.contexts) e;
              same_num = ap (λ (u : Machine). u.num_contexts) e;
              same_counter = ap (λ (u : Machine). u.reg_counter) e;
              same_regs = ap (λ (u : Machine). u.regs) e;
              same_cycle = ap (λ (u : Machine). u.sim_cycle) e;
            }

not_stalled :
    (b : Bool) (k : Outcome Renamed) {m' : Machine}
    → (if b then ok stalled else k) ≡ ok (renamed m')
    → (b ≡ false) × (k ≡ ok (renamed m'))
not_stalled true k h = cc
not_stalled false k h = (refl, h)

not_dropped :
    (b : Bool) (k : Outcome Renamed) {m' : Machine}
    → (if b then ok dropped else k) ≡ ok (renamed m')
    → k ≡ ok (renamed m')
not_dropped true k h = cc
not_dropped false k h = h

or-false : (a b : Bool) → (a || b) ≡ false → a ≡ false
or-false a b h = ground arith

-- A renamed instruction found room, was not made to stall, and went through the stages.
pub rename_inst-Stages :
    (m : Machine) (cid : ℕ) (x : Executed) {m' : Machine}
    → cid < m.num_contexts
    → rename_inst m cid x ≡ ok (renamed m')
    → (c : Context) × (read m.contexts cid ≡ ok c) × Stages m cid x c m'
unfolding rename_inst
rename_inst-Stages m cid x lt h = >>=-elim (read m.contexts cid) _ h λ c e h1.
    let (room, h2) = not_stalled (queues_full c) _ h1 in
    >>=-elim (must_stall m cid x.op) _ h2 λ stall e3 h3.
      let (free, h4) = not_stalled (stall || (is_trap x.op && not (c.rob_num == 0))) _ h3 in
      let granted : must_stall m cid x.op ≡ ok false =
        e3 ∙ ap ok (or-false stall (is_trap x.op && not (c.rob_num == 0)) free) in
      (
        c,
        e,
        rename_entry-Stages m cid c x lt room granted (not_dropped (is_nop (effective x.op)) _ h4),
      )
