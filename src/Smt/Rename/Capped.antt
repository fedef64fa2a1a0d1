-- ===== src/Smt/Rename/Capped.antt =====
-- Renaming and the cap on renamed registers.
use smt_register_capping.Base.{
  ℕ, ◌+◌, ◌≤◌, ◌<◌, ◌≡◌, ◌≢◌, refl, ap, sym, subst, ◌∙◌, false, [], ◌∷◌, ◌++◌, Option, some, ok,
  read, arith, length, set, read_of_lt, ok-injective, get_or_of_read, set_of_read,
}
use smt_register_capping.Isa.Opcode.{Opcode, RegType, reg_none, reg_int, reg_fp}
use smt_register_capping.RegFile.RegSet.{get_reg_set}
use smt_register_capping.RegFile.Physical.{Renaming}
use smt_register_capping.Smt.State.{RobEntry, Context, Machine, rob_entries}
use smt_register_capping.Smt.Cap.{rename_reg_limit, must_stall}
use smt_register_capping.Smt.Rename.{
  Executed, renamed, rename_inst, queues_full, push_rob, push_lsq, agen,
}
use smt_register_capping.Smt.Rename.Effect.{Destined, kept, given, undestined, counted_dcra}
use smt_register_capping.Smt.Rename.Steps.{Installed, plain, paired, Stages, rename_inst-Stages}
use smt_register_capping.Smt.Invariant.{
  HasRings, IsCounted, IsCapped, is_renamed, renamed_as, idle_context, thread, counter,
}
use smt_register_capping.Smt.Queues.{push_rob-HasRings, push_lsq-HasRings, rob_entries-push}
use smt_register_capping.Smt.Update.{updated-IsCapped}
use smt_register_capping.Smt.Counting.{plus, joined-IsCounted, dcra_le, must_stall-below}

-- the renaming of the destination, as the counters see it
pub record Counts (m : Machine) (cid : ℕ) (c : Context) (m1 : Machine) (c1 : Context)
    (rs1 : RobEntry) (n : ℕ) : Type 0 where
  pub n1 : ℕ
  pub rob_same : rob_entries c1 ≡ rob_entries c
  pub room_rob : (c1.rob_num ≡ c.rob_num) × (length c1.rob ≡ length c.rob)
  pub room_lsq : (c1.lsq_num ≡ c.lsq_num) × (length c1.lsq ≡ length c.lsq)
  pub rings : HasRings c1
  pub total : n1 ≡ plus (is_renamed rs1) n
  pub below : n1 ≤ rename_reg_limit
  pub int : c1.dcra_int_rf ≡ plus (renamed_as reg_int rs1) c.dcra_int_rf
  pub fp : c1.dcra_fp_rf ≡ plus (renamed_as reg_fp rs1) c.dcra_fp_rf
  pub contexts : m1.contexts ≡ m.contexts
  pub num : m1.num_contexts ≡ m.num_contexts
  pub counters : m1.reg_counter ≡ set m.reg_counter cid n1

given-Counts :
    (t : RegType) (m : Machine) (cid : ℕ) (c : Context) (rs : RobEntry) (r : Renaming)
    (index : Option ℕ) (n : ℕ)
    → t ≢ reg_none
    → HasRings c
    → IsCounted c n
    → n < rename_reg_limit
    → Counts m cid c
        (record m { regs = r.regs; reg_counter = set m.reg_counter cid (n + 1) })
        (record (counted_dcra t c) { rename_table = r.rename_table })
        (record rs {
          physreg = some r.physreg;
          old_physreg = some r.old_physreg;
          dest_format = t;
          regs_index = index;
        })
        n
given-Counts reg_none m cid c rs r index n ne rings k lt = absurd (ne refl)
given-Counts reg_int m cid c rs r index n ne rings k lt = record {
  n1 = n + 1;
  rob_same = refl;
  room_rob = (refl, refl);
  room_lsq = (refl, refl);
  rings = record { rob_ring = rings.rob_ring; lsq_ring = rings.lsq_ring };
  total = refl;
  below = omega arith;
  int = omega (arith, dcra_le c n k);
  fp = omega arith;
  contexts = refl;
  num = refl;
  counters = refl;
}
given-Counts reg_fp m cid c rs r index n ne rings k lt = record {
  n1 = n + 1;
  rob_same = refl;
  room_rob = (refl, refl);
  room_lsq = (refl, refl);
  rings = record { rob_ring = rings.rob_ring; lsq_ring = rings.lsq_ring };
  total = refl;
  below = omega arith;
  int = omega arith;
  fp = omega (arith, dcra_le c n k);
  contexts = refl;
  num = refl;
  counters = refl;
}

kept-Counts :
    (m : Machine) (cid : ℕ) (c : Context) (rs : RobEntry) (n : ℕ)
    → HasRings c
    → IsCounted c n
    → read m.reg_counter cid ≡ ok n
    → Counts m cid c m c (undestined rs) n
kept-Counts m cid c rs n rings k e = record {
  n1 = n;
  rob_same = refl;
  room_rob = (refl, refl);
  room_lsq = (refl, refl);
  rings = rings;
  total = omega arith;
  below = k.capped;
  int = omega arith;
  fp = omega arith;
  contexts = refl;
  num = refl;
  counters = sym (set_of_read m.reg_counter cid e);
}

pub Destined-Counts :
    (m : Machine) (cid : ℕ) (c : Context) (op : Opcode) (rs : RobEntry) (m1 : Machine)
    (c1 : Context) (rs1 : RobEntry) (n : ℕ)
    → cid < m.num_contexts
    → HasRings c
    → IsCounted c n
    → read m.reg_counter cid ≡ ok n
    → rs.op ≡ op
    → must_stall m cid op ≡ ok false
    → Destined m cid c rs m1 c1 rs1
    → Counts m cid c m1 c1 rs1 n
Destined-Counts m cid c op rs m1 c1 rs1 n lt rings k e eop granted (kept e1 e2 e3) =
    rw (e1, e2, e3) (kept-Counts m cid c rs n rings k e)
Destined-Counts m cid c op rs m1 c1 rs1 n lt rings k e eop granted
      (given t r count index ne dest _ al er e1 e2 e3) =
    let same : count ≡ n = ok-injective (sym er ∙ e) in
    let below =
      must_stall-below m cid op n lt (λ z. ne (sym dest ∙ ap (λ o. (get_reg_set o).dest) eop ∙ z)) e
        granted in
    rw (e1, e2, e3, same) (given-Counts t m cid c rs r index n ne rings k below)

-- a thread after the installation of its new entry
Installed-thread :
    (m : Machine) (cid : ℕ) (c : Context) (m1 : Machine) (c1 : Context) (rs1 : RobEntry) (n : ℕ)
    (c' : Context)
    → IsCounted c n
    → c.rob_num < length c.rob
    → c.lsq_num < length c.lsq
    → (counts : Counts m cid c m1 c1 rs1 n) → Installed c1 rs1 c'
    → HasRings c' × IsCounted c' counts.n1
Installed-thread m cid c m1 c1 rs1 n c' k lr ll counts (plain e) =
    let room : c1.rob_num < length c1.rob = omega (arith, counts.room_rob) in
    rw e (
      push_rob-HasRings c1 rs1 counts.rings room,
      joined-IsCounted c (push_rob c1 rs1) rs1 n counts.n1 k
          (rob_entries-push c1 rs1 counts.rings room ∙ ap (λ es. es ++ (rs1 ∷ [])) counts.rob_same)
          counts.total counts.below counts.int counts.fp,
    )
Installed-thread m cid c m1 c1 rs1 n c' k lr ll counts (paired l _ _ _ _ _ _ e) =
    let room : c1.rob_num < length c1.rob = omega (arith, counts.room_rob) in
    let room' : c1.lsq_num < length c1.lsq = omega (arith, counts.room_lsq) in
    let rs = agen rs1 c1.lsq_tail in
    rw e (
      push_lsq-HasRings (push_rob c1 rs) l (push_rob-HasRings c1 rs counts.rings room) room',
      joined-IsCounted c (push_lsq (push_rob c1 rs) l) rs n counts.n1 k
          (rob_entries-push c1 rs counts.rings room ∙ ap (λ es. es ++ (rs ∷ [])) counts.rob_same)
          counts.total counts.below counts.int counts.fp,
    )

pub queues-room :
    (c : Context) → queues_full c ≡ false → (c.rob_num < length c.rob) × (c.lsq_num < length c.lsq)
queues-room c h = ground arith

Stages-IsCapped :
    (m : Machine) (cid : ℕ) (x : Executed) (c : Context) (m' : Machine)
    → cid < m.num_contexts
    → read m.contexts cid ≡ ok c
    → IsCapped m
    → Stages m cid x c m'
    → IsCapped m'
Stages-IsCapped m cid x c m' lt ec v s =
    updated-IsCapped m cid s.c' counts.n1 m' v.fits lt
      (record {
        contexts = s.same_contexts ∙ ap (λ l. set l cid s.c') counts.contexts;
        num = s.same_num ∙ counts.num;
        counters = s.same_counter ∙ counts.counters;
      })
      v (after.0) (after.1)
  where
    is_thread : thread m cid ≡ c
    is_thread = get_or_of_read m.contexts cid idle_context ec

    in_range : cid < length m.reg_counter
    in_range = omega (arith, v.fits.counters, v.fits.few)

    k : IsCounted c (counter m cid)
    k = subst (λ t. IsCounted t (counter m cid)) is_thread (v.counts cid lt)

    counts : Counts m cid c s.m1 s.c1 s.rs1 (counter m cid)
    counts =
        Destined-Counts m cid c x.op s.rs s.m1 s.c1 s.rs1 (counter m cid) lt
          (subst HasRings is_thread (v.rings cid lt)) k (read_of_lt m.reg_counter cid 0 in_range)
          s.fresh.opcode s.granted s.destined

    after : HasRings s.c' × IsCounted s.c' counts.n1
    after =
        Installed-thread m cid c s.m1 s.c1 s.rs1 (counter m cid) s.c' k (queues-room c s.room).0
          (queues-room c s.room).1 counts s.installed

-- Renaming an instruction of a thread of the machine, when it does not abort, keeps the queues and
-- the counters of every thread in order: no thread has more than RENAME_REG_LIMIT renamed
-- instructions in flight, reg_counter and the two DCRA counters are the numbers of those
-- instructions, and the circular queues stay within their vectors.
pub rename_inst-IsCapped :
    (m : Machine) (cid : ℕ) (x : Executed) {m' : Machine}
    → cid < m.num_contexts
    → IsCapped m
    → rename_inst m cid x ≡ ok (renamed m')
    → IsCapped m'
rename_inst-IsCapped m cid x {m'} lt v h =
    let (c, e, s) = rename_inst-Stages m cid x lt h in Stages-IsCapped m cid x c m' lt e v s
