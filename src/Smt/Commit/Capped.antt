-- ===== src/Smt/Commit/Capped.antt =====
-- Committing and the cap on renamed registers.
use smt_register_capping.Base.{
  ℕ, ◌-◌, ◌≤◌, ◌<◌, ◌≡◌, ◌≢◌, refl, ap, sym, subst, ◌∙◌, Bool, true, false, ◌∷◌, none, some, ok,
  read, arith, set, get_or, get_or_of_read, set_of_read, read_of_lt, ok-injective, count_if,
}
use smt_register_capping.Isa.Opcode.{RegType, reg_none, reg_int, reg_fp}
use smt_register_capping.Smt.State.{RobEntry, empty_entry, Context, Machine, rob_entries}
use smt_register_capping.Smt.Commit.{uncount_dcra, pop_rob, commits, commit_one}
use smt_register_capping.Smt.Commit.Steps.{
  LsqRetired, no_access, access, Released, no_register, freed, Commits, commit_one-Commits,
}
use smt_register_capping.Smt.Invariant.{
  HasRings, IsCounted, IsCapped, is_renamed, renamed_as, idle_context, thread, counter,
}
use smt_register_capping.Smt.Queues.{pop_rob-HasRings, pop_lsq-HasRings, rob_entries-pop}
use smt_register_capping.Smt.Update.{updated-IsCapped}
use smt_register_capping.Smt.Counting.{plus, left-IsCounted, dcra_le}

-- what the LSQ part leaves of the context
pub record SameRob (c c0 : Context) : Type 0 where
  pub rob : c0.rob ≡ c.rob
  pub head : c0.rob_head ≡ c.rob_head
  pub num : c0.rob_num ≡ c.rob_num
  pub int : c0.dcra_int_rf ≡ c.dcra_int_rf
  pub fp : c0.dcra_fp_rf ≡ c.dcra_fp_rf

pub lsq-SameRob : (c : Context) (rs : RobEntry) (c0 : Context) → LsqRetired c rs c0 → SameRob c c0
lsq-SameRob c rs c0 (no_access _ e) =
    rw e (record { rob = refl; head = refl; num = refl; int = refl; fp = refl })
lsq-SameRob c rs c0 (access l _ _ _ _ e) =
    rw e (record { rob = refl; head = refl; num = refl; int = refl; fp = refl })

lsq-HasRings :
    (c : Context) (rs : RobEntry) (c0 : Context) → HasRings c → LsqRetired c rs c0 → HasRings c0
lsq-HasRings c rs c0 r (no_access _ e) = rw e r
lsq-HasRings c rs c0 r (access l _ ne _ _ e) = rw e (pop_lsq-HasRings c r ne)

SameRob-IsCounted : (c c0 : Context) (n : ℕ) → SameRob c c0 → IsCounted c n → IsCounted c0 n
SameRob-IsCounted c c0 n s k = record {
  capped = k.capped;
  counted = k.counted ∙ ap (count_if is_renamed) es;
  dcra_int = s.int ∙ k.dcra_int ∙ ap (count_if (renamed_as reg_int)) es;
  dcra_fp = s.fp ∙ k.dcra_fp ∙ ap (count_if (renamed_as reg_fp)) es;
}
  where
    es : rob_entries c ≡ rob_entries c0
    es = rw (s.rob, s.head, s.num) refl

-- the counters after the registers of the entry at the head are released
record Uncounts (m : Machine) (cid : ℕ) (c : Context) (rs : RobEntry) (m1 : Machine) (c1 : Context)
    (n : ℕ) : Type 0 where
  n1 : ℕ
  rings : HasRings (pop_rob c1)
  rob_same : rob_entries (pop_rob c1) ≡ rob_entries (pop_rob c)
  total : plus (is_renamed rs) n1 ≡ n
  int : plus (renamed_as reg_int rs) c1.dcra_int_rf ≡ c.dcra_int_rf
  fp : plus (renamed_as reg_fp rs) c1.dcra_fp_rf ≡ c.dcra_fp_rf
  contexts : m1.contexts ≡ m.contexts
  num : m1.num_contexts ≡ m.num_contexts
  counters : m1.reg_counter ≡ set m.reg_counter cid n1

-- the entry at the head is counted
head_counted :
    (c : Context) (rs : RobEntry) (n : ℕ)
    → IsCounted c n
    → c.rob_num ≢ 0
    → read c.rob c.rob_head ≡ ok rs
    → (plus (is_renamed rs) 0 ≤ n)
      × (plus (renamed_as reg_int rs) 0 ≤ c.dcra_int_rf)
      × (plus (renamed_as reg_fp rs) 0 ≤ c.dcra_fp_rf)
head_counted c rs n k ne h =
    let e : get_or c.rob c.rob_head empty_entry ≡ rs =
      get_or_of_read c.rob c.rob_head empty_entry h in
    let es : rob_entries c ≡ rs ∷ rob_entries (pop_rob c) =
      rob_entries-pop c ne ∙ ap (λ t. t ∷ rob_entries (pop_rob c)) e in
    (
      omega (arith, k.counted, ap (count_if is_renamed) es),
      omega (arith, k.dcra_int, ap (count_if (renamed_as reg_int)) es),
      omega (arith, k.dcra_fp, ap (count_if (renamed_as reg_fp)) es),
    )

uncount-fields :
    (t : RegType) (c : Context) (rs : RobEntry) (new n : ℕ)
    → rs.dest_format ≡ t
    → rs.physreg ≡ some new
    → IsCounted c n
    → (plus (renamed_as reg_int rs) 0 ≤ c.dcra_int_rf)
    → (plus (renamed_as reg_fp rs) 0 ≤ c.dcra_fp_rf)
    → (plus (renamed_as reg_int rs) (uncount_dcra t c).dcra_int_rf ≡ c.dcra_int_rf)
      × (plus (renamed_as reg_fp rs) (uncount_dcra t c).dcra_fp_rf ≡ c.dcra_fp_rf)
uncount-fields reg_none c rs new n e p k hi hf = ground (arith, dcra_le c n k, k.capped)
uncount-fields reg_int c rs new n e p k hi hf = ground (arith, dcra_le c n k, k.capped)
uncount-fields reg_fp c rs new n e p k hi hf = ground (arith, dcra_le c n k, k.capped)

pop-uncount :
    (t : RegType) (c : Context)
    → HasRings (pop_rob c)
    → HasRings (pop_rob (uncount_dcra t c))
      × (rob_entries (pop_rob (uncount_dcra t c)) ≡ rob_entries (pop_rob c))
pop-uncount reg_none c r = (record { rob_ring = r.rob_ring; lsq_ring = r.lsq_ring }, refl)
pop-uncount reg_int c r = (record { rob_ring = r.rob_ring; lsq_ring = r.lsq_ring }, refl)
pop-uncount reg_fp c r = (record { rob_ring = r.rob_ring; lsq_ring = r.lsq_ring }, refl)

renamed-true : (rs : RobEntry) (new : ℕ) → rs.physreg ≡ some new → is_renamed rs ≡ true
renamed-true rs new e = ground arith

-- an entry with no register counts nowhere
unrenamed :
    (rs : RobEntry)
    → rs.physreg ≡ none
    → (is_renamed rs ≡ false) × (renamed_as reg_int rs ≡ false) × (renamed_as reg_fp rs ≡ false)
unrenamed rs e = ground arith

released-Uncounts :
    (m : Machine) (cid : ℕ) (c : Context) (rs : RobEntry) (m1 : Machine) (c1 : Context) (n : ℕ)
    → HasRings c
    → IsCounted c n
    → c.rob_num ≢ 0
    → read c.rob c.rob_head ≡ ok rs
    → read m.reg_counter cid ≡ ok n
    → Released m cid c rs m1 c1
    → Uncounts m cid c rs m1 c1 n
released-Uncounts m cid c rs m1 c1 n r k ne h er (no_register e em ec) =
    let off = unrenamed rs e in
    rw (em, ec)
      (record {
        n1 = n;
        rings = pop_rob-HasRings c r ne;
        rob_same = refl;
        total = ground arith;
        int = ground arith;
        fp = ground arith;
        contexts = refl;
        num = refl;
        counters = sym (set_of_read m.reg_counter cid er);
      })
released-Uncounts m cid c rs m1 c1 n r k ne h er (freed new old count f1 f2 e _ _ _ er' em ec) =
    let same : count ≡ n = ok-injective (sym er' ∙ er) in
    let on = renamed-true rs new e in
    let (hn, hi, hf) = head_counted c rs n k ne h in
    let (di, df) = uncount-fields rs.dest_format c rs new n refl e k hi hf in
    let (rings, es) = pop-uncount rs.dest_format c (pop_rob-HasRings c r ne) in
    rw (em, ec, same)
      (record {
        n1 = n - 1;
        rings = rings;
        rob_same = es;
        total = ground arith;
        int = di;
        fp = df;
        contexts = refl;
        num = refl;
        counters = refl;
      })

Commits-IsCapped :
    (m : Machine) (cid : ℕ) (c : Context) (m' : Machine)
    → cid < m.num_contexts
    → read m.contexts cid ≡ ok c
    → IsCapped m
    → Commits m cid c m'
    → IsCapped m'
Commits-IsCapped m cid c m' lt ec v s =
    updated-IsCapped m cid (pop_rob s.c1) u.n1 m' v.fits lt
      (record {
        contexts =
            ap (λ (t : Machine). t.contexts) s.result
            ∙ ap (λ l. set l cid (pop_rob s.c1)) u.contexts;
        num = ap (λ (t : Machine). t.num_contexts) s.result ∙ u.num;
        counters = ap (λ (t : Machine). t.reg_counter) s.result ∙ u.counters;
      })
      v u.rings
      (left-IsCounted s.c0 (pop_rob s.c1) s.rs (counter m cid) u.n1 k
        (rob_entries-pop s.c0 busy0
          ∙ ap (λ t. t ∷ rob_entries (pop_rob s.c0))
              (get_or_of_read s.c0.rob s.c0.rob_head empty_entry head0)
          ∙ ap (λ t. s.rs ∷ t) (sym u.rob_same))
        u.total u.int u.fp)
  where
    is_thread : thread m cid ≡ c
    is_thread = get_or_of_read m.contexts cid idle_context ec

    same : SameRob c s.c0
    same = lsq-SameRob c s.rs s.c0 s.lsq

    busy0 : s.c0.rob_num ≢ 0
    busy0 e = s.busy (sym same.num ∙ e)

    head0 : read s.c0.rob s.c0.rob_head ≡ ok s.rs
    head0 = ap (λ l. read l s.c0.rob_head) same.rob ∙ ap (read c.rob) same.head ∙ s.head

    k : IsCounted s.c0 (counter m cid)
    k =
        SameRob-IsCounted c s.c0 (counter m cid) same
          (subst (λ t. IsCounted t (counter m cid)) is_thread (v.counts cid lt))

    u : Uncounts m cid s.c0 s.rs s.m1 s.c1 (counter m cid)
    u =
        released-Uncounts m cid s.c0 s.rs s.m1 s.c1 (counter m cid)
          (lsq-HasRings c s.rs s.c0 (subst HasRings is_thread (v.rings cid lt)) s.lsq) k busy0 head0
          (read_of_lt m.reg_counter cid 0 (omega (arith, v.fits.counters, v.fits.few))) s.released

-- Committing an instruction of a thread of the machine, when it does not abort, keeps the queues
-- and the counters of every thread in order.
pub commit_one-IsCapped :
    (m : Machine) (cid : ℕ) (port : Bool) {m' : Machine}
    → cid < m.num_contexts
    → IsCapped m
    → commit_one m cid port ≡ ok (commits m')
    → IsCapped m'
commit_one-IsCapped m cid port {m'} lt v h =
    let (c, e, s) = commit_one-Commits m cid port lt h in Commits-IsCapped m cid c m' lt e v s
