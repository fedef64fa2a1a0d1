-- ===== src/Smt/Writeback.antt =====
-- The queues and the counters before and after writeback.
use mathlib.Core.Path.{ap₂}
use smt_register_capping.Base.{
  none, some, false, ℕ, zero, suc, ◌+◌, ◌<◌, ◌≡◌, refl, ap, sym, subst, ◌∙◌, Bool, true, List, [],
  ◌∷◌, ok, read, arith, length, set, get_or, get_or_of_read, set_of_read, read_of_lt, ok-injective,
  count_if, if◌then◌else◌, >>=-elim, length-set, assert, not, ◌&&◌,
}
use smt_register_capping.Isa.Opcode.{RegType, reg_none, reg_int, reg_fp}
use smt_register_capping.RegFile.Physical.{RegFile}
use smt_register_capping.Smt.Operands.{all_operands_ready}
use smt_register_capping.Smt.Ring.{window, advance}
use smt_register_capping.Smt.State.{
  RobEntry, empty_entry, Context, Machine, rob_entries, put_context,
}
use smt_register_capping.Smt.Commit.{write_back, write_back_rob, write_back_lsq, mark_written}
use smt_register_capping.Smt.Invariant.{
  HasRings, IsCounted, IsCapped, is_renamed, renamed_as, idle_context, counter, thread,
}
use smt_register_capping.Smt.Update.{updated-IsCapped}

-- A write that a test does not see changes no count over a window.
module _ (p : RobEntry → Bool) where
  test-set :
      (v : List RobEntry) (i j : ℕ) (x d : RobEntry)
      → p x ≡ p (get_or v i d)
      → p (get_or (set v i x) j d) ≡ p (get_or v j d)
  test-set [] i j x d h = refl
  test-set (y ∷ v) zero zero x d h = h
  test-set (y ∷ v) zero (suc j) x d h = refl
  test-set (y ∷ v) (suc i) zero x d h = refl
  test-set (y ∷ v) (suc i) (suc j) x d h = test-set v i j x d h

  pub count-window-set :
      (s : ℕ) (v : List RobEntry) (i h n : ℕ) (x : RobEntry)
      → p x ≡ p (get_or v i empty_entry)
      → count_if p (window empty_entry s (set v i x) h n) ≡ count_if p (window empty_entry s v h n)
  count-window-set s v i h zero x e = refl
  count-window-set s v i h (suc n) x e = rw (test-set v i h x empty_entry e) (
      ap (λ t. (if p (get_or v h empty_entry) then 1 else 0) + t)
        (count-window-set s v i (advance h s) n x e))

renamed-same : (x y : RobEntry) → x.physreg ≡ y.physreg → is_renamed x ≡ is_renamed y
renamed-same x y e = rw e refl

pub renamed_as-same :
    (t : RegType) (x y : RobEntry)
    → x.physreg ≡ y.physreg
    → x.dest_format ≡ y.dest_format
    → renamed_as t x ≡ renamed_as t y
renamed_as-same reg_int x y e d =
    ap₂ (λ q f. elim q [ none ↦ false | some p ↦ elim f [ reg_int ↦ true | _ ↦ false ] ]) e d
renamed_as-same reg_fp x y e d =
    ap₂ (λ q f. elim q [ none ↦ false | some p ↦ elim f [ reg_int ↦ false | _ ↦ true ] ]) e d
renamed_as-same reg_none x y e d =
    ap₂ (λ q f. elim q [ none ↦ false | some p ↦ elim f [ reg_int ↦ false | _ ↦ true ] ]) e d

counter_kept :
    (m : Machine) (cid : ℕ)
    → cid < m.num_contexts
    → IsCapped m
    → m.reg_counter ≡ set m.reg_counter cid (counter m cid)
counter_kept m cid lt v = sym (
    set_of_read m.reg_counter cid
      (read_of_lt m.reg_counter cid 0 (omega (arith, v.fits.counters, v.fits.few))))

pub write_back-completed :
    (f : RegFile) (cycle : ℕ) (rs : RobEntry) {r : RegFile × RobEntry}
    → write_back f cycle rs ≡ ok r
    → r.1 ≡ record rs { completed = true }
unfolding write_back
write_back-completed f cycle rs h = >>=-elim (all_operands_ready f cycle rs) _ h λ b _ h0.
    >>=-elim (assert b) _ h0 λ _ _ h1.
      >>=-elim (assert (not rs.queued && rs.issued && not rs.completed)) _ h1 λ _ _ h2.
        >>=-elim (mark_written f cycle rs.physreg rs.dest_format rs.ea_comp) _ h2
          λ f1 _ h3. ap (λ (t : RegFile × RobEntry). t.1) (sym (ok-injective h3))

-- An entry of the ROB that keeps its destination, whatever happens to the registers.
pub kept_rob-IsCapped :
    (m : Machine) (cid i : ℕ) (c : Context) (rs x : RobEntry) (f : RegFile)
    → cid < m.num_contexts
    → IsCapped m
    → read m.contexts cid ≡ ok c
    → read c.rob i ≡ ok rs
    → x.physreg ≡ rs.physreg
    → x.dest_format ≡ rs.dest_format
    → IsCapped (put_context (record m { regs = f }) cid (record c { rob = set c.rob i x }))
kept_rob-IsCapped m cid i c rs x f lt v ec er ep ef =
    updated-IsCapped m cid (record c { rob = set c.rob i x }) (counter m cid) _ v.fits lt
      (record { contexts = refl; num = refl; counters = counter_kept m cid lt v }) v
      (record { rob_ring = rw (length-set c.rob i x) rings.rob_ring; lsq_ring = rings.lsq_ring })
      (record {
        capped = k.capped;
        counted = k.counted ∙ sym (same is_renamed (renamed-same x rs ep));
        dcra_int =
            k.dcra_int ∙ sym (same (renamed_as reg_int) (renamed_as-same reg_int x rs ep ef));
        dcra_fp = k.dcra_fp ∙ sym (same (renamed_as reg_fp) (renamed_as-same reg_fp x rs ep ef));
      })
  where
    is_thread : thread m cid ≡ c
    is_thread = get_or_of_read m.contexts cid idle_context ec

    rings : HasRings c
    rings = subst HasRings is_thread (v.rings cid lt)

    k : IsCounted c (counter m cid)
    k = subst (λ t. IsCounted t (counter m cid)) is_thread (v.counts cid lt)

    same :
        (p : RobEntry → Bool)
        → p x ≡ p rs
        → count_if p (rob_entries (record c { rob = set c.rob i x })) ≡ count_if p (rob_entries c)
    same p e = rw (length-set c.rob i x) (
        count-window-set p (length c.rob) c.rob i c.rob_head c.rob_num x
          (e ∙ ap p (sym (get_or_of_read c.rob i empty_entry er))))

-- An entry of the LSQ, whatever it becomes.
pub kept_lsq-IsCapped :
    (m : Machine) (cid i : ℕ) (c : Context) (x : RobEntry) (f : RegFile)
    → cid < m.num_contexts
    → IsCapped m
    → read m.contexts cid ≡ ok c
    → IsCapped (put_context (record m { regs = f }) cid (record c { lsq = set c.lsq i x }))
kept_lsq-IsCapped m cid i c x f lt v ec =
    let is_thread = get_or_of_read m.contexts cid idle_context ec in
    let rings = subst HasRings is_thread (v.rings cid lt) in
    let k = subst (λ t. IsCounted t (counter m cid)) is_thread (v.counts cid lt) in
    updated-IsCapped m cid (record c { lsq = set c.lsq i x }) (counter m cid) _ v.fits lt
      (record { contexts = refl; num = refl; counters = counter_kept m cid lt v }) v
      (record { rob_ring = rings.rob_ring; lsq_ring = rw (length-set c.lsq i x) rings.lsq_ring })
      (record {
        capped = k.capped;
        counted = k.counted;
        dcra_int = k.dcra_int;
        dcra_fp = k.dcra_fp;
      })

-- Completing an entry of the ROB of a thread, in flight or not, when it does not abort, keeps the
-- queues and the counters of every thread in order.
pub write_back_rob-IsCapped :
    (m : Machine) (cid i : ℕ) {m' : Machine}
    → cid < m.num_contexts
    → IsCapped m
    → write_back_rob m cid i ≡ ok m'
    → IsCapped m'
unfolding write_back_rob
write_back_rob-IsCapped m cid i lt v h = >>=-elim (read m.contexts cid) _ h λ c ec h1.
    >>=-elim (read c.rob i) _ h1 λ rs er h2.
      >>=-elim (write_back m.regs m.sim_cycle rs) _ h2 λ (r : RegFile × RobEntry) ew h3.
        let done = write_back-completed m.regs m.sim_cycle rs ew in
        subst IsCapped (ok-injective h3) (
          kept_rob-IsCapped m cid i c rs r.1 r.0 lt v ec er (ap (λ (t : RobEntry). t.physreg) done)
            (ap (λ (t : RobEntry). t.dest_format) done))

-- Completing an entry of the LSQ keeps the queues and the counters in order.
pub write_back_lsq-IsCapped :
    (m : Machine) (cid i : ℕ) {m' : Machine}
    → cid < m.num_contexts
    → IsCapped m
    → write_back_lsq m cid i ≡ ok m'
    → IsCapped m'
unfolding write_back_lsq
write_back_lsq-IsCapped m cid i lt v h = >>=-elim (read m.contexts cid) _ h λ c ec h1.
    >>=-elim (read c.lsq i) _ h1 λ rs er h2.
      >>=-elim (write_back m.regs m.sim_cycle rs) _ h2 λ (r : RegFile × RobEntry) ew h3.
        subst IsCapped (ok-injective h3) (kept_lsq-IsCapped m cid i c r.1 r.0 lt v ec)
