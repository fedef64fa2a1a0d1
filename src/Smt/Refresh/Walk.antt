-- ===== src/Smt/Refresh/Walk.antt =====
-- The walk of lsq_refresh over the ring of a thread's LSQ.
use mathlib.Core.Path.{ap₂}
use smt_register_capping.Base.{
  ℕ, zero, suc, ◌+◌, ◌%◌, ◌<◌, ◌≤◌, ◌≡◌, ◌≢◌, refl, sym, ap, ◌∙◌, inl, inr, subst, true, false,
  if◌then◌else◌, List, [], ◌∷◌, ok, length, set, get_or, arith, Bool-cases, Outcome-cases,
  read_of_lt, length-set, set-get_or, get_or-set_self, get_or-set_ne,
}
use smt_register_capping.Inflight.{RsLink, seq_sort, inorderinsert}
use smt_register_capping.RegFile.Physical.{RegFile}
use smt_register_capping.Smt.Ring.{
  advance, advance-lt, advance-add, window, window-set_out, place-ne, mod-add_zero,
}
use smt_register_capping.Smt.State.{RobEntry, empty_entry, Context, lsq_entries}
use smt_register_capping.Smt.Operands.{all_operands_spec_ready}
use smt_register_capping.Smt.Refresh.{store_addr_ready, load_link, readyq_enqueue, scan_lsq}
use smt_register_capping.Smt.Refresh.Order.{
  truth-true, may_go, refreshed, joining, addresses_known, AllReadable, Tracks, pass_store-Tracks,
  takes_load-may_go, refreshed-blocked, joining-blocked, may_go-queued, may_go-operands,
}

module _ (f : RegFile) (cycle : ℕ) (address : ℕ → ℕ) where
  readyq_enqueue-may_go :
      (index : ℕ) (rs : RobEntry) (earlier lsq : List RobEntry) (queue : List RsLink)
      → may_go f cycle earlier rs ≡ true
      → readyq_enqueue address f cycle index rs lsq queue
        ≡ ok (
          set lsq index (record rs { queued = true }),
          inorderinsert seq_sort (load_link address index rs) queue,
        )
  unfolding readyq_enqueue
  readyq_enqueue-may_go index rs earlier lsq queue h =
      let unqueued : rs.queued ≡ false = may_go-queued f cycle earlier rs h in
      let ready =
        truth-true (all_operands_spec_ready f cycle rs) (may_go-operands f cycle earlier rs h) in
      rw (unqueued, readyq_enqueue) (rw (ready, readyq_enqueue) refl)

  -- the LSQ of size s and the queue after the walk over `left` entries from an index on
  record Walked (s index left : ℕ) (earlier lsq : List RobEntry) (queue : List RsLink)
      (lsq' : List RobEntry) (queue' : List RsLink) : Type 0 where
    pub size : length lsq' ≡ s
    pub entries :
        window empty_entry s lsq' index left
        ≡ refreshed f cycle earlier (window empty_entry s lsq index left)
    pub others :
        (i : ℕ)
        → ((k : ℕ) → k < left → (index + k) % s ≢ i)
        → get_or lsq' i empty_entry ≡ get_or lsq i empty_entry
    pub ready :
        queue' ≡ joining f cycle address s index earlier (window empty_entry s lsq index left) queue

  blocked-Walked :
      (s index left : ℕ) (earlier lsq : List RobEntry) (queue : List RsLink)
      → length lsq ≡ s
      → addresses_known f cycle (get_or lsq index empty_entry ∷ earlier) ≡ false
      → Walked s index (suc left) earlier lsq queue lsq queue
  blocked-Walked s index left earlier lsq queue size h =
      let rs = get_or lsq index empty_entry in
      let behind = window empty_entry s lsq (advance index s) left in
      record {
        size = size;
        entries = rw h (ap (λ l. rs ∷ l) (sym (refreshed-blocked f cycle (rs ∷ earlier) behind h)));
        others = λ i out. refl;
        ready =
            rw (h, joining)
              (sym (
                joining-blocked f cycle address s (advance index s) (rs ∷ earlier) behind queue h));
      }

  -- an entry of the LSQ, after its turn
  abbrev turned : List RobEntry → RobEntry → RobEntry
  turned earlier rs = if may_go f cycle earlier rs then record rs { queued = true } else rs

  abbrev joined : ℕ → List RobEntry → RobEntry → List RsLink → List RsLink
  joined index earlier rs queue =
      if may_go f cycle earlier rs
      then inorderinsert seq_sort (load_link address index rs) queue
      else queue

  -- the entries behind the one at an index stand elsewhere
  place-apart :
      (s index left : ℕ)
      → index < s
      → suc left ≤ s
      → (k : ℕ) → k < left
      → (advance index s + k) % s ≢ index
  place-apart s index left lt fits k k_lt e =
      place-ne index 0 (suc k) s lt (omega arith) (omega arith)
        (mod-add_zero index s lt ∙ sym e ∙ advance-add index k s)

  window-behind :
      (s index left : ℕ) (lsq : List RobEntry) (x : RobEntry)
      → index < s
      → suc left ≤ s
      → window empty_entry s (set lsq index x) (advance index s) left
        ≡ window empty_entry s lsq (advance index s) left
  window-behind s index left lsq x lt fits =
      window-set_out empty_entry s lsq index (advance index s) left x (advance-lt index s lt)
        (place-apart s index left lt fits)

  -- the turn of an entry, by the code
  enqueue-turned :
      (index : ℕ) (earlier lsq : List RobEntry) (queue : List RsLink)
      → (let rs = get_or lsq index empty_entry in
          (if may_go f cycle earlier rs
            then readyq_enqueue address f cycle index rs lsq queue
            else ok (lsq, queue))
          ≡ ok (set lsq index (turned earlier rs), joined index earlier rs queue))
  enqueue-turned index earlier lsq queue =
      let rs = get_or lsq index empty_entry in
      elim (Bool-cases (may_go f cycle earlier rs)) [
        | inl e ↦ rw e (readyq_enqueue-may_go index rs earlier lsq queue e)
        | inr e ↦ rw e (ap (λ l. ok (l, queue)) (sym (set-get_or lsq index empty_entry)))
      ]

  turned-Walked :
      (s index left : ℕ) (earlier lsq : List RobEntry) (queue : List RsLink) (lsq' : List RobEntry)
      (queue' : List RsLink)
      → index < s
      → suc left ≤ s
      → length lsq ≡ s
      → (let rs = get_or lsq index empty_entry in
          Walked s
            (advance index s)
            left
            (rs ∷ earlier)
            (set lsq index (turned earlier rs))
            (joined index earlier rs queue)
            lsq'
            queue')
      → Walked s index (suc left) earlier lsq queue lsq' queue'
  turned-Walked s index left earlier lsq queue lsq' queue' lt fits size w =
      let rs = get_or lsq index empty_entry in
      let x = turned earlier rs in
      let apart = place-apart s index left lt fits in
      let behind = window-behind s index left lsq x lt fits in
      let here : get_or lsq' index empty_entry ≡ x =
        w.others index apart ∙ get_or-set_self lsq index x empty_entry (omega arith) in
      record {
        size = w.size;
        entries = ap₂ ◌∷◌ here (w.entries ∙ ap (refreshed f cycle (rs ∷ earlier)) behind);
        others = λ i out.
            w.others i (λ k k_lt e. out (suc k) (omega arith) (sym (advance-add index k s) ∙ e))
            ∙ get_or-set_ne lsq index i x empty_entry
                (λ e. out 0 (omega arith) (mod-add_zero index s lt ∙ e));
        ready =
            w.ready
            ∙ ap
                (λ es.
                  joining f cycle address s (advance index s) (rs ∷ earlier) es
                    (joined index earlier rs queue))
                behind;
      }

  scan_lsq-Walked :
      (s index left : ℕ) (unknowns : List ℕ) (earlier lsq : List RobEntry) (queue : List RsLink)
      → index < s
      → left ≤ s
      → length lsq ≡ s
      → AllReadable f cycle (window empty_entry s lsq index left)
      → addresses_known f cycle earlier ≡ true
      → Tracks f cycle unknowns earlier
      → (lsq' : List RobEntry) × (queue' : List RsLink) × (scan_lsq address f cycle index left
            unknowns lsq queue
          ≡ ok (lsq', queue'))
        × Walked s index left earlier lsq queue lsq' queue'
  unfolding scan_lsq
  scan_lsq-Walked s index zero unknowns earlier lsq queue lt fits size r known t = (
    lsq,
    queue,
    refl,
    record { size = size; entries = refl; others = λ i out. refl; ready = refl },
  )
  scan_lsq-Walked s index (suc left) unknowns earlier lsq queue lt fits size (ra, ro, r) known t =
      let rs = get_or lsq index empty_entry in
      let first = read_of_lt lsq index empty_entry (omega arith) in
      elim (Outcome-cases (store_addr_ready f cycle rs)) [
        | inl e ↦ absurd (ra e)
        | inr (address_known, ea) ↦ elim (Outcome-cases (all_operands_spec_ready f cycle rs)) [
          | inl e ↦ absurd (ro e)
          | inr (ready, eo) ↦
              elim (pass_store-Tracks f cycle rs unknowns earlier address_known ready ea eo known
                t) [
                  | inl (stop, blocked) ↦ (
                    lsq,
                    queue,
                    rw first (rw stop refl),
                    blocked-Walked s index left earlier lsq queue size blocked,
                  )
                  | inr (unknowns1, passed, known1, t1) ↦
                      let x = turned earlier rs in
                      let taken =
                        takes_load-may_go f cycle rs unknowns1 earlier ready eo known1 t1 in
                      let turn = enqueue-turned index earlier lsq queue in
                      let behind = window-behind s index left lsq x lt fits in
                      let (lsq', queue', rest, w) =
                        scan_lsq-Walked s (advance index s) left unknowns1 (rs ∷ earlier)
                          (set lsq index x) (joined index earlier rs queue) (advance-lt index s lt)
                          (omega arith) (length-set lsq index x ∙ size)
                          (subst (AllReadable f cycle) (sym behind) r) known1 t1 in
                      (
                        lsq',
                        queue',
                        rw first (
                            rw passed (
                              rw taken (
                                rw turn (
                                  ap
                                    (λ n.
                                      scan_lsq address f cycle (advance index n) left unknowns1
                                        (set lsq index x) (joined index earlier rs queue))
                                    size
                                  ∙ rest)))),
                        turned-Walked s index left earlier lsq queue lsq' queue' lt fits size w,
                      )
                ]
        ]
      ]

  -- On an LSQ whose head is inside it and whose entries name registers of the files, the walk of
  -- lsq_refresh does not abort. Afterwards a load is queued that was not before exactly if it is
  -- dispatched, waiting, with its operands ready, every store before it knows its address, and the
  -- latest store before it to its address, if any, has its value; its link has joined the ready queue,
  -- in the order of the LSQ, and every other entry is as it was.
  pub scan_lsq-refreshed :
      (c : Context) (queue : List RsLink)
      → c.lsq_head < length c.lsq
      → c.lsq_num ≤ length c.lsq
      → AllReadable f cycle (lsq_entries c)
      → (lsq' : List RobEntry) × (queue' : List RsLink) × (scan_lsq address f cycle c.lsq_head
            c.lsq_num [] c.lsq queue
          ≡ ok (lsq', queue'))
        × (lsq_entries (record c { lsq = lsq' }) ≡ refreshed f cycle [] (lsq_entries c))
        × (queue' ≡ joining f cycle address (length c.lsq) c.lsq_head [] (lsq_entries c) queue)
  scan_lsq-refreshed c queue lt fits r =
      let (lsq', queue', run, w) =
        scan_lsq-Walked (length c.lsq) c.lsq_head c.lsq_num [] [] c.lsq queue lt fits refl r refl
          (record { holds = λ a. refl }) in
      (
        lsq',
        queue',
        run,
        ap (λ s. window empty_entry s lsq' c.lsq_head c.lsq_num) w.size ∙ w.entries,
        w.ready,
      )
