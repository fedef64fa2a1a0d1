-- ===== src/Smt/Queues.antt =====
-- The ROB and the LSQ of a thread as lists: what a new entry, a retired entry and a change of an
-- entry in flight do to them.
use native.Mathlib.Nat.{mod-add-mod}
use native.Mathlib.Numerals.{add-one}
use smt_register_capping.Base.{
  ℕ, zero, suc, ◌+◌, ◌-◌, ◌%◌, ◌<◌, ◌≡◌, ◌≢◌, refl, ap, ◌∙◌, sym, List, [], ◌∷◌, ◌++◌, arith,
  length, set, length-set, get_or,
}
use smt_register_capping.Smt.Ring.{advance, window, advance-lt, advance-add, window-push}
use smt_register_capping.Smt.State.{RobEntry, empty_entry, Context, rob_entries, lsq_entries}
use smt_register_capping.Smt.Rename.{push_rob, push_lsq}
use smt_register_capping.Smt.Commit.{pop_rob, pop_lsq}
use smt_register_capping.Smt.Invariant.{IsRing, HasRings}

push-IsRing : {s h t n : ℕ} → IsRing s h t n → n < s → IsRing s h (advance t s) (n + 1)
push-IsRing {s} {h} {t} {n} r lt = record {
  head_in = r.head_in;
  num_in = omega arith;
  tail_at = rw (r.tail_at, mod-add-mod) (ap (λ k. k % s) (omega arith));
}

pop-IsRing : {s h t n : ℕ} → IsRing s h t n → n ≢ 0 → IsRing s (advance h s) t (n - 1)
pop-IsRing {s} {h} {t} {n} r ne = record {
  head_in = advance-lt h s r.head_in;
  num_in = omega (arith, r.num_in);
  tail_at = r.tail_at ∙ ap (λ k. (h + k) % s) (omega arith) ∙ sym (advance-add h (n - 1) s);
}

pub push_rob-HasRings :
    (c : Context) (e : RobEntry) → HasRings c → c.rob_num < length c.rob → HasRings (push_rob c e)
push_rob-HasRings c e r lt = record {
  rob_ring = rw (length-set c.rob c.rob_tail e) (push-IsRing r.rob_ring lt);
  lsq_ring = r.lsq_ring;
}

pub push_lsq-HasRings :
    (c : Context) (e : RobEntry) → HasRings c → c.lsq_num < length c.lsq → HasRings (push_lsq c e)
push_lsq-HasRings c e r lt = record {
  rob_ring = r.rob_ring;
  lsq_ring = rw (length-set c.lsq c.lsq_tail e) (push-IsRing r.lsq_ring lt);
}

-- the window after a write just behind it
pushed_window :
    (v : List RobEntry) (h t n : ℕ) (e : RobEntry)
    → IsRing (length v) h t n
    → n < length v
    → window empty_entry (length (set v t e)) (set v t e) h (n + 1)
      ≡ window empty_entry (length v) v h n ++ (e ∷ [])
pushed_window v h t n e r lt =
    rw (length-set v t e, add-one)
      (window-push empty_entry (length v) v t h n e refl r.head_in lt r.tail_at)

pub rob_entries-push :
    (c : Context) (e : RobEntry)
    → HasRings c
    → c.rob_num < length c.rob
    → rob_entries (push_rob c e) ≡ rob_entries c ++ (e ∷ [])
rob_entries-push c e r lt = pushed_window c.rob c.rob_head c.rob_tail c.rob_num e r.rob_ring lt

lsq_entries-push :
    (c : Context) (e : RobEntry)
    → HasRings c
    → c.lsq_num < length c.lsq
    → lsq_entries (push_lsq c e) ≡ lsq_entries c ++ (e ∷ [])
lsq_entries-push c e r lt = pushed_window c.lsq c.lsq_head c.lsq_tail c.lsq_num e r.lsq_ring lt

pub pop_rob-HasRings : (c : Context) → HasRings c → c.rob_num ≢ 0 → HasRings (pop_rob c)
pop_rob-HasRings c r ne = record { rob_ring = pop-IsRing r.rob_ring ne; lsq_ring = r.lsq_ring }

pub pop_lsq-HasRings : (c : Context) → HasRings c → c.lsq_num ≢ 0 → HasRings (pop_lsq c)
pop_lsq-HasRings c r ne = record { rob_ring = r.rob_ring; lsq_ring = pop-IsRing r.lsq_ring ne }

window_of_ne :
    (s : ℕ) (v : List RobEntry) (h n : ℕ)
    → n ≢ 0
    → window empty_entry s v h n
      ≡ get_or v h empty_entry ∷ window empty_entry s v (advance h s) (n - 1)
window_of_ne s v h zero ne = absurd (ne refl)
window_of_ne s v h (suc n) ne =
    ap (λ k. get_or v h empty_entry ∷ window empty_entry s v (advance h s) k) (omega arith)

pub rob_entries-pop :
    (c : Context)
    → c.rob_num ≢ 0
    → rob_entries c ≡ get_or c.rob c.rob_head empty_entry ∷ rob_entries (pop_rob c)
rob_entries-pop c ne = window_of_ne (length c.rob) c.rob c.rob_head c.rob_num ne

lsq_entries-pop :
    (c : Context)
    → c.lsq_num ≢ 0
    → lsq_entries c ≡ get_or c.lsq c.lsq_head empty_entry ∷ lsq_entries (pop_lsq c)
lsq_entries-pop c ne = window_of_ne (length c.lsq) c.lsq c.lsq_head c.lsq_num ne
