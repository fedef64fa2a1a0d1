-- ===== src/Smt/Waiting.antt =====
-- not_dispatched_count of sim-outorder.c, and what it counts. The count is at most the ROB's size, so
-- it does not wrap.
use smt_register_capping.Base.{
  ℕ, zero, suc, ◌+◌, ◌<◌, ◌≡◌, ap, ◌∙◌, Bool, not, if◌then◌else◌, List, Outcome, ok, ◌>>=◌, read,
  length, arith, count_if, read_of_lt, get_or, Bool-cases, inl, inr,
}
use smt_register_capping.Smt.Ring.{advance, advance-lt, window}
use smt_register_capping.Smt.State.{RobEntry, empty_entry, Context, rob_entries}

-- the loop, with the number of entries left to search
abbrev count_waiting : List RobEntry → ℕ → ℕ → ℕ → Outcome ℕ
count_waiting rob index zero count = ok count
count_waiting rob index (suc left) count = do
  rs ← read rob index
  count_waiting rob (advance index (length rob)) left
      (if not rs.dispatched then count + 1 else count)

pub not_dispatched_count : Context → Outcome ℕ
not_dispatched_count c = count_waiting c.rob c.rob_head c.rob_num 0

abbrev pub is_waiting : RobEntry → Bool
is_waiting e = not e.dispatched

count_waiting-window :
    (rob : List RobEntry) (index left count : ℕ)
    → index < length rob
    → count_waiting rob index left count
      ≡ ok (count + count_if is_waiting (window empty_entry (length rob) rob index left))
count_waiting-window rob index zero count h = ap ok (omega arith)
count_waiting-window rob index (suc left) count h = rw (read_of_lt rob index empty_entry h) (
    count_waiting-window rob (advance index (length rob)) left
      (if not (get_or rob index empty_entry).dispatched then count + 1 else count)
      (advance-lt index (length rob) h)
    ∙ ap ok (elim (Bool-cases (not (get_or rob index empty_entry).dispatched)) [
      | inl e ↦ rw e (omega arith)
      | inr e ↦ rw e (omega arith)
    ]))

-- With the head of the ROB inside it, the walk does not leave the ROB, and it counts the entries in
-- flight that are not dispatched.
pub not_dispatched_count-rob_entries :
    (c : Context)
    → c.rob_head < length c.rob
    → not_dispatched_count c ≡ ok (count_if is_waiting (rob_entries c))
unfolding not_dispatched_count
not_dispatched_count-rob_entries c h =
    count_waiting-window c.rob c.rob_head c.rob_num 0 h ∙ ap ok (omega arith)
