-- ===== src/Iq.antt =====
-- The issue queue of iq.h and iq.c: a vector of entries, each free or allocated. The vector has
-- fewer than 2^31 entries, so the loop's int index does not wrap.
mod Tests
pub mod Laws
use smt_register_capping.Base.{
  ℕ, ◌==◌, if◌then◌else◌, List, [], ◌∷◌, Option, none, some, Outcome, ok, ◌>>=◌, ◌>>◌, assert, read,
  length, set, take, replicate, find_index, ◌++◌, ◌-◌,
}

-- IQ_ENTRY_FREE and IQ_ENTRY_ALLOC
abbrev pub iq_entry_free : ℕ
iq_entry_free = 0

abbrev pub iq_entry_alloc : ℕ
iq_entry_alloc = 1

pub record IssueQueue : Type 0 where
  pub used : List ℕ

-- issue_queue_t(size): `used(size)` holds zeroes
unfoldable new : ℕ → IssueQueue
new n = record { used = replicate n iq_entry_free }

-- vector::resize drops entries at the end, or adds zeroes there
unfoldable resize : IssueQueue → ℕ → IssueQueue
resize q n = record { used = take n q.used ++ replicate (n - length q.used) 0 }

unfoldable pub size : IssueQueue → ℕ
size q = length q.used

unfoldable clear : IssueQueue → IssueQueue
clear q = record { used = replicate (length q.used) iq_entry_free }

pub free_iq_entry : IssueQueue → ℕ → Outcome IssueQueue
free_iq_entry q entry_num = do
  entry ← read q.used entry_num
  assert (entry == iq_entry_alloc)
  ok (record { used = set q.used entry_num iq_entry_free })

-- `none` is the result -1
find_iq_entry : IssueQueue → Option ℕ
find_iq_entry q = find_index (λ e. e == iq_entry_free) q.used

-- the rest of alloc_iq_entry, from the index that the search gave
take_entry : IssueQueue → Option ℕ → Outcome (Option ℕ × IssueQueue)
take_entry q none = ok (none, q)
take_entry q (some i) = do
  entry ← read q.used i
  assert (entry == iq_entry_free)
  ok (some i, record { used = set q.used i iq_entry_alloc })

pub alloc_iq_entry : IssueQueue → Outcome (Option ℕ × IssueQueue)
unfolding take_entry find_iq_entry
alloc_iq_entry q = take_entry q (find_iq_entry q)
