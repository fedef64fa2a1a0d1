-- ===== src/Iq/Laws.antt =====
-- The issue queue as a pool of entries: what allocation and release do to it.
use smt_register_capping.Base.{
  ℕ, zero, suc, ◌+◌, ◌<◌, ◌≡◌, refl, ◌⊎◌, inl, inr, false, ◌==◌, List, [], ◌∷◌, none, some, ok,
  arith, length, set, get_or, count_if, Option-cases, read_of_lt, length-set, get_or-set_self,
  set-set, set-get_or, find_index-some, find_index-before, find_index-none, count_if-set,
}
use smt_register_capping.Iq.{
  IssueQueue, iq_entry_free, iq_entry_alloc, size, free_iq_entry, find_iq_entry, alloc_iq_entry,
  take_entry,
}

-- every entry is free or allocated
abbrev AreEntries : List ℕ → Type 0
AreEntries [] = Unit {0}
AreEntries (e ∷ es) = ((e ≡ iq_entry_free) ⊎ (e ≡ iq_entry_alloc)) × AreEntries es

abbrev pub IsValid : IssueQueue → Type 0
IsValid q = AreEntries q.used

abbrev pub occupied : IssueQueue → ℕ
occupied q = count_if (λ e. e == iq_entry_alloc) q.used

abbrev pub entry : IssueQueue → ℕ → ℕ
entry q i = get_or q.used i 0

-- the entry that allocation hands out, and the queue that it leaves
pub record Allocated (q : IssueQueue) (i : ℕ) (q' : IssueQueue) : Type 0 where
  pub in_range : i < size q
  pub was_free : entry q i ≡ iq_entry_free
  pub first : (j : ℕ) → j < i → entry q j ≡ iq_entry_alloc
  pub counted : occupied q' ≡ occupied q + 1
  pub same_size : size q' ≡ size q
  pub freed : free_iq_entry q' i ≡ ok q

AreEntries-get_or :
    (xs : List ℕ) (i : ℕ)
    → AreEntries xs
    → i < length xs
    → (get_or xs i 0 ≡ iq_entry_free) ⊎ (get_or xs i 0 ≡ iq_entry_alloc)
AreEntries-get_or [] i v h = absurd (omega arith)
AreEntries-get_or (x ∷ xs) zero v h = v.0
AreEntries-get_or (x ∷ xs) (suc i) v h = AreEntries-get_or xs i v.1 (omega arith)

AreEntries-full :
    (xs : List ℕ)
    → AreEntries xs
    → ((j : ℕ) → j < length xs → (get_or xs j 0 == iq_entry_free) ≡ false)
    → count_if (λ e. e == iq_entry_alloc) xs ≡ length xs
AreEntries-full [] v h = refl
AreEntries-full (x ∷ xs) v h =
    ground (arith, h 0, AreEntries-full xs v.1 (λ j lt. h (suc j) (omega arith)))

-- marking a free entry, and releasing it again
module _ (q : IssueQueue) (i : ℕ) (v : IsValid q) (found : find_iq_entry q ≡ some i) where
  abbrev marked : IssueQueue
  marked = record { used = set q.used i iq_entry_alloc }

  found_free : (i < length q.used) × (get_or q.used i 0 ≡ 0)
  unfolding find_iq_entry
  found_free = ground (arith, find_index-some (λ e. e == iq_entry_free) q.used i 0)

  marked-Allocated : Allocated q i marked
  unfolding size free_iq_entry find_iq_entry
  marked-Allocated = record {
    in_range = found_free.0;
    was_free = found_free.1;
    first = λ j lt. ground (
      arith,
      find_index-before (λ e. e == iq_entry_free) q.used i j 0,
      found_free,
      AreEntries-get_or q.used j v,
    );
    counted =
        ground
          (arith, found_free, count_if-set (λ e. e == iq_entry_alloc) q.used i iq_entry_alloc 0);
    same_size = length-set q.used i iq_entry_alloc;
    freed = ground (
      arith,
      found_free,
      read_of_lt (set q.used i 1) i 0,
      length-set q.used i 1,
      get_or-set_self q.used i 1 0,
      set-set q.used i 1 0,
      set-get_or q.used i 0,
    );
  }

  alloc-marked : alloc_iq_entry q ≡ ok (some i, marked)
  unfolding alloc_iq_entry
  alloc-marked = ground (arith, found_free, read_of_lt q.used i 0)

alloc-full :
    (q : IssueQueue)
    → IsValid q
    → find_iq_entry q ≡ none
    → (alloc_iq_entry q ≡ ok (none, q)) × (occupied q ≡ size q)
unfolding alloc_iq_entry size find_iq_entry
alloc-full q v e = (
  rw (e, take_entry),
  AreEntries-full q.used v (λ j lt. find_index-none (λ e. e == iq_entry_free) q.used j 0 e lt),
)

-- On a queue whose entries are each free or allocated, allocation does not abort. Either all
-- entries are allocated, and it returns -1 and changes nothing, or it marks the first free entry,
-- so that one more is allocated, and releasing that entry gives the old queue back.
pub alloc_iq_entry_lem :
    (q : IssueQueue)
    → IsValid q
    → ((alloc_iq_entry q ≡ ok (none, q)) × (occupied q ≡ size q))
      ⊎ ((i : ℕ) × (q' : IssueQueue) × (alloc_iq_entry q ≡ ok (some i, q')) × Allocated q i q')
alloc_iq_entry_lem q v = elim (Option-cases (find_iq_entry q)) [
  | inl e ↦ inl (alloc-full q v e)
  | inr (i, e) ↦ inr (i, marked q i v e, alloc-marked q i v e, marked-Allocated q i v e)
]
