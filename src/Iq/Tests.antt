-- ===== src/Iq/Tests.antt =====
-- An issue queue with one entry allocated and one free.
use smt_register_capping.Base.{ℕ, ◌≡◌, refl, ◌⊎◌, inl, inr, [], ◌∷◌, none, some, ok}
use smt_register_capping.Iq.{IssueQueue, size, alloc_iq_entry}
use smt_register_capping.Iq.Laws.{IsValid, occupied, Allocated, alloc_iq_entry_lem}

abbrev half : IssueQueue
half = record { used = 1 ∷ 0 ∷ [] }

half-IsValid : IsValid half
half-IsValid = (inr refl, (inl refl, tt))

alloc_iq_entry_lem_example :
    ((alloc_iq_entry half ≡ ok (none, half)) × (occupied half ≡ size half))
    ⊎ ((i : ℕ) × (q : IssueQueue) × (alloc_iq_entry half ≡ ok (some i, q)) × Allocated half i q)
alloc_iq_entry_lem_example = alloc_iq_entry_lem half half-IsValid
