-- ===== src/Inflight/Tests.antt =====
-- A ready queue of two instructions, and a third between them.
use smt_register_capping.Base.{ℕ, refl, List, [], ◌∷◌, some}
use smt_register_capping.Inflight.{RsLink, seq_sort, inorderinsert}
use smt_register_capping.Inflight.Sorted.{IsSorted, Place, inorderinsert_lem, link_less-IsOrder}

abbrev link : ℕ → ℕ → RsLink
link rs seq = record { rs = some rs; x = seq }

abbrev ready : List RsLink
ready = link 0 3 ∷ link 1 8 ∷ []

ready-IsSorted : IsSorted seq_sort ready
unfolding seq_sort
ready-IsSorted = ((refl, tt), (tt, tt))

inorderinsert_lem_example :
    IsSorted seq_sort (inorderinsert seq_sort (link 2 5) ready)
    × Place seq_sort (link 2 5) ready (inorderinsert seq_sort (link 2 5) ready)
inorderinsert_lem_example =
    inorderinsert_lem seq_sort link_less-IsOrder.1 (link 2 5) ready ready-IsSorted
