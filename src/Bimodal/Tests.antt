-- ===== src/Bimodal/Tests.antt =====
-- A branch whose counter is 0, in a table of two.
use smt_register_capping.Base.{ℕ, ◌≡◌, ◌≢◌, true, List, [], ◌∷◌, some, ok, ◌>>=◌, get_or, arith}
use smt_register_capping.Bimodal.{predicts, update_state}
use smt_register_capping.Bimodal.Training.{IsCounter, update_state-predicts}

abbrev table : List ℕ
table = 0 ∷ 2 ∷ []

update_state-predicts_example :
    (t : List ℕ) × ((update_state table (some 0) true >>= λ u. update_state u (some 0) true) ≡ ok t)
    × (predicts t 0 ≡ ok true)
    × IsCounter t 0
    × ((j : ℕ) → 0 ≢ j → get_or t j 0 ≡ get_or table j 0)
update_state-predicts_example =
    update_state-predicts table 0 true (record { in_range = omega arith; two_bits = omega arith })
