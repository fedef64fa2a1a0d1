-- ===== src/TwoLevel/Tests.antt =====
-- A predictor of two registers of three digits and four counters.
use smt_register_capping.Base.{ℕ, ◌≡◌, ◌≢◌, refl, true, false, [], ◌∷◌, ok, arith}
use smt_register_capping.TwoLevel.{TwoLevel}
use smt_register_capping.TwoLevel.History.{register, train, train-last}

abbrev small : TwoLevel
small = record {
  btb = record { sets = 1; assoc = 1; entries = [] };
  l1size = 2;
  l2size = 4;
  shift_width = 3;
  use_xor = true;
  shiftregs = 0 ∷ 5 ∷ [];
  l2table = 1 ∷ 2 ∷ 1 ∷ 2 ∷ [];
  retstack = record { size = 0; tos = 0; stack = []; pops = 0; pushes = 0 };
}

-- register 1 holds the outcomes 1, 0, 1; then the branch is taken twice
train-last_example :
    (p' : TwoLevel) × (train small 4 (true ∷ true ∷ []) ≡ ok p')
    × (register p' 1 ≡ 7)
    × ((i : ℕ) → 1 ≢ i → register p' i ≡ register small i)
train-last_example =
    train-last small 4 (true ∷ true ∷ []) (true ∷ false ∷ true ∷ []) (omega arith) refl refl
