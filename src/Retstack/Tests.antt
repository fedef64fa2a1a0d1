-- ===== src/Retstack/Tests.antt =====
-- A stack of four entries that holds one return address.
use smt_register_capping.Base.{◌≡◌, refl, [], ◌∷◌, ok, arith}
use smt_register_capping.Retstack.{Retstack, pop}
use smt_register_capping.Retstack.Lifo.{IsStack, Holds, pop-Holds}

abbrev one : Retstack
one = record { size = 4; tos = 0; stack = 104 ∷ 0 ∷ 0 ∷ 0 ∷ []; pops = 0; pushes = 1 }

one-IsStack : IsStack one
one-IsStack = record { top_in = omega arith; room = refl; small = omega arith }

pop-Holds_example : (s : Retstack) × (pop one ≡ ok (104, s)) × IsStack s × Holds s []
pop-Holds_example = pop-Holds one 104 [] one-IsStack (refl, tt)
