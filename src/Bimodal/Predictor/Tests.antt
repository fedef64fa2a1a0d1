-- ===== src/Bimodal/Predictor/Tests.antt =====
-- Runs of a predictor with four counters, four direct-mapped buffer entries and a stack of two.
use smt_register_capping.Base.{
  ◌+◌, ◌%◌, ◌≡◌, refl, true, false, [], ◌∷◌, none, some, ok, arith, replicate,
}
use smt_register_capping.Isa.Opcode.{Opcode}
use smt_register_capping.Isa.Flags.{is_ctrl, is_jump, is_indir}
use smt_register_capping.Btb
use smt_register_capping.Btb.{BtbEntry, find_pbtb, search_set, fresh_entry, update_pbtb}
use smt_register_capping.Retstack
use smt_register_capping.Retstack.{top, push, pop, word, inst_size}
use smt_register_capping.Retstack.Lifo.{IsStack, Holds}
use smt_register_capping.Bimodal.{new_table, get_index, predicts, update_state}
use smt_register_capping.Bimodal.Predictor.{
  Predictor, PredUpdate, Prediction, new, lookup, update, predict_target, conditional_target,
  buffered_target,
}
use smt_register_capping.Bimodal.Predictor.Returns.{lookup-call_return}

abbrev small : Predictor
small = record {
  table = 1 ∷ 2 ∷ 1 ∷ 2 ∷ [];
  btb = record { sets = 4; assoc = 1; entries = replicate 4 fresh_entry };
  retstack = record { size = 2; tos = 1; stack = 0 ∷ 0 ∷ []; pops = 0; pushes = 0 };
}

new_small : new 4 4 1 2 ≡ ok small
unfolding new new_table Btb.new Retstack.new
new_small = refl

call_is_jump : (is_ctrl Opcode.bsr ≡ true) × (is_jump Opcode.bsr ≡ true)
unfolding is_ctrl is_jump
call_is_jump = (refl, refl)

return_is_ctrl : is_ctrl Opcode.retn ≡ true
unfolding is_ctrl
return_is_ctrl = refl

abbrev no_update : PredUpdate
no_update = record { ras = false; pdir1 = none }

small-IsStack : IsStack small.retstack
small-IsStack = record { top_in = omega arith; room = refl; small = omega arith }

not_buffered : find_pbtb small.btb 40 ≡ ok none
unfolding find_pbtb search_set
not_buffered = refl

lookup-call_return_example :
    (r r' : Prediction) × (lookup small 40 Opcode.bsr true false no_update 0 ≡ ok r)
    × (r.stack_recover_idx ≡ 1)
    × (lookup r.predictor 80 Opcode.retn false true r.dir_update r.stack_recover_idx ≡ ok r')
    × (r'.target ≡ (40 + inst_size) % word)
    × (r'.dir_update.ras ≡ true)
    × (r'.predictor ≡ record small { retstack = r'.predictor.retstack })
    × IsStack r'.predictor.retstack
    × Holds r'.predictor.retstack []
lookup-call_return_example =
    lookup-call_return small 40 80 Opcode.bsr Opcode.retn no_update 0 [] call_is_jump.0
      call_is_jump.1 return_is_ctrl small-IsStack (omega arith) tt not_buffered

-- a taken conditional branch is learnt: its counter and its target
abbrev learnt : Predictor
learnt = record small {
  table = 1 ∷ 2 ∷ 2 ∷ 2 ∷ [];
  btb = record small.btb {
    entries =
        fresh_entry
        ∷ fresh_entry
        ∷ record fresh_entry { addr = 40; target = 400 }
        ∷ fresh_entry
        ∷ [];
  };
}

learns :
    update small 40 400 true false Opcode.beq (record { ras = false; pdir1 = some 2 }) ≡ ok learnt
unfolding is_ctrl is_indir update update_pbtb Btb.update update_state
learns = refl

recalls :
    lookup learnt 40 Opcode.beq false false no_update 0
    ≡ ok (record {
      target = 400;
      dir_update = record { ras = false; pdir1 = some 2 };
      stack_recover_idx = 1;
      predictor = learnt;
    })
unfolding is_ctrl is_jump lookup predict_target conditional_target buffered_target predicts
    find_pbtb search_set top get_index
recalls = refl
