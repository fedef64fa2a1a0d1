-- ===== src/Bimodal/Predictor.antt =====
-- The predictor of bpred_bimodal.h and bpred_bimodal.c, made of the table of counters, the branch target
-- buffer and the return address stack, without its statistics. RAS_BUG_COMPATIBLE is not defined.
pub mod Returns
mod Tests
use smt_register_capping.Base.{
  ℕ, Bool, true, false, not, ◌&&◌, ◌||◌, ◌==◌, if◌then◌else◌, List, Option, none, some, Outcome, ok,
  fault, ◌>>=◌, read,
}
use smt_register_capping.Isa.Opcode.{Opcode}
use smt_register_capping.Isa.Flags.{is_ctrl, is_jump, is_indir}
use smt_register_capping.Btb.{Btb, find_pbtb, update_pbtb}
use smt_register_capping.Btb
use smt_register_capping.Retstack
use smt_register_capping.Retstack.{Retstack, top, push, pop}
use smt_register_capping.Bimodal.{new_table, get_index, predicts, update_state}

-- class bpred_bpred_2bit
pub record Predictor : Type 0 where
  pub table : List ℕ
  pub btb : Btb
  pub retstack : Retstack

-- bpred_bpred_2bit::bpred_bpred_2bit
pub new : (bimod_size btb_sets btb_assoc retstack_size : ℕ) → Outcome Predictor
new bimod_size btb_sets btb_assoc retstack_size = do
  retstack ← Retstack.new retstack_size
  btb ← Btb.new btb_sets btb_assoc
  table ← new_table bimod_size
  ok (record { table = table; btb = btb; retstack = retstack })

-- class bpred_update_t, without the fields that this predictor leaves NULL; pdir1 is the index of the
-- counter
pub record PredUpdate : Type 0 where
  pub ras : Bool
  pub pdir1 : Option ℕ

-- what a lookup returns and what it leaves behind its pointers
pub record Prediction : Type 0 where
  pub target : ℕ
  pub dir_update : PredUpdate
  pub stack_recover_idx : ℕ
  pub predictor : Predictor

-- pbtb ? pbtb->target : 1
unfoldable pub buffered_target : Btb → Option ℕ → Outcome ℕ
buffered_target b none = ok 1
buffered_target b (some i) = do e ← read b.entries i; ok e.target

-- the prediction of a conditional branch, from the counter that pdir1 names
conditional_target : Predictor → Option ℕ → Option ℕ → Outcome ℕ
unfolding buffered_target
conditional_target p pbtb none = fault
conditional_target p pbtb (some i) = do
  taken ← predicts p.table i
  if taken then buffered_target p.btb pbtb else ok 0

-- the prediction from the branch target buffer and the direction
predict_target : Predictor → (baddr : ℕ) → Opcode → Option ℕ → Outcome ℕ
unfolding buffered_target conditional_target
predict_target p baddr op pdir1 = do
  pbtb ← find_pbtb p.btb baddr
  if is_jump op then buffered_target p.btb pbtb else conditional_target p pbtb pdir1

-- bpred_bpred_2bit::bpred_lookup, with the former values of what its pointers name
pub lookup :
    Predictor
    → (baddr : ℕ) → Opcode
    → (is_call is_return : Bool) → PredUpdate
    → (stack_recover_idx : ℕ) → Outcome Prediction
unfolding predict_target
lookup p baddr op is_call is_return former idx =
    if not (is_ctrl op)
    then ok (record { target = 0; dir_update = former; stack_recover_idx = idx; predictor = p })
    else (let pdir1 = if is_jump op then none else some (get_index p.table baddr) in
        let former_top = top p.retstack in
        if is_return && not (p.retstack.size == 0)
        then (do
          popped ← pop p.retstack
          ok (record {
            target = popped.0;
            dir_update = record { ras = true; pdir1 = pdir1 };
            stack_recover_idx = former_top;
            predictor = record p { retstack = popped.1 };
          }))
        else (do
          pushed ←
              (if is_call && not (p.retstack.size == 0)
                then push p.retstack baddr
                else ok p.retstack)
          target ← predict_target p baddr op pdir1
          ok (record {
            target = target;
            dir_update = record { ras = false; pdir1 = pdir1 };
            stack_recover_idx = former_top;
            predictor = record p { retstack = pushed };
          })))

-- bpred_bpred_2bit::bpred_update
pub update :
    Predictor
    → (baddr btarget : ℕ) → (taken correct : Bool) → Opcode
    → PredUpdate
    → Outcome Predictor
update p baddr btarget taken correct op dir_update =
    if not (is_ctrl op) || (is_indir op && dir_update.ras) then ok p else (do
      found ← update_pbtb p.btb taken baddr
      table ← update_state p.table dir_update.pdir1 taken
      btb ← Btb.update found.1 found.0 taken baddr correct btarget
      ok (record p { table = table; btb = btb }))
