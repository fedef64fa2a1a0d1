-- ===== src/TwoLevel.antt =====
-- The predictor of bpred_two_level.h and bpred_two_level.c, without its statistics: registers with the
-- last outcomes of branches, and a table of two-bit counters that they index. RAS_BUG_COMPATIBLE is not
-- defined. The counters are trained as in Bimodal, whose text for them is the same.
pub mod History
mod Tests
use smt_register_capping.Base.{
  ℕ, ◌+◌, ◌-◌, ◌*◌, ◌/◌, ◌%◌, ◌^◌, Bool, true, false, not, ◌&&◌, ◌||◌, leb, ◌==◌, if◌then◌else◌,
  List, Option, none, some, Outcome, ok, fault, ◌>>=◌, ◌>>◌, assert, read, length, set, replicate,
  bit_and, bit_or, bit_xor,
}
use smt_register_capping.Isa.Opcode.{Opcode}
use smt_register_capping.Isa.Flags.{is_ctrl, is_jump, is_indir}
use smt_register_capping.Btb.{Btb, find_pbtb, update_pbtb}
use smt_register_capping.Btb
use smt_register_capping.Retstack
use smt_register_capping.Retstack.{Retstack, top, push, pop}
use smt_register_capping.Bimodal.{flip_flop, predicts, update_state}
use smt_register_capping.Bimodal.Predictor.{PredUpdate, buffered_target}

-- class bpred_bpred_2Level
pub record TwoLevel : Type 0 where
  pub btb : Btb
  pub l1size : ℕ
  pub l2size : ℕ
  pub shift_width : ℕ
  pub use_xor : Bool
  pub shiftregs : List ℕ
  pub l2table : List ℕ
  pub retstack : Retstack

-- bpred_bpred_2Level::bpred_bpred_2Level
pub new :
    (l1size l2size shift_width : ℕ)
    → (use_xor : Bool) → (btb_sets btb_assoc retstack_size : ℕ) → Outcome TwoLevel
new l1size l2size shift_width use_xor btb_sets btb_assoc retstack_size = do
  retstack ← Retstack.new retstack_size
  btb ← Btb.new btb_sets btb_assoc
  assert (not (l1size == 0) && bit_and l1size (l1size - 1) == 0)
  assert (not (l2size == 0) && bit_and l2size (l2size - 1) == 0)
  assert (not (shift_width == 0) && leb shift_width 30)
  ok (record {
    btb = btb;
    l1size = l1size;
    l2size = l2size;
    shift_width = shift_width;
    use_xor = use_xor;
    shiftregs = replicate l1size 0;
    l2table = flip_flop l2size 1;
    retstack = retstack;
  })

-- (baddr >> MD_BR_SHIFT) & (l1size - 1)
abbrev pub l1_index : TwoLevel → (baddr : ℕ) → ℕ
l1_index p baddr = bit_and (baddr / 2 ^ 2) (p.l1size - 1)

-- bpred_bpred_2Level::get_index, as an index of l2table; l2index is an int
pub get_index : TwoLevel → (baddr : ℕ) → Outcome ℕ
get_index p baddr = do
  history ← read p.shiftregs (l1_index p baddr)
  let pc = baddr / 2 ^ 2
  let high = pc * 2 ^ p.shift_width % 2 ^ 64
  let l2index =
      if p.use_xor
      then bit_or (bit_and (bit_xor history pc) (2 ^ p.shift_width - 1)) high
      else bit_or history high
  ok (bit_and (l2index % 2 ^ 32) (p.l2size - 1))

-- what a lookup returns and what it leaves behind its pointers
pub record Prediction : Type 0 where
  pub target : ℕ
  pub dir_update : PredUpdate
  pub stack_recover_idx : ℕ
  pub predictor : TwoLevel

conditional_target : TwoLevel → Option ℕ → Option ℕ → Outcome ℕ
unfolding buffered_target
conditional_target p pbtb none = fault
conditional_target p pbtb (some i) = do
  taken ← predicts p.l2table i
  if taken then buffered_target p.btb pbtb else ok 0

predict_target : TwoLevel → (baddr : ℕ) → Opcode → Option ℕ → Outcome ℕ
unfolding conditional_target
predict_target p baddr op pdir1 = do
  pbtb ← find_pbtb p.btb baddr
  if is_jump op then buffered_target p.btb pbtb else conditional_target p pbtb pdir1

-- pdir1, which is NULL for a jump
direction_index : TwoLevel → (baddr : ℕ) → Opcode → Outcome (Option ℕ)
unfolding get_index
direction_index p baddr op = if is_jump op then ok none else (do i ← get_index p baddr; ok (some i))

-- bpred_bpred_2Level::bpred_lookup, with the former values of what its pointers name
pub lookup :
    TwoLevel
    → (baddr : ℕ) → Opcode
    → (is_call is_return : Bool) → PredUpdate
    → (stack_recover_idx : ℕ) → Outcome Prediction
unfolding predict_target direction_index
lookup p baddr op is_call is_return former idx =
    if not (is_ctrl op)
    then ok (record { target = 0; dir_update = former; stack_recover_idx = idx; predictor = p })
    else (do
      pdir1 ← direction_index p baddr op
      let former_top = top p.retstack
      if is_return && not (p.retstack.size == 0)
          then (do
            popped ← pop p.retstack
            ok (record {
              target = popped.0;
              dir_update = record { ras = true; pdir1 = pdir1 };
              stack_recover_idx = former_top;
              predictor = record p { retstack = popped.1 };
            }))
          else (do
            pushed ←
                (if is_call && not (p.retstack.size == 0)
                  then push p.retstack baddr
                  else ok p.retstack)
            target ← predict_target p baddr op pdir1
            ok (record {
              target = target;
              dir_update = record { ras = false; pdir1 = pdir1 };
              stack_recover_idx = former_top;
              predictor = record p { retstack = pushed };
            })))

-- bpred_bpred_2Level::update_table
pub update_table : TwoLevel → (baddr : ℕ) → (taken : Bool) → Outcome TwoLevel
update_table p baddr taken = do
  history ← read p.shiftregs (l1_index p baddr)
  let shift_reg = bit_or (history * 2) (if taken then 1 else 0)
  ok (record p {
    shiftregs = set p.shiftregs (l1_index p baddr) (bit_and shift_reg (2 ^ p.shift_width - 1));
  })

-- bpred_bpred_2Level::bpred_update
pub update :
    TwoLevel → (baddr btarget : ℕ) → (taken correct : Bool) → Opcode → PredUpdate → Outcome TwoLevel
unfolding update_table
update p baddr btarget taken correct op dir_update =
    if not (is_ctrl op) || (is_indir op && dir_update.ras) then ok p else (do
      p1 ← if is_jump op then ok p else update_table p baddr taken
      found ← update_pbtb p1.btb taken baddr
      l2table ← update_state p1.l2table dir_update.pdir1 taken
      btb ← Btb.update found.1 found.0 taken baddr correct btarget
      ok (record p1 { l2table = l2table; btb = btb }))
