-- ===== src/Bimodal/Predictor/Returns.antt =====
-- A call and its return, through the whole predictor.
use smt_register_capping.Base.{
  ℕ, ◌+◌, ◌%◌, ◌<◌, ◌≡◌, refl, true, false, ◌==◌, if◌then◌else◌, List, ◌∷◌, Option, none, some, ok,
  length, arith,
}
use smt_register_capping.Isa.Opcode.{Opcode}
use smt_register_capping.Isa.Flags.{is_ctrl, is_jump}
use smt_register_capping.Btb.{Btb, find_pbtb}
use smt_register_capping.Btb.Taken.{find_pbtb-read}
use smt_register_capping.Retstack.{Retstack, top, word, inst_size}
use smt_register_capping.Retstack.Lifo.{IsStack, Holds, push-Holds, pop-Holds}
use smt_register_capping.Bimodal.{get_index}
use smt_register_capping.Bimodal.Predictor.{
  Predictor, PredUpdate, Prediction, buffered_target, predict_target, lookup,
}

buffered_target-total :
    (b : Btb) (baddr : ℕ) (found : Option ℕ)
    → find_pbtb b baddr ≡ ok found
    → (t : ℕ) × (buffered_target b found ≡ ok t)
unfolding buffered_target
buffered_target-total b baddr none h = (1, refl)
buffered_target-total b baddr (some i) h =
    let (e, there) = find_pbtb-read b baddr h in (e.target, rw there refl)

-- a stack that is not empty
nonzero : (s : Retstack) → IsStack s → (s.size == 0) ≡ false
nonzero s v = let lt = v.top_in in ground arith

-- what the lookup of a call leaves
record Called (p : Predictor) (baddr : ℕ) (rs : List ℕ) (r : Prediction) : Type 0 where
  pub handed_back : r.stack_recover_idx ≡ p.retstack.tos
  pub btb : r.predictor.btb ≡ p.btb
  pub table : r.predictor.table ≡ p.table
  pub shape : IsStack r.predictor.retstack
  pub held : Holds r.predictor.retstack ((baddr + inst_size) % word ∷ rs)

lookup-Called :
    (p : Predictor) (baddr : ℕ) (op : Opcode) (former : PredUpdate) (idx : ℕ) (rs : List ℕ)
    {found : Option ℕ}
    → is_ctrl op ≡ true
    → is_jump op ≡ true
    → IsStack p.retstack
    → length rs < p.retstack.size
    → Holds p.retstack rs
    → find_pbtb p.btb baddr ≡ ok found
    → (r : Prediction) × (lookup p baddr op true false former idx ≡ ok r) × Called p baddr rs r
unfolding lookup predict_target top
lookup-Called p baddr op former idx rs {found} ctrl jump v room held h =
    let (s, pushed, w, held1) = push-Holds p.retstack baddr rs v room held in
    let (t, target) = buffered_target-total p.btb baddr found h in
    let n = nonzero p.retstack v in
    (
      record {
        target = t;
        dir_update = record { ras = false; pdir1 = none };
        stack_recover_idx = p.retstack.tos;
        predictor = record p { retstack = s };
      },
      rw (ctrl, jump, n, pushed, h, target) refl,
      record { handed_back = refl; btb = refl; table = refl; shape = w; held = held1 },
    )

-- On a predictor whose return address stack is well formed, holds some addresses and has room for one
-- more, when the search of the branch target buffer for the call ends: the lookup of a call that is
-- a jump does not abort and hands back the former top of the stack, and the lookup of a return right
-- after it predicts the address behind the call, says that the return address stack was used, and
-- leaves the stack with the addresses that it held before the call, and the table and the branch target
-- buffer as they were.
pub lookup-call_return :
    (p : Predictor) (baddr raddr : ℕ) (call return : Opcode) (former : PredUpdate) (idx : ℕ)
    (rs : List ℕ) {found : Option ℕ}
    → is_ctrl call ≡ true
    → is_jump call ≡ true
    → is_ctrl return ≡ true
    → IsStack p.retstack
    → length rs < p.retstack.size
    → Holds p.retstack rs
    → find_pbtb p.btb baddr ≡ ok found
    → (r r' : Prediction) × (lookup p baddr call true false former idx ≡ ok r)
      × (r.stack_recover_idx ≡ p.retstack.tos)
      × (lookup r.predictor raddr return false true r.dir_update r.stack_recover_idx ≡ ok r')
      × (r'.target ≡ (baddr + inst_size) % word)
      × (r'.dir_update.ras ≡ true)
      × (r'.predictor ≡ record p { retstack = r'.predictor.retstack })
      × IsStack r'.predictor.retstack
      × Holds r'.predictor.retstack rs
unfolding lookup
lookup-call_return p baddr raddr call return former idx rs ctrl jump ctrl1 v room held h =
    let (r, called, c) = lookup-Called p baddr call former idx rs ctrl jump v room held h in
    let (s, popped, w, held1) =
      pop-Holds r.predictor.retstack ((baddr + inst_size) % word) rs c.shape c.held in
    let n = nonzero r.predictor.retstack c.shape in
    let pdir1 = if is_jump return then none else some (get_index r.predictor.table raddr) in
    (
      r,
      record {
        target = (baddr + inst_size) % word;
        dir_update = record { ras = true; pdir1 = pdir1 };
        stack_recover_idx = top r.predictor.retstack;
        predictor = record r.predictor { retstack = s };
      },
      called,
      c.handed_back,
      rw (ctrl1, n, popped) refl,
      refl,
      refl,
      rw (c.btb, c.table) refl,
      w,
      held1,
    )
