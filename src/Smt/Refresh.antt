-- ===== src/Smt/Refresh.antt =====
-- lsq_refresh of sim-outorder.c: the walk over the LSQ of a thread that puts loads into the ready queue
-- whose earlier stores allow it. std::set is a list here. The pointer to LSQ[index] of a thread is an
-- argument, `address`.
pub mod Order
pub mod Walk
mod Tests
use smt_register_capping.Base.{
  ℕ, zero, suc, Bool, true, false, ◌&&◌, ◌||◌, not, ◌==◌, if◌then◌else◌, List, [], ◌∷◌, Option,
  none, some, Outcome, ok, ◌>>=◌, ◌>>◌, assert, read, length, set,
}
use smt_register_capping.Inflight.{RsLink, seq_sort, inorderinsert}
use smt_register_capping.Isa.Flags.{is_load, is_store}
use smt_register_capping.RegFile.RegSet.{get_reg_set}
use smt_register_capping.RegFile.Physical.{RegFile}
use smt_register_capping.Smt.Ring.{advance}
use smt_register_capping.Smt.State.{RobEntry, Context, Machine, put_context}
use smt_register_capping.Smt.Operands.{operand_due, all_operands_spec_ready}

-- std_unknowns.find, insert and erase
abbrev pub contains : ℕ → List ℕ → Bool
contains a [] = false
contains a (b ∷ s) = a == b || contains a s

abbrev pub insert_addr : ℕ → List ℕ → List ℕ
insert_addr a s = if contains a s then s else a ∷ s

abbrev pub erase_addr : ℕ → List ℕ → List ℕ
erase_addr a [] = []
erase_addr a (b ∷ s) = if a == b then erase_addr a s else b ∷ erase_addr a s

-- STORE_ADDR_READY
abbrev pub store_addr_ready : RegFile → ℕ → RobEntry → Outcome Bool
store_addr_ready f cycle rs =
    operand_due (λ r. r.spec_ready) f cycle rs.src_physreg1 (get_reg_set rs.op).src2

-- std_unknowns after an entry, or nothing where the search ends
pub pass_store : RegFile → ℕ → RobEntry → List ℕ → Outcome (Option (List ℕ))
pass_store f cycle rs unknowns =
    if is_store rs.op
    then (do
      known ← store_addr_ready f cycle rs
      elim known [
        | false ↦ ok none
        | true ↦ do
          ready ← all_operands_spec_ready f cycle rs
          ok (some (if ready then erase_addr rs.addr unknowns else insert_addr rs.addr unknowns))
      ])
    else ok (some unknowns)

-- the test of a load, up to its operands
abbrev pub is_candidate : RobEntry → Bool
is_candidate rs =
    is_load rs.op && rs.dispatched && not rs.queued && not rs.issued && not rs.completed

pub takes_load : RegFile → ℕ → RobEntry → List ℕ → Outcome Bool
takes_load f cycle rs unknowns =
    if is_candidate rs
    then (do
      ready ← all_operands_spec_ready f cycle rs
      ok (ready && not (contains rs.addr unknowns)))
    else ok false

module _ (address : ℕ → ℕ) where
  abbrev pub load_link : ℕ → RobEntry → RsLink
  load_link index rs = record { rs = some (address index); x = rs.seq }

  -- readyq_enqueue
  readyq_enqueue :
      RegFile
      → ℕ
      → ℕ
      → RobEntry
      → List RobEntry
      → List RsLink
      → Outcome (List RobEntry × List RsLink)
  readyq_enqueue f cycle index rs lsq queue = do
    assert (not rs.queued)
    ready ← all_operands_spec_ready f cycle rs
    assert ready
    ok (
      set lsq index (record rs { queued = true }),
      inorderinsert seq_sort (load_link index rs) queue,
    )

  -- the loop over the LSQ, with the number of entries left
  pub scan_lsq :
      RegFile
      → ℕ
      → ℕ
      → (left : ℕ) → List ℕ
      → List RobEntry
      → List RsLink
      → Outcome (List RobEntry × List RsLink)
  unfolding pass_store takes_load readyq_enqueue
  scan_lsq f cycle index zero unknowns lsq queue = ok (lsq, queue)
  scan_lsq f cycle index (suc left) unknowns lsq queue = do
    rs ← read lsq index
    passed ← pass_store f cycle rs unknowns
    elim passed [
      | none ↦ ok (lsq, queue)
      | some unknowns1 ↦ do
        go ← takes_load f cycle rs unknowns1
        (lsq1, queue1) ← if go then readyq_enqueue f cycle index rs lsq queue else ok (lsq, queue)
        scan_lsq f cycle (advance index (length lsq)) left unknowns1 lsq1 queue1
    ]

-- lsq_refresh, over the threads of the core; `address` is the pointer to an entry of a thread's LSQ
lsq_refresh :
    (address : ℕ → ℕ → ℕ)
    → Machine
    → (context_ids : List ℕ) → List RsLink
    → Outcome (Machine × List RsLink)
unfolding scan_lsq
lsq_refresh address m [] queue = ok (m, queue)
lsq_refresh address m (cid ∷ context_ids) queue = do
  c ← read m.contexts cid
  (lsq, queue1) ← scan_lsq (address cid) m.regs m.sim_cycle c.lsq_head c.lsq_num [] c.lsq queue
  lsq_refresh address (put_context m cid (record c { lsq = lsq })) context_ids queue1
