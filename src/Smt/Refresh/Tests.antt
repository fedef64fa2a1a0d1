-- ===== src/Smt/Refresh/Tests.antt =====
-- An LSQ with a store to 8 whose value is late, a load from 16, which goes, and a load from 8.
use smt_register_capping.Base.{◌+◌, ℕ, ◌≡◌, refl, true, List, [], ◌∷◌, some, ok, arith}
use smt_register_capping.Inflight.{RsLink, inorderinsert}
use smt_register_capping.Isa.Opcode.{Opcode}
use smt_register_capping.RegFile.Physical.{RegFile, fresh_physreg, access}
use smt_register_capping.Isa.Flags.{is_load, is_store}
use smt_register_capping.RegFile.RegSet.{get_reg_set}
use smt_register_capping.Smt.State.{RobEntry, empty_entry, Context, lsq_entries}
use smt_register_capping.Smt.Refresh.{scan_lsq}
use smt_register_capping.Smt.Refresh.Order.{AllReadable, refreshed, joining}
use smt_register_capping.Smt.Refresh.Walk.{scan_lsq-refreshed}

-- register 0 is ready at cycle 0, register 1 at cycle 9
abbrev files : RegFile
files = record {
  intregs = record fresh_physreg { spec_ready = 0 } ∷ record fresh_physreg { spec_ready = 9 } ∷ [];
  fpregs = [];
}

abbrev late_store : RobEntry
late_store = record empty_entry {
  op = Opcode.stq;
  addr = 8;
  dispatched = true;
  src_physreg0 = some 1;
  src_physreg1 = some 0;
}

abbrev load_from : ℕ → ℕ → RobEntry
load_from a n = record empty_entry {
  op = Opcode.ldq;
  addr = a;
  seq = n;
  dispatched = true;
  src_physreg1 = some 0;
}

abbrev thread : Context
thread = record {
  rename_table = [];
  rob = [];
  rob_head = 0;
  rob_tail = 0;
  rob_num = 0;
  lsq = load_from 8 3 ∷ empty_entry ∷ late_store ∷ load_from 16 2 ∷ [];
  lsq_head = 2;
  lsq_tail = 1;
  lsq_num = 3;
  dcra_int_rf = 0;
  dcra_fp_rf = 0;
}

abbrev address : ℕ → ℕ
address i = 1000 + i

readable : AllReadable files 5 (lsq_entries thread)
unfolding get_reg_set access
readable = (λ e. cc, λ e. cc, (λ e. cc, λ e. cc, (λ e. cc, λ e. cc, tt)))

-- the load from 16 goes alone
lets_one_go :
    scan_lsq address files 5 2 3 [] thread.lsq []
    ≡ ok (
      load_from 8 3 ∷ empty_entry ∷ late_store ∷ record (load_from 16 2) { queued = true } ∷ [],
      record { rs = some 1003; x = 2 } ∷ [],
    )
unfolding scan_lsq get_reg_set access is_store is_load inorderinsert
lets_one_go = refl

scan_lsq-refreshed_example :
    (lsq' : List RobEntry) × (queue' : List RsLink) × (scan_lsq address files 5 2 3 [] thread.lsq []
      ≡ ok (lsq', queue'))
    × (lsq_entries (record thread { lsq = lsq' }) ≡ refreshed files 5 [] (lsq_entries thread))
    × (queue' ≡ joining files 5 address 4 2 [] (lsq_entries thread) [])
scan_lsq-refreshed_example =
    scan_lsq-refreshed files 5 address thread [] (omega arith) (omega arith) readable
