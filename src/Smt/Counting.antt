-- ===== src/Smt/Counting.antt =====
-- The counters of a thread when an entry joins its ROB or leaves it.
use smt_register_capping.Base.{
  ℕ, ◌+◌, ◌≤◌, ◌<◌, ◌≡◌, ◌≢◌, refl, ap, ◌∙◌, Bool, false, List, [], ◌∷◌, ◌++◌, ok, read, arith,
  count_if, count_if-append, if◌then◌else◌,
}
use smt_register_capping.Isa.Opcode.{Opcode, reg_none, reg_int, reg_fp}
use smt_register_capping.RegFile.RegSet.{get_reg_set}
use smt_register_capping.Smt.State.{RobEntry, Context, Machine, rob_entries}
use smt_register_capping.Smt.Cap.{rename_reg_limit, must_stall}
use smt_register_capping.Smt.Invariant.{is_renamed, renamed_as, IsCounted}

-- A renamed entry is counted in one of the two files.
renamed_split :
    (es : List RobEntry)
    → count_if (renamed_as reg_int) es + count_if (renamed_as reg_fp) es ≡ count_if is_renamed es
renamed_split [] = refl
renamed_split (e ∷ es) = ground (arith, renamed_split es)

-- the counters after one more entry in the ROB
abbrev pub plus : Bool → ℕ → ℕ
plus b n = n + (if b then 1 else 0)

pub joined-IsCounted :
    (c c' : Context) (e : RobEntry) (n n' : ℕ)
    → IsCounted c n
    → rob_entries c' ≡ rob_entries c ++ (e ∷ [])
    → n' ≡ plus (is_renamed e) n
    → n' ≤ rename_reg_limit
    → c'.dcra_int_rf ≡ plus (renamed_as reg_int e) c.dcra_int_rf
    → c'.dcra_fp_rf ≡ plus (renamed_as reg_fp e) c.dcra_fp_rf
    → IsCounted c' n'
joined-IsCounted c c' e n n' k es en le ei ef = record {
  capped = le;
  counted = en ∙ joined is_renamed k.counted;
  dcra_int = ei ∙ joined (renamed_as reg_int) k.dcra_int;
  dcra_fp = ef ∙ joined (renamed_as reg_fp) k.dcra_fp;
}
  where
    joined :
        (p : RobEntry → Bool) {v : ℕ}
        → v ≡ count_if p (rob_entries c)
        → plus (p e) v ≡ count_if p (rob_entries c')
    joined p h = rw es (omega (arith, count_if-append p (rob_entries c) (e ∷ []), h))

-- the counters after the oldest entry has left the ROB
pub left-IsCounted :
    (c c' : Context) (e : RobEntry) (n n' : ℕ)
    → IsCounted c n
    → rob_entries c ≡ e ∷ rob_entries c'
    → plus (is_renamed e) n' ≡ n
    → plus (renamed_as reg_int e) c'.dcra_int_rf ≡ c.dcra_int_rf
    → plus (renamed_as reg_fp e) c'.dcra_fp_rf ≡ c.dcra_fp_rf
    → IsCounted c' n'
left-IsCounted c c' e n n' k es en ei ef = record {
  capped = omega (arith, k.capped);
  counted = left is_renamed en k.counted;
  dcra_int = left (renamed_as reg_int) ei k.dcra_int;
  dcra_fp = left (renamed_as reg_fp) ef k.dcra_fp;
}
  where
    left :
        (p : RobEntry → Bool) {v v' : ℕ}
        → plus (p e) v' ≡ v
        → v ≡ count_if p (rob_entries c)
        → v' ≡ count_if p (rob_entries c')
    left p h k = omega (arith, ap (count_if p) es)

-- The DCRA counters are within the cap too, so neither they nor their tests wrap.
pub dcra_le : (c : Context) (n : ℕ) → IsCounted c n → c.dcra_int_rf + c.dcra_fp_rf ≡ n
dcra_le c n k = omega (arith, renamed_split (rob_entries c), k.counted, k.dcra_int, k.dcra_fp)

-- A thread that is not stalled, and has a destination, is below the limit.
pub must_stall-below :
    (m : Machine) (cid : ℕ) (op : Opcode) (n : ℕ)
    → cid < m.num_contexts
    → (get_reg_set op).dest ≢ reg_none
    → read m.reg_counter cid ≡ ok n
    → must_stall m cid op ≡ ok false
    → n < rename_reg_limit
unfolding must_stall
must_stall-below m cid op n lt ne e h = ground arith
