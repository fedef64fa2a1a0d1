-- ===== src/Bimodal/Training.antt =====
-- What a two-bit counter learns.
use smt_register_capping.Base.{
  ℕ, ◌<◌, ◌≤◌, ◌≡◌, ◌≢◌, refl, ap, ◌∙◌, Bool, true, false, List, some, ok, ◌>>=◌, length, set,
  get_or, arith, read_of_lt, length-set, get_or-set_self, get_or-set_ne, leb, not,
}
use smt_register_capping.Bimodal.{predicts, update_state, next_state}

-- the counter of a branch is a two-bit number
pub record IsCounter (table : List ℕ) (i : ℕ) : Type 0 where
  pub in_range : i < length table
  pub two_bits : get_or table i 0 ≤ 3

update-step :
    (table : List ℕ) (i : ℕ) (taken : Bool)
    → i < length table
    → update_state table (some i) taken ≡ ok (set table i (next_state (get_or table i 0) taken))
unfolding update_state
update-step table i taken h = rw (read_of_lt table i 0 h) refl

twice-learned :
    (n : ℕ) (taken : Bool) → n ≤ 3 → not (leb (next_state (next_state n taken) taken) 1) ≡ taken
twice-learned n true h = ground arith
twice-learned n false h = ground arith

next_state-small : (n : ℕ) (taken : Bool) → n ≤ 3 → next_state n taken ≤ 3
next_state-small n true h = ground arith
next_state-small n false h = ground arith

-- Two outcomes of a branch in the same direction leave its counter, a two-bit number inside the
-- table, predicting that direction, from any state of it; the counter stays a two-bit number, and
-- the others do not change.
pub update_state-predicts :
    (table : List ℕ) (i : ℕ) (taken : Bool)
    → IsCounter table i
    → (t : List ℕ) × ((update_state table (some i) taken >>= λ u. update_state u (some i) taken)
        ≡ ok t)
      × (predicts t i ≡ ok taken)
      × IsCounter t i
      × ((j : ℕ) → i ≢ j → get_or t j 0 ≡ get_or table j 0)
unfolding predicts
update_state-predicts table i taken c =
    let n = get_or table i 0 in
    let m = next_state n taken in
    let k = next_state m taken in
    let u = set table i m in
    let lu : i < length u = rw (length-set table i m) c.in_range in
    let lt : i < length (set u i k) = rw (length-set u i k) lu in
    let at : get_or u i 0 ≡ m = get_or-set_self table i m 0 c.in_range in
    let fin : get_or (set u i k) i 0 ≡ k = get_or-set_self u i k 0 lu in
    (
      set u i k,
      rw (update-step table i taken c.in_range)
          (update-step u i taken lu ∙ ap (λ s. ok (set u i (next_state s taken))) at),
      rw (read_of_lt (set u i k) i 0 lt)
          (ap (λ s. ok (not (leb s 1))) fin ∙ ap ok (twice-learned n taken c.two_bits)),
      record {
        in_range = lt;
        two_bits = rw fin (next_state-small m taken (next_state-small n taken c.two_bits));
      },
      λ j ne. get_or-set_ne u i j k 0 ne ∙ get_or-set_ne table i j m 0 ne,
    )
