-- ===== src/Inflight.antt =====
-- The sorted queues of in-flight instructions: inflight_queue_t of inflightq.h over std::list, and the
-- links RS_link of rob.h and rob.c that it holds.
mod Tests
pub mod Sorted
use smt_register_capping.Base.{
  ℕ, Bool, true, false, ltb, ◌==◌, if◌then◌else◌, List, [], ◌∷◌, Option, none, some,
}

-- class RS_link: the pointer to a ROB or LSQ entry as a number (`none` is NULL), and the union x of
-- when, seq and opnum, which share one word
pub record RsLink : Type 0 where
  pub rs : Option ℕ
  pub x : ℕ

-- RS_link::operator<, by x.when
pub link_less : RsLink → RsLink → Bool
link_less a b = ltb a.x b.x

-- seq_sort, by x.seq
pub seq_sort : RsLink → RsLink → Bool
seq_sort left right = ltb left.x right.x

abbrev same_pointer : Option ℕ → Option ℕ → Bool
same_pointer none none = true
same_pointer (some a) (some b) = a == b
same_pointer _ _ = false

-- RS_link::operator==, by the pointer alone
unfoldable link_eq : RsLink → RsLink → Bool
link_eq a b = same_pointer a.rs b.rs

module _ {ℓ} {T : Type ℓ} (comp : T → T → Bool) where
  -- inorderinsert: in front of the first element that the new one is less than
  unfoldable pub inorderinsert : T → List T → List T
  inorderinsert t [] = t ∷ []
  inorderinsert t (u ∷ us) = if comp t u then t ∷ u ∷ us else u ∷ inorderinsert t us

-- list::remove, which takes out every element equal to the target
unfoldable remove {ℓ} : {T : Type ℓ} → (T → T → Bool) → T → List T → List T
remove eq target [] = []
remove eq target (u ∷ us) = if eq u target then remove eq target us else u ∷ remove eq target us
