-- ===== src/Chain.antt =====
-- Entries chained by two pointers, as the sets of btb.c and of cache.c are. A pointer is an index of a
-- vector, and `none` is NULL.
pub mod Order
pub mod Front
use smt_register_capping.Base.{ℕ, ◌==◌, Bool, true, false, Option, none, some}

abbrev pub is_null : Option ℕ → Bool
is_null none = true
is_null (some i) = false

abbrev pub same_pointer : Option ℕ → Option ℕ → Bool
same_pointer none none = true
same_pointer (some i) (some j) = i == j
same_pointer _ _ = false
