-- ===== src/FileTable/Handles/Aborts.antt =====
-- dup2 to a descriptor that is not open.
use smt_register_capping.Base.{
  ℕ, ◌≡◌, refl, inl, inr, false, List, [], ◌∷◌, ◌++◌, Option, none, some, ok, fault, Bool-cases,
}
use smt_register_capping.Chain.Order.{mem}
use smt_register_capping.FileTable.{FileEntry, fresh_entry, get_entry, entry_for}
use smt_register_capping.FileTable.Laws.{
  fds, IsTable, search_fd-absent, search_fd-stops, search_fd-found, read-last,
}
use smt_register_capping.FileTable.Handles.{closer, put_copy, dup2}

module _ (dup close : Option ℕ → Option ℕ) (t : List FileEntry) (v : IsTable t) where
  -- closing a descriptor that is not open leaves an entry without a descriptor
  closer-leaves :
      (fd : ℕ)
      → mem fd (fds t) ≡ false
      → closer close t (some fd) ≡ ok (none, t ++ (fresh_entry ∷ []))
  unfolding closer get_entry
  closer-leaves fd out =
      rw (search_fd-absent t fd v.all_open out) (rw (read-last t fresh_entry) refl)

  put_copy-stops :
      (old new : ℕ) (source : Option ℕ)
      → mem new (fds t) ≡ false
      → put_copy dup (t ++ (fresh_entry ∷ [])) old source new ≡ fault
  unfolding put_copy entry_for get_entry
  put_copy-stops old new source out = rw (search_fd-stops t new v.all_open out) refl

  -- A table whose entries all have a descriptor, each a different one: dup2 to a descriptor
  -- that is not open aborts, whatever the old descriptor is and whatever dup and close of the host
  -- give.
  pub dup2-aborts : (old new : ℕ) → mem new (fds t) ≡ false → dup2 dup close t old new ≡ fault
  unfolding dup2 get_entry
  dup2-aborts old new out = rw (closer-leaves new out) (elim (Bool-cases (mem old (fds t))) [
    | inr e ↦ rw (search_fd-stops t old v.all_open e) refl
    | inl e ↦
        let (i, found) = search_fd-found t (fresh_entry ∷ []) old v.all_open e in
        rw found (rw (put_copy-stops i new _ out) refl)
  ])
