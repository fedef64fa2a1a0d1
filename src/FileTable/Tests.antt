-- ===== src/FileTable/Tests.antt =====
-- The table of a context that starts.
use smt_register_capping.Base.{ℕ, ◌≡◌, refl, List, [], ◌∷◌, none, some, ok, fault, arith}
use smt_register_capping.FileTable.{FileEntry, standard_table, opener}
use smt_register_capping.FileTable.Handles.{dup2}
use smt_register_capping.FileTable.Handles.Aborts.{dup2-aborts}
use smt_register_capping.FileTable.Laws.{IsTable}
use smt_register_capping.FileTable.Open.{Opened, opener-Opened}

standard_table-IsTable : IsTable standard_table
standard_table-IsTable = record {
  all_open = (refl, (refl, (refl, tt)));
  distinct = (refl, (refl, (refl, tt)));
}

opener-Opened_example :
    (n : ℕ) × (t' : List FileEntry) × (opener standard_table (97 ∷ []) 0 0 none (some 7)
      ≡ ok (some n, t'))
    × Opened standard_table 7 n t'
opener-Opened_example =
    opener-Opened standard_table (97 ∷ []) 0 0 7 (omega arith) standard_table-IsTable

dup2-aborts_example : dup2 (λ fd. some 9) (λ fd. some 0) standard_table 1 5 ≡ fault
dup2-aborts_example =
    dup2-aborts (λ fd. some 9) (λ fd. some 0) standard_table standard_table-IsTable 1 5 refl
