-- ===== src/FileTable/Handles.antt =====
-- The operations of file_table.c on a descriptor that is open: closing, duplicating, and its flags.
pub mod Aborts
use smt_register_capping.Base.{
  ℕ, zero, suc, ◌+◌, ◌-◌, ◌^◌, Bool, true, false, ◌&&◌, ◌||◌, not, leb, ◌==◌, if◌then◌else◌, List,
  [], ◌∷◌, Option, none, some, Outcome, ok, fault, ◌>>=◌, ◌>>◌, assert, read, length, set, bit_and,
  bit_or,
}
use smt_register_capping.Chain.{is_null, same_pointer}
use smt_register_capping.FileTable.{
  FileEntry, fe_standard_io, fe_pipe, fe_fd_cloexec, null_text, stdin_text, stdout_text,
  stderr_text, same_text, require_redirect, get_entry, entry_for, lowest_avail_sim_fd,
}

-- entries.erase
abbrev erase : List FileEntry → ℕ → List FileEntry
erase [] i = []
erase (e ∷ es) zero = es
erase (e ∷ es) (suc i) = e ∷ erase es i

-- file_table_t::closer; `close` is that of the host, and what closer returns is none for -1
pub closer :
    (close : Option ℕ → Option ℕ)
    → List FileEntry
    → (fd : Option ℕ) → Outcome (Option ℕ × List FileEntry)
unfolding get_entry
closer close t fd = do
  (i, t1) ← get_entry t fd
  e ← read t1 i
  if leb e.reserved 2
      then (if is_null e.simulated_fd then ok (none, t1) else ok (some 0, erase t1 i))
      else ok (close e.real_fd, erase t1 i)

abbrev pub is_set : (flag reserved : ℕ) → Bool
is_set flag reserved = not (bit_and reserved flag == 0)

-- one round of the loop of handle_cloexec
close_one :
    (close : Option ℕ → Option ℕ)
    → List FileEntry
    → (i : ℕ) → FileEntry
    → Outcome (ℕ × List FileEntry)
unfolding closer
close_one close t i e =
    if is_set fe_fd_cloexec e.reserved
    then (do closed ← closer close t e.simulated_fd; ok (i, closed.1))
    else ok (i + 1, t)

-- file_table_t::handle_cloexec: each round passes an entry or erases one, so that `fuel` is enough if
-- it is the number of entries
close_marked :
    (close : Option ℕ → Option ℕ) → (fuel i : ℕ) → List FileEntry → Outcome (List FileEntry)
unfolding close_one
close_marked close zero i t = ok t
close_marked close (suc fuel) i t =
    if leb (length t) i
    then ok t
    else (do e ← read t i; (i1, t1) ← close_one close t i e; close_marked close fuel i1 t1)

handle_cloexec : (close : Option ℕ → Option ℕ) → List FileEntry → Outcome (List FileEntry)
unfolding close_marked
handle_cloexec close t = close_marked close (length t) 0 t

-- file_table_t::getfd_cloexec
getfd_cloexec : List FileEntry → (handle : Option ℕ) → Outcome (Bool × List FileEntry)
unfolding get_entry
getfd_cloexec t handle = do
  (i, t1) ← get_entry t handle
  e ← read t1 i
  if same_pointer e.simulated_fd handle
      then ok (is_set fe_fd_cloexec e.reserved, t1)
      else ok (false, erase t1 i)

-- file_table_t::setfd_cloexec
setfd_cloexec :
    List FileEntry → (handle : Option ℕ) → (newval : ℕ) → Outcome (Option ℕ × List FileEntry)
unfolding get_entry
setfd_cloexec t handle newval = do
  (i, t1) ← get_entry t handle
  e ← read t1 i
  if same_pointer e.simulated_fd handle
      then (do
        assert (leb newval 1)
        ok (
          some 0,
          set t1 i (record e {
            reserved = bit_or e.reserved (if newval == 0 then 0 else fe_fd_cloexec);
          }),
        ))
      else ok (none, erase t1 i)

-- file_table_t::istty
istty : List FileEntry → (handle : Option ℕ) → Outcome (Bool × List FileEntry)
unfolding get_entry
istty t handle = do
  (i, t1) ← get_entry t handle
  e ← read t1 i
  assert (same_pointer e.simulated_fd handle)
  ok (is_set fe_standard_io e.reserved, t1)

-- what dup gives in an unsigned int, so that the test for -1 of 64 bits never holds
abbrev dup_result : Option ℕ → ℕ
dup_result none = 2 ^ 32 - 1
dup_result (some fd) = fd

-- the new entry of duper and dup2, a copy of the old one; `source` is the descriptor to duplicate
pub put_copy :
    (dup : Option ℕ → Option ℕ)
    → List FileEntry
    → (old : ℕ) → (source : Option ℕ) → (handle_new : ℕ) → Outcome (List FileEntry)
unfolding entry_for
put_copy dup t old source handle_new = do
  (i, e, t1) ← entry_for t (some handle_new)
  from ← read t1 old
  ok (
      set t1 i
        (record from { simulated_fd = some handle_new; real_fd = some (dup_result (dup source)) }))

-- file_table_t::duper
duper : (dup : Option ℕ → Option ℕ) → List FileEntry → (handle : ℕ) → Outcome (ℕ × List FileEntry)
unfolding get_entry put_copy
duper dup t handle = do
  (old, t1) ← get_entry t (some handle)
  handle_new ← lowest_avail_sim_fd t1
  t2 ← put_copy dup t1 old (require_redirect t (some handle)).1 handle_new
  ok (handle_new, t2)

-- file_table_t::dup2
pub dup2 :
    (dup close : Option ℕ → Option ℕ)
    → List FileEntry
    → (handle_old handle_new : ℕ) → Outcome (ℕ × List FileEntry)
unfolding get_entry closer put_copy
dup2 dup close t handle_old handle_new = do
  (closed, t1) ← closer close t (some handle_new)
  (old, t2) ← get_entry t1 (some handle_old)
  t3 ← put_copy dup t2 old (require_redirect t (some handle_old)).1 handle_new
  ok (handle_new, t3)

-- file_table_t::insert: the first descriptor from fd on that the table does not have; each unit of
-- fuel is a round of its loop
insert_from :
    (fuel : ℕ) → List FileEntry → (fd orig_fd : ℕ) → (name : List ℕ) → Outcome (ℕ × List FileEntry)
unfolding get_entry
insert_from zero t fd orig_fd name = fault
insert_from (suc fuel) t fd orig_fd name = do
  (i, t1) ← get_entry t (some fd)
  e ← read t1 i
  if is_null e.simulated_fd
      then ok (
        fd,
        set t1 i (record {
          simulated_fd = some fd;
          real_fd = some orig_fd;
          filename = name;
          flags = 0;
          mode = 0;
          open_string = null_text;
          reserved = fe_pipe;
        }),
      )
      else insert_from fuel t1 (fd + 1) orig_fd name

insert : List FileEntry → (fd : ℕ) → (name : List ℕ) → Outcome (ℕ × List FileEntry)
unfolding insert_from
insert t fd name = insert_from (length t + 1) t fd fd name

-- file_table_t::reassign
reassign :
    List FileEntry → (handle real_handle : ℕ) → (filename : List ℕ) → Outcome (List FileEntry)
unfolding get_entry
reassign t handle real_handle filename = do
  (i, t1) ← get_entry t (some handle)
  e ← read t1 i
  assert (same_pointer e.simulated_fd (some handle))
  let is_file =
      not (same_text filename null_text)
      && not (same_text filename stdin_text)
      && not (same_text filename stdout_text)
      && not (same_text filename stderr_text)
  ok (
      set t1 i (record e {
        real_fd = some real_handle;
        filename = filename;
        reserved =
            (if is_file
              then e.reserved - bit_and e.reserved fe_standard_io
              else bit_or e.reserved fe_standard_io);
      }))
