-- ===== src/FileTable.antt =====
-- The table of open files of file_table.h and file_table.c, without what prints, reads or writes a
-- table, closeall and copy_from, which work on the files of the host. A descriptor is `none` for -1;
-- texts are lists of character codes. What open, fopen, close and dup of the host give is an argument.
pub mod Handles
pub mod Lowest
pub mod Laws
pub mod Open
mod Tests
use smt_register_capping.Base.{
  ℕ, zero, suc, ◌+◌, ◌-◌, ◌^◌, Bool, true, false, ◌&&◌, ◌||◌, not, leb, ◌==◌, if◌then◌else◌, List,
  [], ◌∷◌, ◌++◌, map, Option, none, some, Outcome, ok, fault, ◌>>=◌, ◌>>◌, assert, read, length,
  set, take, bit_and, bit_or,
}
use smt_register_capping.Chain.{is_null, same_pointer}

-- FE_STANDARD_IO, FE_PIPE and FE_FD_CLOEXEC
abbrev pub fe_standard_io : ℕ
fe_standard_io = 1

abbrev pub fe_pipe : ℕ
fe_pipe = 16

abbrev pub fe_fd_cloexec : ℕ
fe_fd_cloexec = 256

-- the texts "<NULL>", "stdin", "stdout" and "stderr"
abbrev pub null_text : List ℕ
null_text = 60 ∷ 78 ∷ 85 ∷ 76 ∷ 76 ∷ 62 ∷ []

abbrev pub stdin_text : List ℕ
stdin_text = 115 ∷ 116 ∷ 100 ∷ 105 ∷ 110 ∷ []

abbrev pub stdout_text : List ℕ
stdout_text = 115 ∷ 116 ∷ 100 ∷ 111 ∷ 117 ∷ 116 ∷ []

abbrev pub stderr_text : List ℕ
stderr_text = 115 ∷ 116 ∷ 100 ∷ 101 ∷ 114 ∷ 114 ∷ []

abbrev pub same_text : List ℕ → List ℕ → Bool
same_text [] [] = true
same_text (a ∷ cs) (b ∷ bs) = a == b && same_text cs bs
same_text _ _ = false

-- class file_entry_t, without fake_offset, which nothing uses
pub record FileEntry : Type 0 where
  pub simulated_fd : Option ℕ
  pub real_fd : Option ℕ
  pub filename : List ℕ
  pub flags : ℕ
  pub mode : ℕ
  pub open_string : List ℕ
  pub reserved : ℕ

-- file_entry_t::file_entry_t
abbrev pub fresh_entry : FileEntry
fresh_entry = record {
  simulated_fd = none;
  real_fd = none;
  filename = null_text;
  flags = 0;
  mode = 0;
  open_string = null_text;
  reserved = 0;
}

abbrev standard_entry : ℕ → List ℕ → FileEntry
standard_entry i name = record fresh_entry {
  simulated_fd = some i;
  real_fd = some i;
  filename = name;
  reserved = fe_standard_io;
}

-- file_table_t::file_table_t
abbrev pub standard_table : List FileEntry
standard_table =
    standard_entry 0 stdin_text ∷ standard_entry 1 stdout_text ∷ standard_entry 2 stderr_text ∷ []

-- the loop of get_fd and of require_redirect
pub find_fd : List FileEntry → Option ℕ → Option FileEntry
find_fd [] fd = none
find_fd (e ∷ es) fd = if same_pointer e.simulated_fd fd then some e else find_fd es fd

-- file_table_t::get_fd
pub get_fd : List FileEntry → Option ℕ → Option ℕ
get_fd t fd = elim (find_fd t fd) [ none ↦ none | some e ↦ e.real_fd ]

-- file_table_t::require_redirect, with the descriptor that it leaves in `source`
pub require_redirect : List FileEntry → Option ℕ → Bool × Option ℕ
require_redirect t source = elim (find_fd t source) [
  | none ↦ (false, source)
  | some e ↦ (not (same_pointer e.simulated_fd e.real_fd), e.real_fd)
]

-- the loop of get_entry
pub search_fd : List FileEntry → Option ℕ → Outcome (Option ℕ)
search_fd [] fd = ok none
search_fd (e ∷ es) fd = do
  assert (not (is_null e.simulated_fd))
  if same_pointer e.simulated_fd fd
      then ok (some 0)
      else (do found ← search_fd es fd; ok (elim found [ none ↦ none | some i ↦ some (suc i) ]))

-- file_table_t::get_entry
unfoldable pub get_entry : List FileEntry → Option ℕ → Outcome (ℕ × List FileEntry)
unfolding search_fd
get_entry t fd = do
  found ← search_fd t fd
  ok (elim found [ none ↦ (length t, t ++ (fresh_entry ∷ [])) | some i ↦ (i, t) ])

-- the entry for a handle, after the assertion on it
entry_for : List FileEntry → Option ℕ → Outcome (ℕ × FileEntry × List FileEntry)
unfolding get_entry
entry_for t handle = do
  (i, t1) ← get_entry t handle
  e ← read t1 i
  assert (same_pointer e.simulated_fd handle || is_null e.simulated_fd)
  ok (i, e, t1)

-- std::sort of descriptors, of which -1 is the largest
abbrev pub fd_key : Option ℕ → ℕ
fd_key none = 2 ^ 64 - 1
fd_key (some i) = i

pub insert_key : ℕ → List ℕ → List ℕ
insert_key a [] = a ∷ []
insert_key a (b ∷ bs) = let rest = insert_key a bs in if leb a b then a ∷ b ∷ bs else b ∷ rest

pub sort_keys : List ℕ → List ℕ
unfolding insert_key
sort_keys [] = []
sort_keys (a ∷ cs) = insert_key a (sort_keys cs)

abbrev fd_handles : List FileEntry → List ℕ
fd_handles t = sort_keys (map (λ e. fd_key e.simulated_fd) t)

-- for(i=0;i<handles.size();i++) if(handles[i]!=i)
pub first_gap : List ℕ → (i : ℕ) → Option ℕ
first_gap [] i = none
first_gap (a ∷ cs) i = let rest = first_gap cs (i + 1) in if a == i then rest else some i

pub last_key : List ℕ → Outcome ℕ
last_key [] = fault
last_key (a ∷ []) = ok a
last_key (a ∷ b ∷ cs) = last_key (b ∷ cs)

-- file_table_t::lowest_avail_sim_fd
pub lowest_avail_sim_fd : List FileEntry → Outcome ℕ
unfolding first_gap last_key
lowest_avail_sim_fd t =
    let handles = fd_handles t in
    elim (first_gap handles 0) [
      | some i ↦ ok i
      | none ↦ (do
        back ← last_key handles
        if back == length t - 1 then ok (length handles) else fault)
    ]

-- the descriptor that opener chooses from the sorted ones
pub choose_key : (handles : List ℕ) → Outcome (Option ℕ)
unfolding first_gap last_key
choose_key handles = do
  back ← last_key handles
  let chosen = if back == length handles - 1 then some (length handles) else first_gap handles 0
  assert (not (is_null chosen))
  ok chosen

-- the new entry stands last and has no descriptor
pub choose_fd : List FileEntry → Outcome (Option ℕ)
unfolding choose_key
choose_fd t = choose_key (fd_handles (take (length t - 1) t))

-- file_table_t::opener; `opened` is what open gives
pub opener :
    List FileEntry
    → (filename : List ℕ) → (flags mode : ℕ) → (handle : Option ℕ) → (opened : Option ℕ)
    → Outcome (Option ℕ × List FileEntry)
unfolding entry_for choose_fd
opener t filename flags mode handle opened = if is_null opened then ok (none, t) else (do
  (i, e, t1) ← entry_for t handle
  fd ← elim handle [ none ↦ choose_fd t1 | some h ↦ ok (some h) ]
  ok (
    fd,
    set t1 i (record {
      simulated_fd = fd;
      real_fd = opened;
      filename = filename;
      flags = flags;
      mode = mode;
      open_string = null_text;
      reserved = 0;
    }),
  ))

-- file_table_t::fopener; `opened` is the descriptor of what fopen gives
fopener :
    List FileEntry
    → (filename parameters : List ℕ) → (handle : Option ℕ) → (opened : ℕ) → Outcome (List FileEntry)
unfolding entry_for
fopener t filename parameters handle opened = do
  (i, e, t1) ← entry_for t handle
  ok (
      set t1 i (record {
        simulated_fd = elim handle [ none ↦ some opened | some h ↦ some h ];
        real_fd = some opened;
        filename = filename;
        flags = 0;
        mode = 0;
        open_string = parameters;
        reserved = 0;
      }))
