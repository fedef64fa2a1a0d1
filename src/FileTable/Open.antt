-- ===== src/FileTable/Open.antt =====
-- Opening a file without a given descriptor.
use smt_register_capping.Base.{
  take-append, ℕ, suc, ◌+◌, ◌-◌, ◌<◌, ◌≡◌, ◌≢◌, refl, sym, ap, ◌∙◌, true, false, ◌||◌, ◌==◌, List,
  [], ◌∷◌, ◌++◌, map, Option, none, some, ok, length, arith,
}
use smt_register_capping.Chain.{is_null}
use smt_register_capping.Chain.Order.{mem, Distinct}
use smt_register_capping.FileTable.{
  FileEntry, fresh_entry, null_text, fd_key, sort_keys, first_gap, choose_key, find_fd, get_fd,
  get_entry, entry_for, choose_fd, opener,
}
use smt_register_capping.FileTable.Lowest.{
  IsLowest, Increasing, lowest_of, lowest_of-IsLowest, last_key-row, last_key-gap, mem-sort_keys,
  length-sort_keys, sort_keys-Increasing,
}
use smt_register_capping.FileTable.Laws.{
  fds, AllOpen, IsTable, some-same, search_fd-none, read-last, set-last, length-last,
}

choose_key-lowest :
    (a : ℕ) (cs : List ℕ)
    → Increasing 0 (a ∷ cs)
    → (o : Option ℕ) → first_gap (a ∷ cs) 0 ≡ o
    → choose_key (a ∷ cs) ≡ ok (some (lowest_of (a ∷ cs) 0))
unfolding choose_key
choose_key-lowest a cs up none e =
    let at_end : (0 + length cs == suc (length cs) - 1) ≡ true = ground arith in
    let count : suc (length cs) ≡ 0 + suc (length cs) = omega arith in
    rw (last_key-row a cs 0 e) (rw (at_end, e) (ap (λ n. ok (some n)) count))
choose_key-lowest a cs up (some g) e =
    let (b, last, bound) = last_key-gap a cs 0 up e in
    let before_end : (b == suc (length cs) - 1) ≡ false = ground arith in
    rw last (rw (before_end, e) refl)

choose_key-sorted :
    (cs : List ℕ) → (cs ≢ []) → Increasing 0 cs → choose_key cs ≡ ok (some (lowest_of cs 0))
choose_key-sorted [] ne up = absurd (ne refl)
choose_key-sorted (a ∷ cs) ne up = choose_key-lowest a cs up (first_gap (a ∷ cs) 0) refl

map-fds : (t : List FileEntry) → map (λ e. fd_key e.simulated_fd) t ≡ fds t
map-fds [] = refl
map-fds (e ∷ t) = ap (λ cs. fd_key e.simulated_fd ∷ cs) (map-fds t)

length-fds : (t : List FileEntry) → length (fds t) ≡ length t
length-fds [] = refl
length-fds (e ∷ t) = ap suc (length-fds t)

abbrev lowest_fd : List FileEntry → ℕ
lowest_fd t = lowest_of (sort_keys (fds t)) 0

choose_fd-lowest :
    (t : List FileEntry) (e : FileEntry)
    → 0 < length t
    → Distinct (fds t)
    → choose_fd (t ++ (e ∷ [])) ≡ ok (some (lowest_fd t))
unfolding choose_fd
choose_fd-lowest t e some_entry d =
    let size = length-sort_keys (fds t) ∙ length-fds t in
    rw (length-last t e) (
      rw (take-append t (e ∷ [])) (
        rw (map-fds t) (
          choose_key-sorted (sort_keys (fds t))
            (λ no_keys. omega (arith, some_entry, size, ap length no_keys))
            (sort_keys-Increasing (fds t) d))))

-- the table with an entry for a new descriptor
mem-last_fd :
    (t : List FileEntry) (e : FileEntry) (x : ℕ)
    → mem x (fds (t ++ (e ∷ []))) ≡ (mem x (fds t) || fd_key e.simulated_fd == x)
mem-last_fd [] e x = ground arith
mem-last_fd (y ∷ t) e x = rw (mem-last_fd t e x) (ground arith)

last-AllOpen :
    (t : List FileEntry) (e : FileEntry)
    → AllOpen t
    → is_null e.simulated_fd ≡ false
    → AllOpen (t ++ (e ∷ []))
last-AllOpen [] e v open_fd = (open_fd, tt)
last-AllOpen (x ∷ t) e (first, v) open_fd = (first, last-AllOpen t e v open_fd)

last-Distinct :
    (t : List FileEntry) (e : FileEntry)
    → Distinct (fds t)
    → mem (fd_key e.simulated_fd) (fds t) ≡ false
    → Distinct (fds (t ++ (e ∷ [])))
last-Distinct [] e d out = (refl, tt)
last-Distinct (x ∷ t) e (a, d) out = (
  mem-last_fd t e (fd_key x.simulated_fd)
      ∙ (let other : (fd_key e.simulated_fd == fd_key x.simulated_fd) ≡ false = ground arith in
          rw (a, other) refl),
  last-Distinct t e d (ground arith),
)

find_fd-last :
    (t : List FileEntry) (e : FileEntry) (n : ℕ)
    → AllOpen t
    → e.simulated_fd ≡ some n
    → mem n (fds t) ≡ false
    → find_fd (t ++ (e ∷ [])) (some n) ≡ some e
unfolding find_fd
find_fd-last [] e n v is_n out = let self : (n == n) ≡ true = ground arith in rw is_n (rw self refl)
find_fd-last (x ∷ t) e n (open_fd, v) is_n out =
    let other : (fd_key x.simulated_fd == n) ≡ false = ground arith in
    rw (some-same x.simulated_fd n open_fd) (rw other (find_fd-last t e n v is_n (ground arith)))

find_fd-other :
    (t : List FileEntry) (e : FileEntry) (n m : ℕ)
    → e.simulated_fd ≡ some n
    → n ≢ m
    → find_fd (t ++ (e ∷ [])) (some m) ≡ find_fd t (some m)
unfolding find_fd
find_fd-other [] e n m is_n ne =
    let other : (n == m) ≡ false = ground arith in rw is_n (rw other refl)
find_fd-other (x ∷ t) e n m is_n ne = rw (find_fd-other t e n m is_n ne) refl

get_fd_of_find :
    (t : List FileEntry) (fd : Option ℕ) {o : Option FileEntry}
    → find_fd t fd ≡ o
    → get_fd t fd ≡ elim o [ none ↦ none | some e ↦ e.real_fd ]
unfolding get_fd
get_fd_of_find t fd found = ap (λ o. elim o [ none ↦ none | some e ↦ e.real_fd ]) found

get_fd-same :
    (t t' : List FileEntry) (fd : Option ℕ)
    → find_fd t' fd ≡ find_fd t fd
    → get_fd t' fd ≡ get_fd t fd
unfolding get_fd
get_fd-same t t' fd same = ap (λ o. elim o [ none ↦ none | some e ↦ e.real_fd ]) same

-- what a table is after a file has been opened as n
pub record Opened (t : List FileEntry) (real n : ℕ) (t' : List FileEntry) : Type 0 where
  pub lowest : IsLowest 0 (fds t) n
  pub table : IsTable t'
  pub opened : get_fd t' (some n) ≡ some real
  pub others : (m : ℕ) → n ≢ m → get_fd t' (some m) ≡ get_fd t (some m)

sorted-IsLowest : (cs : List ℕ) (n : ℕ) → IsLowest 0 (sort_keys cs) n → IsLowest 0 cs n
sorted-IsLowest cs n v = record {
  from = v.from;
  unused = sym (mem-sort_keys n cs) ∙ v.unused;
  lower = λ m le lt. sym (mem-sort_keys m cs) ∙ v.lower m le lt;
}

-- Opening a file without a given descriptor, in a table that is not empty and whose entries have
-- different descriptors, when the host opens it as `real`: opener returns the lowest descriptor that is
-- not in use. Afterwards the descriptors are still different, the new one stands for `real`, and every
-- other stands for what it did.
pub opener-Opened :
    (t : List FileEntry) (filename : List ℕ) (flags mode real : ℕ)
    → 0 < length t
    → IsTable t
    → (n : ℕ) × (t' : List FileEntry) × (opener t filename flags mode none (some real)
        ≡ ok (some n, t'))
      × Opened t real n t'
unfolding opener entry_for get_entry
opener-Opened t filename flags mode real some_entry v =
    let n = lowest_fd t in
    let low =
      sorted-IsLowest (fds t) n
        (lowest_of-IsLowest (sort_keys (fds t)) 0 (sort_keys-Increasing (fds t) v.distinct)) in
    let e : FileEntry = record {
      simulated_fd = some n;
      real_fd = some real;
      filename = filename;
      flags = flags;
      mode = mode;
      open_string = null_text;
      reserved = 0;
    } in
    (
      n,
      t ++ (e ∷ []),
      rw (search_fd-none t v.all_open) (
          rw (read-last t fresh_entry) (
            rw (choose_fd-lowest t fresh_entry some_entry v.distinct)
              (ap (λ u. ok (some n, u)) (set-last t fresh_entry e)))),
      record {
        lowest = low;
        table = record {
          all_open = last-AllOpen t e v.all_open refl;
          distinct = last-Distinct t e v.distinct low.unused;
        };
        opened =
            get_fd_of_find (t ++ (e ∷ [])) (some n) (find_fd-last t e n v.all_open refl low.unused);
        others = λ m ne. get_fd-same t (t ++ (e ∷ [])) (some m) (find_fd-other t e n m refl ne);
      },
    )
