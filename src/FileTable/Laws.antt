-- ===== src/FileTable/Laws.antt =====
-- The search of a table for a descriptor.
use smt_register_capping.Base.{
  ℕ, suc, ◌-◌, ◌≡◌, refl, ap, inl, inr, true, false, ◌==◌, List, [], ◌∷◌, ◌++◌, Option, none, some,
  ok, fault, read, length, length-append, set, Bool-cases, arith,
}
use smt_register_capping.Chain.{is_null, same_pointer}
use smt_register_capping.Chain.Order.{mem, Distinct}
use smt_register_capping.FileTable.{FileEntry, fresh_entry, fd_key, search_fd}

-- the descriptors of a table
abbrev pub fds : List FileEntry → List ℕ
fds [] = []
fds (e ∷ es) = fd_key e.simulated_fd ∷ fds es

-- no entry has the descriptor -1
abbrev pub AllOpen : List FileEntry → Type 0
AllOpen [] = Unit {0}
AllOpen (e ∷ es) = (is_null e.simulated_fd ≡ false) × AllOpen es

-- the descriptors are different
pub record IsTable (t : List FileEntry) : Type 0 where
  pub all_open : AllOpen t
  pub distinct : Distinct (fds t)

null-same : (fd : Option ℕ) → is_null fd ≡ false → same_pointer fd none ≡ false
null-same none e = cc
null-same (some i) e = refl

pub some-same :
    (fd : Option ℕ) (n : ℕ) → is_null fd ≡ false → same_pointer fd (some n) ≡ (fd_key fd == n)
some-same none n e = cc
some-same (some i) n e = refl

-- a descriptor that the table does not have
pub search_fd-none : (t : List FileEntry) → AllOpen t → search_fd t none ≡ ok none
unfolding search_fd
search_fd-none [] v = refl
search_fd-none (e ∷ es) (open_fd, v) =
    rw (open_fd, null-same e.simulated_fd open_fd) (rw (search_fd-none es v) refl)

pub search_fd-absent :
    (t : List FileEntry) (n : ℕ)
    → AllOpen t
    → mem n (fds t) ≡ false
    → search_fd t (some n) ≡ ok none
unfolding search_fd
search_fd-absent [] n v out = refl
search_fd-absent (e ∷ es) n (open_fd, v) out =
    let other : (fd_key e.simulated_fd == n) ≡ false = ground arith in
    rw (open_fd, some-same e.simulated_fd n open_fd)
      (rw (other, search_fd-absent es n v (ground arith)) refl)

-- an entry without a descriptor stops the search
pub search_fd-stops :
    (t : List FileEntry) (n : ℕ)
    → AllOpen t
    → mem n (fds t) ≡ false
    → search_fd (t ++ (fresh_entry ∷ [])) (some n) ≡ fault
unfolding search_fd
search_fd-stops [] n v out = refl
search_fd-stops (e ∷ es) n (open_fd, v) out =
    let other : (fd_key e.simulated_fd == n) ≡ false = ground arith in
    rw (open_fd, some-same e.simulated_fd n open_fd)
      (rw (other, search_fd-stops es n v (ground arith)) refl)

pub search_fd-found :
    (t u : List FileEntry) (n : ℕ)
    → AllOpen t
    → mem n (fds t) ≡ true
    → (i : ℕ) × (search_fd (t ++ u) (some n) ≡ ok (some i))
unfolding search_fd
search_fd-found [] u n v there = cc
search_fd-found (e ∷ es) u n (open_fd, v) there = elim (Bool-cases (fd_key e.simulated_fd == n)) [
  | inl f ↦ (0, rw (open_fd, some-same e.simulated_fd n open_fd) (rw f refl))
  | inr f ↦
      let (i, found) = search_fd-found es u n v (rw f at there) in
      (suc i, rw (open_fd, some-same e.simulated_fd n open_fd) (rw (f, found) refl))
]

pub read-last : (t : List FileEntry) (e : FileEntry) → read (t ++ (e ∷ [])) (length t) ≡ ok e
read-last [] e = refl
read-last (x ∷ t) e = read-last t e

pub set-last :
    (t : List FileEntry) (e e' : FileEntry) → set (t ++ (e ∷ [])) (length t) e' ≡ t ++ (e' ∷ [])
set-last [] e e' = refl
set-last (x ∷ t) e e' = ap (λ u. x ∷ u) (set-last t e e')

pub length-last : (t : List FileEntry) (e : FileEntry) → length (t ++ (e ∷ [])) - 1 ≡ length t
length-last t e = omega (arith, length-append t (e ∷ []))
