-- ===== src/Pid/Table.antt =====
-- The process table: new process ids, and the entry of a process over an update.
use smt_register_capping.Base.{
  ℕ, zero, suc, ◌+◌, ◌%◌, ◌^◌, ◌<◌, ◌≡◌, ◌≢◌, refl, ap, ◌∙◌, sym, ◌==◌, List, [], ◌∷◌, ◌++◌, none,
  some, ok, read, set, arith, length, find_index, find_index-append, find_index-set,
  get_or-set_self, read_of_lt, length-set, get_or_of_read, read-lt,
}
use smt_register_capping.Pid.{Process, PidHandler, new_process, get_entry, get_new_pid, put}

-- every process in the table has an id below `n`
abbrev pub AreBelow : ℕ → List Process → Type 0
AreBelow n [] = Unit {0}
AreBelow n (p ∷ ps) = (p.pid < n) × AreBelow n ps

-- the ids given out so far are below the next one, which has not wrapped
pub record IsFresh (h : PidHandler) : Type 0 where
  pub below : AreBelow h.next_pid h.p_list
  pub small : h.next_pid + 1 < 2 ^ 64

AreBelow-none : (n : ℕ) (ps : List Process) → AreBelow n ps → find_index (λ p. p.pid == n) ps ≡ none
AreBelow-none n [] b = refl
AreBelow-none n (p ∷ ps) b = ground (arith, AreBelow-none n ps b.1)

AreBelow-suc : (n : ℕ) (ps : List Process) → AreBelow n ps → AreBelow (n + 1) ps
AreBelow-suc n [] b = tt
AreBelow-suc n (p ∷ ps) b = (omega arith, AreBelow-suc n ps b.1)

AreBelow-append :
    (n : ℕ) (ps : List Process) (p : Process)
    → AreBelow n ps
    → p.pid < n
    → AreBelow n (ps ++ (p ∷ []))
AreBelow-append n [] p b h = (h, tt)
AreBelow-append n (q ∷ ps) p b h = (b.0, AreBelow-append n ps p b.1 h)

-- In a table whose ids are below the next one, which does not wrap: a new process id belonged to no
-- process before, and finds the new process afterwards, and all ids stay below the next one.
pub get_new_pid-IsFresh :
    (h : PidHandler) (junk : ℕ)
    → IsFresh h
    → let (pid, h') = get_new_pid h junk in
      (get_entry h pid ≡ none)
      × (get_entry h' pid ≡ some (length h.p_list))
      × AreBelow h'.next_pid h'.p_list
      × (h'.next_pid ≡ h.next_pid + 1)
unfolding get_new_pid get_entry
get_new_pid-IsFresh h junk f =
    let absent = AreBelow-none h.next_pid h.p_list f.below in
    let step : (h.next_pid + 1) % 2 ^ 64 ≡ h.next_pid + 1 = omega (arith, f.small) in
    (
      absent,
      find_index-append (λ p. p.pid == h.next_pid) h.p_list (new_process h.next_pid junk) absent
          (ground arith),
      rw step (
          AreBelow-append (h.next_pid + 1) h.p_list (new_process h.next_pid junk)
            (AreBelow-suc h.next_pid h.p_list f.below) (omega arith)),
      step,
    )

-- An update of one process that keeps its id changes no process's place.
pub get_entry-put :
    (h : PidHandler) (i pid : ℕ) (p q : Process)
    → read h.p_list i ≡ ok p
    → q.pid ≡ p.pid
    → get_entry (put h i q) pid ≡ get_entry h pid
unfolding get_entry
get_entry-put h i pid p q e s =
    find_index-set (λ t. t.pid == pid) h.p_list i q p
      (ap (λ t. t == pid) (s ∙ ap (λ (t : Process). t.pid) (sym (get_or_of_read h.p_list i p e))))

read-set_self :
    (xs : List Process) (i : ℕ) (q : Process) → i < length xs → read (set xs i q) i ≡ ok q
read-set_self xs i q lt =
    read_of_lt (set xs i q) i q (omega (arith, length-set xs i q))
    ∙ ap ok (get_or-set_self xs i q q lt)

pub read-put_self :
    (h : PidHandler) (i : ℕ) (p q : Process)
    → read h.p_list i ≡ ok p
    → read (put h i q).p_list i ≡ ok q
read-put_self h i p q e = read-set_self h.p_list i q (read-lt h.p_list i e)

pub read-put_ne :
    (xs : List Process) (i j : ℕ) (q : Process) → i ≢ j → read (set xs i q) j ≡ read xs j
read-put_ne [] i j q ne = refl
read-put_ne (x ∷ xs) zero zero q ne = absurd (ne refl)
read-put_ne (x ∷ xs) zero (suc j) q ne = refl
read-put_ne (x ∷ xs) (suc i) zero q ne = refl
read-put_ne (x ∷ xs) (suc i) (suc j) q ne = read-put_ne xs i j q (λ e. ne (ap suc e))
