-- ===== src/Pid.antt =====
-- The process table of pid.h and pid.c. Process ids and return values are unsigned 64-bit numbers;
-- a return value is kept as its bit pattern.
mod Tests
pub mod Table
pub mod Wait
pub mod Laws
use smt_register_capping.Base.{
  ℕ, zero, suc, ◌+◌, ◌-◌, ◌%◌, ◌^◌, Bool, true, false, ◌&&◌, not, ◌==◌, if◌then◌else◌, List, [],
  ◌∷◌, ◌++◌, Option, none, some, Outcome, ok, fault, ◌>>=◌, ◌>>◌, assert, read, length, set, get_or,
  find_index,
}

-- class process_t
pub record Process : Type 0 where
  pub pid : ℕ
  pub children : List ℕ
  pub alive : Bool
  pub retval : ℕ
  pub parent : ℕ

-- class pid_handler_t
pub record PidHandler : Type 0 where
  pub p_list : List Process
  pub next_pid : ℕ

-- ECHILD of <cerrno>
abbrev pub echild : ℕ
echild = 10

-- (unsigned long long)-1: wait for any child
abbrev pub any_child : ℕ
any_child = 2 ^ 64 - 1

-- pid_handler_t::pid_handler_t
unfoldable new : PidHandler
new = record { p_list = []; next_pid = 0x3500 }

-- get_entry; `none` is (size_t)-1
pub get_entry : PidHandler → ℕ → Option ℕ
get_entry h pid = find_index (λ p. p.pid == pid) h.p_list

-- the process that get_new_pid pushes; `retval` is not initialised there
abbrev pub new_process : ℕ → ℕ → Process
new_process pid junk = record { pid = pid; children = []; alive = true; retval = junk; parent = 0 }

pub get_new_pid : PidHandler → ℕ → ℕ × PidHandler
get_new_pid h junk = (
  h.next_pid,
  record {
    p_list = h.p_list ++ (new_process h.next_pid junk ∷ []);
    next_pid = (h.next_pid + 1) % 2 ^ 64;
  },
)

-- p_list[index], where (size_t)-1 is out of range
abbrev pub entry : PidHandler → Option ℕ → Outcome Process
entry h none = fault
entry h (some i) = read h.p_list i

abbrev pub put : PidHandler → ℕ → Process → PidHandler
put h i p = record h { p_list = set h.p_list i p }

kill_at : PidHandler → Option ℕ → ℕ → Outcome (Bool × PidHandler)
kill_at h none val = ok (false, h)
kill_at h (some i) val = do
  p ← read h.p_list i
  if not p.alive
      then ok (false, h)
      else ok (true, put h i (record p { alive = false; retval = val }))

pub kill_pid : PidHandler → ℕ → ℕ → Outcome (Bool × PidHandler)
unfolding kill_at get_entry
kill_pid h pid val = kill_at h (get_entry h pid) val

-- the children are updated first, then the child's parent: both may be one process
add_at : PidHandler → Option ℕ → Option ℕ → ℕ → ℕ → Outcome (Bool × PidHandler)
add_at h none c pid child = ok (false, h)
add_at h (some i) none pid child = ok (false, h)
add_at h (some i) (some j) pid child = do
  p ← read h.p_list i
  let h1 = put h i (record p { children = p.children ++ (child ∷ []) })
  c ← read h1.p_list j
  assert (c.parent == 0)
  ok (true, put h1 j (record c { parent = pid }))

unfoldable add_child : PidHandler → ℕ → ℕ → Outcome (Bool × PidHandler)
unfolding add_at get_entry
add_child h pid child = add_at h (get_entry h pid) (get_entry h child) pid child
