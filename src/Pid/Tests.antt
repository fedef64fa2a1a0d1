-- ===== src/Pid/Tests.antt =====
-- A parent with one child, alive and dead.
use smt_register_capping.Base.{◌≡◌, ◌≢◌, refl, true, false, [], ◌∷◌, none, some, ok, arith}
use smt_register_capping.Pid.{Process, PidHandler, any_child, put, get_entry, get_new_pid, kill_pid}
use smt_register_capping.Pid.Wait.{Reply, get_retval, is_retval_avail}
use smt_register_capping.Pid.Table.{IsFresh, AreBelow, get_new_pid-IsFresh}
use smt_register_capping.Pid.Laws.{
  IsChild, found_of, target_of, found-get_retval_any, reaped_disagree, kill_pid-get_retval,
}

abbrev parent : Process
parent = record { pid = 1; children = 2 ∷ []; alive = true; retval = 0; parent = 0 }

abbrev child : Process
child = record { pid = 2; children = []; alive = true; retval = 0; parent = 1 }

abbrev dead : Process
dead = record child { alive = false; retval = 9 }

abbrev family : PidHandler
family = record { p_list = parent ∷ child ∷ []; next_pid = 3 }

abbrev bereaved : PidHandler
bereaved = record { p_list = parent ∷ dead ∷ []; next_pid = 3 }

family-IsChild : IsChild family 1 2 parent child
unfolding get_entry
family-IsChild = record {
  i = 0;
  j = 1;
  parent_at = refl;
  child_at = refl;
  parent_is = refl;
  child_is = refl;
  linked = refl;
}

bereaved-IsChild : IsChild bereaved 1 2 parent dead
unfolding get_entry
bereaved-IsChild = record {
  i = 0;
  j = 1;
  parent_at = refl;
  child_at = refl;
  parent_is = refl;
  child_is = refl;
  linked = refl;
}

family-apart : family-IsChild.i ≢ family-IsChild.j
unfolding family-IsChild
family-apart = omega arith

bereaved-apart : bereaved-IsChild.i ≢ bereaved-IsChild.j
unfolding bereaved-IsChild
bereaved-apart = omega arith

found-get_retval_any_example :
    found_of (get_retval bereaved 1 any_child 0) ≡ is_retval_avail bereaved 1 any_child
found-get_retval_any_example = found-get_retval_any bereaved 1 0

reaped_disagree_example :
    (r : Reply) × (get_retval bereaved 1 2 0 ≡ ok r)
    × (r.found ≡ true)
    × (r.target ≡ dead.retval)
    × (is_retval_avail r.handler 1 2 ≡ ok true)
    × (found_of (get_retval r.handler 1 2 5) ≡ ok false)
reaped_disagree_example =
    reaped_disagree bereaved 1 2 0 5 0 parent dead bereaved-IsChild (omega arith) refl
      bereaved-apart refl refl

kill_pid-get_retval_example :
    let after = put family family-IsChild.j dead in
    (kill_pid family 2 9 ≡ ok (true, after))
    × (kill_pid after 2 9 ≡ ok (false, after))
    × (found_of (get_retval after 1 2 0) ≡ ok true)
    × (target_of (get_retval after 1 2 0) ≡ ok 9)
kill_pid-get_retval_example =
    kill_pid-get_retval family 1 2 9 0 0 parent child family-IsChild (omega arith) refl family-apart
      refl

family-IsFresh : IsFresh family
family-IsFresh = record { below = (omega arith, (omega arith, tt)); small = omega arith }

get_new_pid-IsFresh_example :
    let r = get_new_pid family 5 in
    (get_entry family r.0 ≡ none)
    × (get_entry r.1 r.0 ≡ some 2)
    × AreBelow r.1.next_pid r.1.p_list
    × (r.1.next_pid ≡ 4)
get_new_pid-IsFresh_example = get_new_pid-IsFresh family 5 family-IsFresh
