-- ===== src/Pid/Laws.antt =====
-- The protocol of exit and wait: kill_pid, is_retval_avail and get_retval together.
use smt_register_capping.Base.{
  ℕ, ◌+◌, ◌≡◌, ◌≢◌, refl, ap, ◌∙◌, sym, Bool, true, false, ◌==◌, if◌then◌else◌, List, [], ◌∷◌,
  Option, none, some, Outcome, ok, fault, ◌>>=◌, read, arith, find_index, Bool-cases, Outcome-cases,
  Option-cases, inl, inr, >>=-elim,
}
use smt_register_capping.Pid.{Process, PidHandler, any_child, get_entry, put, entry, kill_pid}
use smt_register_capping.Pid.Wait.{
  Reply, get_retval, is_retval_avail, first_dead, reap_any, erase_at, is_empty, is_some,
}
use smt_register_capping.Pid.Table.{get_entry-put, read-put_self, read-put_ne}

-- whether get_retval returned true
abbrev pub found_of : Outcome Reply → Outcome Bool
found_of fault = fault
found_of (ok r) = ok r.found

abbrev pub target_of : Outcome Reply → Outcome ℕ
target_of fault = fault
target_of (ok r) = ok r.target

-- `parent` has an entry in the table, at `i`, and `child` one at `j` that names `parent`
pub record IsChild (h : PidHandler) (parent child : ℕ) (p c : Process) : Type 0 where
  pub i : ℕ
  pub j : ℕ
  pub parent_at : get_entry h parent ≡ some i
  pub child_at : get_entry h child ≡ some j
  pub parent_is : read h.p_list i ≡ ok p
  pub child_is : read h.p_list j ≡ ok c
  pub linked : c.parent ≡ parent

first_dead-entry :
    (h : PidHandler) (ws : List ℕ) (k : ℕ) {j w : ℕ}
    → first_dead h ws k ≡ ok (some (j, w))
    → (c : Process) × (entry h (get_entry h w) ≡ ok c) × (c.alive ≡ false)
unfolding first_dead
first_dead-entry h [] k e = cc
first_dead-entry h (x ∷ ws) k {j} {w} e = >>=-elim (entry h (get_entry h x)) _ e λ c ec e1.
    elim (Bool-cases c.alive) [
      | inl live ↦ first_dead-entry h ws (k + 1) {j = j} {w = w} (ground arith)
      | inr dead ↦
          let e2 : ◌≡◌ {A = Outcome (Option (ℕ × ℕ))} (ok (some (k, x))) (ok (some (j, w))) =
            rw dead at e1 in
          let same : x ≡ w = ground arith in
          (c, ap (λ t. entry h (get_entry h t)) (sym same) ∙ ec, dead)
    ]

-- the loops over the children agree
any_loop :
    (h : PidHandler) (i : ℕ) (p : Process) (target : ℕ) (d : Outcome (Option (ℕ × ℕ))) (ws : List ℕ)
    → p.children ≡ ws
    → first_dead h ws 0 ≡ d
    → found_of (d >>= reap_any h i p target)
      ≡ (if is_empty ws then ok true else d >>= λ r. ok (is_some r))
unfolding reap_any first_dead
any_loop h i p target d [] e ed = ground arith
any_loop h i p target fault (w ∷ ws) e ed = refl
any_loop h i p target (ok none) (w ∷ ws) e ed = ground arith
any_loop h i p target (ok (some (k, x))) (w ∷ ws) e ed =
    let (c, ec, _) = first_dead-entry h (w ∷ ws) 0 ed in ground arith

-- Waiting for any child: get_retval succeeds, fails or aborts exactly when is_retval_avail says yes,
-- says no or aborts.
pub found-get_retval_any :
    (h : PidHandler) (pid target : ℕ)
    → found_of (get_retval h pid any_child target) ≡ is_retval_avail h pid any_child
unfolding get_retval is_retval_avail
found-get_retval_any h pid target = elim (Option-cases (get_entry h pid)) [
  | inl e ↦ rw (e, get_retval, is_retval_avail)
  | inr (i, e) ↦
      rw (e, get_retval, is_retval_avail)
        (elim (Outcome-cases (read h.p_list i)) [
          | inl f ↦ rw f
          | inr (p, r) ↦
              rw r (any_loop h i p target (first_dead h p.children 0) p.children refl refl)
        ])
]

-- Waiting, by its id, for a child that has exited and that is still in the parent's list:
-- is_retval_avail says yes, and get_retval returns the value of the exit, takes the child off the
-- list and changes nothing else.
get_retval_named :
    (h : PidHandler) (pid w target k : ℕ) (p c : Process) (link : IsChild h pid w p c)
    → w ≢ any_child
    → c.alive ≡ false
    → find_index (λ x. x == w) p.children ≡ some k
    → (is_retval_avail h pid w ≡ ok true)
      × (get_retval h pid w target
          ≡ ok (record {
            found = true;
            waiting_for = w;
            target = c.retval;
            handler = put h link.i (record p { children = erase_at p.children k });
          }))
unfolding get_retval is_retval_avail
get_retval_named h pid w target k p c link ne dead at =
    let not_any : (w == any_child) ≡ false = ground arith in
    let mine : (c.parent == pid) ≡ true = ground (arith, link.linked) in
    (
      rw (link.parent_at, is_retval_avail)
          (rw link.parent_is
            (rw (not_any, link.child_at) (rw link.child_is (rw (mine, dead) refl)))),
      rw (link.parent_at, get_retval)
          (rw link.parent_is
            (rw (not_any, link.child_at) (rw link.child_is (rw (mine, dead) (rw at refl))))),
    )

-- the table after the wait for `w` has been answered
abbrev reaped : (h : PidHandler) (pid w k : ℕ) (p c : Process) → IsChild h pid w p c → PidHandler
reaped h pid w k p c link = put h link.i (record p { children = erase_at p.children k })

reaped-IsChild :
    (h : PidHandler) (pid w k : ℕ) (p c : Process) (link : IsChild h pid w p c)
    → link.i ≢ link.j
    → IsChild (reaped h pid w k p c link) pid w (record p { children = erase_at p.children k }) c
reaped-IsChild h pid w k p c link ne = record {
  i = link.i;
  j = link.j;
  parent_at = get_entry-put h link.i pid p _ link.parent_is refl ∙ link.parent_at;
  child_at = get_entry-put h link.i w p _ link.parent_is refl ∙ link.child_at;
  parent_is = read-put_self h link.i p _ link.parent_is;
  child_is = read-put_ne h.p_list link.i link.j _ ne ∙ link.child_is;
  linked = link.linked;
}

reaped-answers :
    (h : PidHandler) (pid w target k : ℕ) (p c : Process) (link : IsChild h pid w p c)
    → w ≢ any_child
    → c.alive ≡ false
    → link.i ≢ link.j
    → find_index (λ x. x == w) (erase_at p.children k) ≡ none
    → (is_retval_avail (reaped h pid w k p c link) pid w ≡ ok true)
      × (found_of (get_retval (reaped h pid w k p c link) pid w target) ≡ ok false)
unfolding get_retval is_retval_avail
reaped-answers h pid w target k p c link ne dead apart gone =
    let after = reaped-IsChild h pid w k p c link apart in
    let not_any : (w == any_child) ≡ false = ground arith in
    let mine : (c.parent == pid) ≡ true = ground (arith, link.linked) in
    (
      rw (after.parent_at, is_retval_avail)
          (rw after.parent_is
            (rw (not_any, after.child_at) (rw after.child_is (rw (mine, dead) refl)))),
      rw (after.parent_at, get_retval)
          (rw after.parent_is
            (rw (not_any, after.child_at) (rw after.child_is (rw (mine, dead) (rw gone refl))))),
    )

-- A dead child, with an id other than that of any child, that stands once in the list of a parent which
-- is another process: get_retval for it succeeds with the value of its exit. In the table that
-- get_retval leaves, is_retval_avail still reports the child as available, while a second get_retval
-- for it fails.
pub reaped_disagree :
    (h : PidHandler) (pid w target target' k : ℕ) (p c : Process) (link : IsChild h pid w p c)
    → w ≢ any_child
    → c.alive ≡ false
    → link.i ≢ link.j
    → find_index (λ x. x == w) p.children ≡ some k
    → find_index (λ x. x == w) (erase_at p.children k) ≡ none
    → (r : Reply) × (get_retval h pid w target ≡ ok r)
      × (r.found ≡ true)
      × (r.target ≡ c.retval)
      × (is_retval_avail r.handler pid w ≡ ok true)
      × (found_of (get_retval r.handler pid w target') ≡ ok false)
reaped_disagree h pid w target target' k p c link ne dead apart at gone =
    let (avail, fails) = reaped-answers h pid w target' k p c link ne dead apart gone in
    (
      record {
        found = true;
        waiting_for = w;
        target = c.retval;
        handler = reaped h pid w k p c link;
      },
      (get_retval_named h pid w target k p c link ne dead at).1,
      refl,
      refl,
      avail,
      fails,
    )

-- An exit and the wait for it, for a living child in the list of a parent that is another process,
-- with an id other than that of any child: kill_pid returns true, get_retval then hands out the
-- value that kill_pid was given, and a second kill_pid returns false and changes nothing.
pub kill_pid-get_retval :
    (h : PidHandler) (pid w val target k : ℕ) (p c : Process) (link : IsChild h pid w p c)
    → w ≢ any_child
    → c.alive ≡ true
    → link.i ≢ link.j
    → find_index (λ x. x == w) p.children ≡ some k
    → let h' = put h link.j (record c { alive = false; retval = val }) in
      (kill_pid h w val ≡ ok (true, h'))
      × (kill_pid h' w val ≡ ok (false, h'))
      × (found_of (get_retval h' pid w target) ≡ ok true)
      × (target_of (get_retval h' pid w target) ≡ ok val)
unfolding kill_pid
kill_pid-get_retval h pid w val target k p c link ne live apart at = (
  rw (link.child_at, kill_pid) (rw link.child_is (rw live refl)),
  rw (after.child_at, kill_pid) (rw after.child_is refl),
  ap found_of got,
  ap target_of got,
)
  where
    dead : Process
    dead = record c { alive = false; retval = val }

    after : IsChild (put h link.j dead) pid w p dead
    after = record {
      i = link.i;
      j = link.j;
      parent_at = get_entry-put h link.j pid c dead link.child_is refl ∙ link.parent_at;
      child_at = get_entry-put h link.j w c dead link.child_is refl ∙ link.child_at;
      parent_is = read-put_ne h.p_list link.j link.i dead (λ e. apart (sym e)) ∙ link.parent_is;
      child_is = read-put_self h link.j c dead link.child_is;
      linked = link.linked;
    }

    got :
        get_retval (put h link.j dead) pid w target
        ≡ ok (record {
          found = true;
          waiting_for = w;
          target = val;
          handler = put (put h link.j dead) link.i (record p { children = erase_at p.children k });
        })
    got = (get_retval_named (put h link.j dead) pid w target k p dead after ne refl at).1
