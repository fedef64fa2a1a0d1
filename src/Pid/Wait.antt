-- ===== src/Pid/Wait.antt =====
-- Waiting for a child: get_retval and is_retval_avail of pid.c.
use smt_register_capping.Base.{
  ℕ, zero, suc, ◌+◌, Bool, true, false, not, ◌==◌, if◌then◌else◌, List, [], ◌∷◌, Option, none, some,
  Outcome, ok, ◌>>=◌, read, find_index,
}
use smt_register_capping.Pid.{Process, PidHandler, any_child, echild, get_entry, entry, put}

-- children.erase(children.begin() + i)
abbrev pub erase_at : List ℕ → ℕ → List ℕ
erase_at [] i = []
erase_at (c ∷ cs) zero = cs
erase_at (c ∷ cs) (suc i) = c ∷ erase_at cs i

-- what get_retval returns, with the values of its two reference parameters after the call
pub record Reply : Type 0 where
  pub found : Bool
  pub waiting_for : ℕ
  pub target : ℕ
  pub handler : PidHandler

abbrev reply : Bool → ℕ → ℕ → PidHandler → Reply
reply b w t h = record { found = b; waiting_for = w; target = t; handler = h }

-- the erased child and its return value
reap : PidHandler → ℕ → Process → ℕ → ℕ → Process → Reply
reap h i p k w c = reply true w c.retval (put h i (record p { children = erase_at p.children k }))

-- the loop over the children for one process: the position of `w`
reap_named : PidHandler → ℕ → Process → Process → ℕ → ℕ → Option ℕ → Reply
unfolding reap
reap_named h i p c w target none = reply false w target h
reap_named h i p c w target (some k) = reap h i p k w c

-- the loop over the children for any process: the first that is dead
unfoldable pub first_dead : PidHandler → List ℕ → ℕ → Outcome (Option (ℕ × ℕ))
first_dead h [] k = ok none
first_dead h (w ∷ ws) k = do
  c ← entry h (get_entry h w)
  let rest = first_dead h ws (k + 1)
  if c.alive then rest else ok (some (k, w))

abbrev pub is_empty : List ℕ → Bool
is_empty [] = true
is_empty (c ∷ cs) = false

unfoldable pub reap_any : PidHandler → ℕ → Process → ℕ → Option (ℕ × ℕ) → Outcome Reply
unfolding reap
reap_any h i p target none =
    ok (
      if is_empty p.children then reply true any_child echild h else reply false any_child target h)
reap_any h i p target (some (k, w)) = do c ← entry h (get_entry h w); ok (reap h i p k w c)

retval_at : PidHandler → Option ℕ → ℕ → ℕ → ℕ → Outcome Reply
unfolding reap_named reap_any first_dead
retval_at h none pid w target = ok (reply false w target h)
retval_at h (some i) pid w target = do
  p ← read h.p_list i
  if not (w == any_child)
      then (do
        c ← entry h (get_entry h w)
        if not (c.parent == pid)
            then ok (reply false w target h)
            else if c.alive
            then ok (reply false w target h)
            else ok (reap_named h i p c w target (find_index (λ x. x == w) p.children)))
      else (do d ← first_dead h p.children 0; reap_any h i p target d)

unfoldable pub get_retval : PidHandler → ℕ → ℕ → ℕ → Outcome Reply
unfolding retval_at get_entry
get_retval h pid w target = retval_at h (get_entry h pid) pid w target

abbrev pub is_some {ℓ} : {A : Type ℓ} → Option A → Bool
is_some none = false
is_some (some a) = true

avail_at : PidHandler → Option ℕ → ℕ → ℕ → Outcome Bool
unfolding first_dead
avail_at h none pid w = ok false
avail_at h (some i) pid w = do
  p ← read h.p_list i
  if not (w == any_child)
      then (do
        c ← entry h (get_entry h w)
        ok (if not (c.parent == pid) then false else if c.alive then false else true))
      else if is_empty p.children
      then ok true
      else (do d ← first_dead h p.children 0; ok (is_some d))

unfoldable pub is_retval_avail : PidHandler → ℕ → ℕ → Outcome Bool
unfolding avail_at get_entry
is_retval_avail h pid w = avail_at h (get_entry h pid) pid w
