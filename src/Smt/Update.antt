-- ===== src/Smt/Update.antt =====
-- A step that changes one thread, its counter and the shared registers, seen from the other threads.
use native.Mathlib.Decide.{ℕ_discrete}
use smt_register_capping.Base.{
  ℕ, ◌<◌, ◌≡◌, ◌≢◌, ap, ◌∙◌, arith, length, set, get_or, length-set, get_or-set_self, get_or-set_ne,
}
use smt_register_capping.Smt.State.{Context, Machine}
use smt_register_capping.Smt.Invariant.{
  HasRings, IsCounted, Fits, IsCapped, idle_context, thread, counter,
}

-- `m'` is `m` with the context and the counter of `cid` replaced
pub record Updates (m : Machine) (cid : ℕ) (c' : Context) (n' : ℕ) (m' : Machine) : Type 0 where
  pub contexts : m'.contexts ≡ set m.contexts cid c'
  pub num : m'.num_contexts ≡ m.num_contexts
  pub counters : m'.reg_counter ≡ set m.reg_counter cid n'

module _ (m : Machine) (cid : ℕ) (c' : Context) (n' : ℕ) (m' : Machine) (f : Fits m)
    (lt : cid < m.num_contexts) (u : Updates m cid c' n' m') where
  pub updated-Fits : Fits m'
  updated-Fits = record {
    threads = omega (arith, ap length u.contexts, length-set m.contexts cid c', f.threads, u.num);
    counters = omega (arith, ap length u.counters, length-set m.reg_counter cid n', f.counters);
    few = omega (arith, f.few, u.num);
  }

  pub updated-thread : thread m' cid ≡ c'
  updated-thread =
      ap (λ l. get_or l cid idle_context) u.contexts
      ∙ get_or-set_self m.contexts cid c' idle_context (omega (arith, f.threads))

  pub updated-counter : counter m' cid ≡ n'
  updated-counter =
      ap (λ l. get_or l cid 0) u.counters
      ∙ get_or-set_self m.reg_counter cid n' 0 (omega (arith, f.counters, f.few))

  pub other-thread : (j : ℕ) → cid ≢ j → thread m' j ≡ thread m j
  other-thread j ne =
      ap (λ l. get_or l j idle_context) u.contexts
      ∙ get_or-set_ne m.contexts cid j c' idle_context ne

  pub other-counter : (j : ℕ) → cid ≢ j → counter m' j ≡ counter m j
  other-counter j ne = ap (λ l. get_or l j 0) u.counters ∙ get_or-set_ne m.reg_counter cid j n' 0 ne

  pub updated-IsCapped : IsCapped m → HasRings c' → IsCounted c' n' → IsCapped m'
  updated-IsCapped v r k = record {
    fits = updated-Fits;
    rings = λ j lj. elim (ℕ_discrete cid j) [
      | yes e ↦ rw (← e, updated-thread) r
      | no ne ↦ rw (other-thread j ne) (v.rings j (omega (arith, u.num)))
    ];
    counts = λ j lj. elim (ℕ_discrete cid j) [
      | yes e ↦ rw (← e, updated-thread, updated-counter) k
      | no ne ↦ rw (other-thread j ne, other-counter j ne) (v.counts j (omega (arith, u.num)))
    ];
  }
