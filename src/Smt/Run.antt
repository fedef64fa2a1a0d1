-- ===== src/Smt/Run.antt =====
-- Runs of the simulator's rename, issue, writeback and commit stages, for any interleaving of the
-- threads and of the stages, from the state that sim_main sets up. Dispatch is not a step of its own:
-- of what the steps read it changes only what readyq_enqueue does. A recovery from a wrong branch is
-- not a step either: core_t::rollbackTo is in cmp.c, which is not in the repository.
use smt_register_capping.Base.{
  ℕ, zero, suc, ◌+◌, ◌≤◌, ◌<◌, ◌≡◌, refl, ap, ◌∙◌, Bool, List, [], ◌∷◌, ok, arith, length, get_or,
  count_if,
}
use smt_register_capping.Smt.State.{Context, Machine, rob_entries}
use smt_register_capping.Smt.Cap.{rename_reg_limit, reset_counters}
use smt_register_capping.Smt.Rename.{Executed, renamed, rename_inst}
use smt_register_capping.Smt.Commit.{write_back_rob, write_back_lsq, commits, commit_one}
use smt_register_capping.Smt.Invariant.{
  HasRings, IsCounted, Fits, IsCapped, is_renamed, thread, counter,
}
use smt_register_capping.Smt.Rename.Capped.{rename_inst-IsCapped}
use smt_register_capping.Smt.Commit.Capped.{commit_one-IsCapped}
use smt_register_capping.Smt.Counting.{dcra_le}
use smt_register_capping.Smt.Issue.{EntryStep, step_rob, step_lsq}
use smt_register_capping.Smt.Issue.Kept.{step_rob-IsCapped, step_lsq-IsCapped}
use smt_register_capping.Smt.Writeback.{write_back_rob-IsCapped, write_back_lsq-IsCapped}

pub data Step (m : Machine) : Machine → Type 0 where
  renames :
      {m' : Machine} (cid : ℕ) (x : Executed)
      → cid < m.num_contexts
      → rename_inst m cid x ≡ ok (renamed m')
      → Step m m'
  completes :
      {m' : Machine} (cid i : ℕ) → cid < m.num_contexts → write_back_rob m cid i ≡ ok m' → Step m m'
  accesses :
      {m' : Machine} (cid i : ℕ) → cid < m.num_contexts → write_back_lsq m cid i ≡ ok m' → Step m m'
  schedules :
      {m' : Machine} (s : EntryStep) (cid i : ℕ)
      → cid < m.num_contexts
      → step_rob s m cid i ≡ ok m'
      → Step m m'
  schedules_access :
      {m' : Machine} (s : EntryStep) (cid i : ℕ)
      → cid < m.num_contexts
      → step_lsq s m cid i ≡ ok m'
      → Step m m'
  retires :
      {m' : Machine} (cid : ℕ) (port : Bool)
      → cid < m.num_contexts
      → commit_one m cid port ≡ ok (commits m')
      → Step m m'
  ticks : (cycle : ℕ) → Step m (record m { sim_cycle = cycle })

pub data Reach (m : Machine) : Machine → Type 0 where
  here : Reach m m
  next : {m' m'' : Machine} → Reach m m' → Step m' m'' → Reach m m''

-- a thread with no instruction in flight
pub record IsIdle (c : Context) : Type 0 where
  pub rings : HasRings c
  pub empty : c.rob_num ≡ 0
  pub no_int : c.dcra_int_rf ≡ 0
  pub no_fp : c.dcra_fp_rf ≡ 0

-- the counters as sim_main clears them before the first cycle
abbrev pub start : Machine → Machine
start m = record m { reg_counter = reset_counters m.num_contexts m.reg_counter }

length-reset : (n : ℕ) (xs : List ℕ) → length (reset_counters n xs) ≡ length xs
unfolding reset_counters
length-reset zero xs = refl
length-reset (suc n) [] = refl
length-reset (suc n) (x ∷ xs) = ap suc (length-reset n xs)

get_or-reset : (n : ℕ) (xs : List ℕ) (i : ℕ) → i < n → get_or (reset_counters n xs) i 0 ≡ 0
unfolding reset_counters
get_or-reset zero xs i lt = absurd (omega arith)
get_or-reset (suc n) [] i lt = refl
get_or-reset (suc n) (x ∷ xs) zero lt = refl
get_or-reset (suc n) (x ∷ xs) (suc i) lt = get_or-reset n xs i (omega arith)

idle-IsCounted : (c : Context) → IsIdle c → IsCounted c 0
idle-IsCounted c i = record {
  capped = omega arith;
  counted = rw i.empty;
  dcra_int = rw i.empty i.no_int;
  dcra_fp = rw i.empty i.no_fp;
}

pub start-IsCapped :
    (m : Machine)
    → Fits m
    → ((cid : ℕ) → cid < m.num_contexts → IsIdle (thread m cid))
    → IsCapped (start m)
start-IsCapped m f idle = record {
  fits = record {
    threads = f.threads;
    counters = length-reset m.num_contexts m.reg_counter ∙ f.counters;
    few = f.few;
  };
  rings = λ cid lt. (idle cid lt).rings;
  counts = λ cid lt.
      rw (get_or-reset m.num_contexts m.reg_counter cid lt)
        (idle-IsCounted (thread m cid) (idle cid lt));
}

Step-IsCapped : {m m' : Machine} → Step m m' → IsCapped m → IsCapped m'
Step-IsCapped {m} (renames cid x lt h) v = rename_inst-IsCapped m cid x lt v h
Step-IsCapped {m} (completes cid i lt h) v = write_back_rob-IsCapped m cid i lt v h
Step-IsCapped {m} (accesses cid i lt h) v = write_back_lsq-IsCapped m cid i lt v h
Step-IsCapped {m} (schedules s cid i lt h) v = step_rob-IsCapped s m cid i lt v h
Step-IsCapped {m} (schedules_access s cid i lt h) v = step_lsq-IsCapped s m cid i lt v h
Step-IsCapped {m} (retires cid port lt h) v = commit_one-IsCapped m cid port lt v h
Step-IsCapped {m} (ticks cycle) v = record {
  fits = record { threads = v.fits.threads; counters = v.fits.counters; few = v.fits.few };
  rings = v.rings;
  counts = v.counts;
}

pub Reach-IsCapped : {m m' : Machine} → Reach m m' → IsCapped m → IsCapped m'
Reach-IsCapped here v = v
Reach-IsCapped (next r s) v = Step-IsCapped s (Reach-IsCapped r v)

-- However the threads and the stages interleave, from idle threads with cleared counters: no thread
-- ever has more than RENAME_REG_LIMIT renamed instructions in its ROB, and reg_counter, as well as
-- the sum of the two DCRA register counters, is the number of those instructions.
pub Reach-capped :
    (m m' : Machine) (cid : ℕ)
    → Fits m
    → ((j : ℕ) → j < m.num_contexts → IsIdle (thread m j))
    → Reach (start m) m'
    → cid < m'.num_contexts
    → (count_if is_renamed (rob_entries (thread m' cid)) ≤ rename_reg_limit)
      × (counter m' cid ≡ count_if is_renamed (rob_entries (thread m' cid)))
      × ((thread m' cid).dcra_int_rf + (thread m' cid).dcra_fp_rf ≡ counter m' cid)
Reach-capped m m' cid f idle r lt =
    let k = (Reach-IsCapped r (start-IsCapped m f idle)).counts cid lt in
    (omega (arith, k.capped, k.counted), k.counted, dcra_le (thread m' cid) (counter m' cid) k)
