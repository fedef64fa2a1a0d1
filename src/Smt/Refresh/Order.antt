-- ===== src/Smt/Refresh/Order.antt =====
-- Which loads lsq_refresh lets go, by the stores before them in the LSQ alone: the set of addresses
-- and the end of the search are what the walk needs to find out.
use smt_register_capping.Base.{
  ℕ, ◌≡◌, ◌≢◌, refl, sym, ap, ◌∙◌, ◌⊎◌, inl, inr, subst, Bool, true, false, ◌&&◌, ◌||◌, not, ◌==◌,
  if◌then◌else◌, List, [], ◌∷◌, none, some, Outcome, ok, fault, arith, Bool-cases,
}
use smt_register_capping.Inflight.{RsLink, seq_sort, inorderinsert}
use smt_register_capping.Isa.Flags.{is_store}
use smt_register_capping.RegFile.Physical.{RegFile}
use smt_register_capping.Smt.Ring.{advance}
use smt_register_capping.Smt.State.{RobEntry}
use smt_register_capping.Smt.Operands.{all_operands_spec_ready}
use smt_register_capping.Smt.Refresh.{
  contains, insert_addr, erase_addr, store_addr_ready, pass_store, is_candidate, takes_load,
  load_link,
}

contains-insert_addr :
    (a b : ℕ) (s : List ℕ) → contains a (insert_addr b s) ≡ (a == b || contains a s)
contains-insert_addr a b s = elim (Bool-cases (contains b s)) [
  | inr e ↦ rw e refl
  | inl e ↦ rw e (elim (Bool-cases (a == b)) [
    | inl g ↦ let same : b ≡ a = ground arith in rw g (subst (λ c. contains c s ≡ true) same e)
    | inr g ↦ rw g refl
  ])
]

contains-erase_addr :
    (a b : ℕ) (s : List ℕ) → contains a (erase_addr b s) ≡ (not (a == b) && contains a s)
contains-erase_addr a b [] = ground arith
contains-erase_addr a b (c ∷ s) = ground (arith, contains-erase_addr a b s)

-- the answer of a test that does not abort
abbrev truth : Outcome Bool → Bool
truth (ok b) = b
truth fault = false

truth-ok : (o : Outcome Bool) → o ≢ fault → o ≡ ok (truth o)
truth-ok (ok b) h = refl
truth-ok fault h = absurd (h refl)

pub truth-true : (o : Outcome Bool) → truth o ≡ true → o ≡ ok true
truth-true (ok b) h = ap ok h
truth-true fault h = cc

true-ne_false : true ≢ false
true-ne_false h = cc

module _ (f : RegFile) (cycle : ℕ) where
  abbrev has_address : RobEntry → Bool
  has_address rs = truth (store_addr_ready f cycle rs)

  abbrev has_operands : RobEntry → Bool
  has_operands rs = truth (all_operands_spec_ready f cycle rs)

  -- the source registers of each entry are registers of the file
  abbrev pub AllReadable : List RobEntry → Type 0
  AllReadable [] = Unit {0}
  AllReadable (rs ∷ es) =
      (store_addr_ready f cycle rs ≢ fault)
      × (all_operands_spec_ready f cycle rs ≢ fault)
      × AllReadable es

  -- In a list of entries, latest first: every store knows its address; the value of the latest store to
  -- an address is not there yet.
  abbrev pub addresses_known : List RobEntry → Bool
  addresses_known [] = true
  addresses_known (rs ∷ es) = (not (is_store rs.op) || has_address rs) && addresses_known es

  abbrev value_missing : ℕ → List RobEntry → Bool
  value_missing a [] = false
  value_missing a (rs ∷ es) =
      if is_store rs.op && (a == rs.addr) then not (has_operands rs) else value_missing a es

  -- a load goes if it waits with its operands ready, the addresses of the stores before it are known,
  -- and the latest of them to its own address has its value
  abbrev pub may_go : List RobEntry → RobEntry → Bool
  may_go earlier rs =
      addresses_known (rs ∷ earlier)
      && (is_candidate rs && (has_operands rs && not (value_missing rs.addr (rs ∷ earlier))))

  -- the entries after the walk, and the links that join the ready queue, for the entries from the one
  -- at an index on, behind `earlier`
  abbrev pub refreshed : List RobEntry → List RobEntry → List RobEntry
  refreshed earlier [] = []
  refreshed earlier (rs ∷ es) =
      (if may_go earlier rs then record rs { queued = true } else rs) ∷ refreshed (rs ∷ earlier) es

  abbrev pub joining : (ℕ → ℕ) → ℕ → ℕ → List RobEntry → List RobEntry → List RsLink → List RsLink
  joining address size index earlier [] queue = queue
  joining address size index earlier (rs ∷ es) queue =
      joining address size (advance index size) (rs ∷ earlier) es (
        if may_go earlier rs
        then inorderinsert seq_sort (load_link address index rs) queue
        else queue)

  -- behind a store without an address nothing changes
  pub refreshed-blocked :
      (earlier es : List RobEntry) → addresses_known earlier ≡ false → refreshed earlier es ≡ es
  refreshed-blocked earlier [] h = refl
  refreshed-blocked earlier (rs ∷ es) h =
      let blocked : addresses_known (rs ∷ earlier) ≡ false = ground arith in
      rw (blocked, refreshed-blocked (rs ∷ earlier) es blocked) refl

  pub joining-blocked :
      (address : ℕ → ℕ) (size index : ℕ) (earlier es : List RobEntry) (queue : List RsLink)
      → addresses_known earlier ≡ false
      → joining address size index earlier es queue ≡ queue
  joining-blocked address size index earlier [] queue h = refl
  joining-blocked address size index earlier (rs ∷ es) queue h =
      let blocked : addresses_known (rs ∷ earlier) ≡ false = ground arith in
      rw blocked (joining-blocked address size (advance index size) (rs ∷ earlier) es queue blocked)

  -- the set holds the addresses whose latest store lacks its value
  pub record Tracks (unknowns : List ℕ) (earlier : List RobEntry) : Type 0 where
    pub holds : (a : ℕ) → contains a unknowns ≡ value_missing a earlier

  -- the step of the set over a store
  stored-Tracks :
      (rs : RobEntry) (unknowns : List ℕ) (earlier : List RobEntry) (ready : Bool)
      → all_operands_spec_ready f cycle rs ≡ ok ready
      → is_store rs.op ≡ true
      → Tracks unknowns earlier
      → Tracks
          (if ready then erase_addr rs.addr unknowns else insert_addr rs.addr unknowns)
          (rs ∷ earlier)
  stored-Tracks rs unknowns earlier true eo e t = record {
    holds = λ a.
        contains-erase_addr a rs.addr unknowns
        ∙ rw (e, eo)
            (elim (Bool-cases (a == rs.addr)) [ inl g ↦ rw g refl | inr g ↦ rw g (t.holds a) ]);
  }
  stored-Tracks rs unknowns earlier false eo e t = record {
    holds = λ a.
        contains-insert_addr a rs.addr unknowns
        ∙ rw (e, eo)
            (elim (Bool-cases (a == rs.addr)) [ inl g ↦ rw g refl | inr g ↦ rw g (t.holds a) ]);
  }

  pub pass_store-Tracks :
      (rs : RobEntry) (unknowns : List ℕ) (earlier : List RobEntry) (known ready : Bool)
      → store_addr_ready f cycle rs ≡ ok known
      → all_operands_spec_ready f cycle rs ≡ ok ready
      → addresses_known earlier ≡ true
      → Tracks unknowns earlier
      → ((pass_store f cycle rs unknowns ≡ ok none) × (addresses_known (rs ∷ earlier) ≡ false))
        ⊎ ((unknowns1 : List ℕ) × (pass_store f cycle rs unknowns ≡ ok (some unknowns1))
            × (addresses_known (rs ∷ earlier) ≡ true)
            × Tracks unknowns1 (rs ∷ earlier))
  unfolding pass_store
  pass_store-Tracks rs unknowns earlier known ready ea eo all t =
      elim (Bool-cases (is_store rs.op)) [
        | inr e ↦ inr (
          unknowns,
          rw (e, pass_store) refl,
          rw e all,
          record { holds = λ a. t.holds a ∙ rw e refl },
        )
        | inl e ↦ elim (Bool-cases known) [
          | inr g ↦ inl (rw (e, ea, g, pass_store) refl, rw (e, ea, g) refl)
          | inl g ↦ inr (
            (if ready then erase_addr rs.addr unknowns else insert_addr rs.addr unknowns),
            rw (e, ea, g, pass_store) (rw (eo, pass_store) refl),
            rw (e, ea, g) all,
            stored-Tracks rs unknowns earlier ready eo e t,
          )
        ]
      ]

  pub takes_load-may_go :
      (rs : RobEntry) (unknowns : List ℕ) (earlier : List RobEntry) (ready : Bool)
      → all_operands_spec_ready f cycle rs ≡ ok ready
      → addresses_known (rs ∷ earlier) ≡ true
      → Tracks unknowns (rs ∷ earlier)
      → takes_load f cycle rs unknowns ≡ ok (may_go earlier rs)
  unfolding takes_load
  takes_load-may_go rs unknowns earlier ready eo all t = elim (Bool-cases (is_candidate rs)) [
    | inr e ↦ rw (all, e, takes_load) refl
    | inl e ↦
        let run : takes_load f cycle rs unknowns ≡ ok (ready && not (contains rs.addr unknowns)) =
          rw (e, takes_load) (rw (eo, takes_load) refl) in
        run
        ∙ ap (λ b. ok (ready && not b)) (t.holds rs.addr)
        ∙ ap (λ b. ok (b && not (value_missing rs.addr (rs ∷ earlier)))) (sym (ap truth eo))
        ∙ rw (all, e) refl
  ]

  pub may_go-queued :
      (earlier : List RobEntry) (rs : RobEntry) → may_go earlier rs ≡ true → rs.queued ≡ false
  may_go-queued earlier rs h = elim (Bool-cases rs.queued) [
    | inr e ↦ e
    | inl e ↦
        let refused : is_candidate rs ≡ false = rw e (ground arith) in
        absurd (true-ne_false (sym h ∙ rw refused (ground arith)))
  ]

  pub may_go-operands :
      (earlier : List RobEntry) (rs : RobEntry) → may_go earlier rs ≡ true → has_operands rs ≡ true
  may_go-operands earlier rs h = elim (Bool-cases (has_operands rs)) [
    | inl e ↦ e
    | inr e ↦ absurd (true-ne_false (sym h ∙ rw e (ground arith)))
  ]
