-- ===== src/Btb/Taken.antt =====
-- A taken branch that goes through update_pbtb and update, and the search for it afterwards.
use smt_register_capping.Base.{
  ℕ, zero, suc, ◌+◌, ◌*◌, ◌<◌, ◌≤◌, ◌≡◌, refl, ap, ◌∙◌, inl, inr, Bool, true, false, ltb, ◌==◌,
  if◌then◌else◌, List, ◌∷◌, some, ok, ◌>>=◌, read, subst, >>=-elim, read_of_lt, length, length-set,
  set, Bool-cases, arith,
}
use smt_register_capping.Btb.{
  Btb, BtbEntry, fresh_entry, search_set, set_index, update_pbtb, find_pbtb, update,
}
use smt_register_capping.Chain.Order.{without}
use smt_register_capping.Btb.Recent.{entry, field-changed, field-kept}
use smt_register_capping.Btb.Search.{SetOrder, Hit, Used, chosen, update_pbtb-Used, chosen_in_set}

-- what the search finds is an entry of the buffer
search_set-read :
    (entries : List BtbEntry) (baddr i left : ℕ) {p : ℕ}
    → search_set entries baddr i left ≡ ok (some p)
    → (e : BtbEntry) × (read entries p ≡ ok e)
unfolding search_set
search_set-read entries baddr i zero h = cc
search_set-read entries baddr i (suc left) {p} h = >>=-elim (read entries i) _ h λ e there h1.
    elim (Bool-cases (e.addr == baddr)) [
      | inl same ↦
          let here : ok (some i) ≡ ok (some p) = rw same at h1 in
          let one : i ≡ p = cc in (e, subst (λ n. read entries n ≡ ok e) one there)
      | inr other ↦ search_set-read entries baddr (i + 1) left (rw other at h1)
    ]

pub find_pbtb-read :
    (b : Btb) (baddr : ℕ) {p : ℕ}
    → find_pbtb b baddr ≡ ok (some p)
    → (e : BtbEntry) × (read b.entries p ≡ ok e)
unfolding find_pbtb
find_pbtb-read b baddr h = elim (Bool-cases (ltb 1 b.assoc)) [
  | inl e ↦ search_set-read b.entries baddr _ b.assoc (rw e at h)
  | inr e ↦ search_set-read b.entries baddr _ 1 (rw e at h)
]

-- the search stops at the match
search_set-match :
    (entries : List BtbEntry) (baddr p i left : ℕ)
    → i ≤ p
    → p < i + left
    → ((x : ℕ) → i ≤ x → x < i + left → x < length entries)
    → ((x : ℕ) → i ≤ x → x < i + left → ((entry entries x).addr == baddr) ≡ (x == p))
    → search_set entries baddr i left ≡ ok (some p)
unfolding search_set
search_set-match entries baddr p i zero lo hi inside matches = absurd (omega arith)
search_set-match entries baddr p i (suc left) lo hi inside matches =
    let found = read_of_lt entries i fresh_entry (inside i (omega arith) (omega arith)) in
    rw found (elim (Bool-cases (i == p)) [
      | inl e ↦
          let same : i ≡ p = ground arith in
          rw (matches i (omega arith) (omega arith)) (rw e (ap (λ n. ok (some n)) same))
      | inr e ↦
          let ahead : i + 1 ≤ p = ground arith in
          rw (matches i (omega arith) (omega arith)) (
            rw e (
              search_set-match entries baddr p (i + 1) left ahead (omega arith)
                (λ x lo' hi'. inside x (omega arith) (omega arith))
                (λ x lo' hi'. matches x (omega arith) (omega arith))))
    ])

find_pbtb-Hit :
    (b : Btb) (baddr p : ℕ) (o : List ℕ)
    → 1 < b.assoc
    → SetOrder b.entries (set_index b baddr * b.assoc) b.assoc o
    → Hit b.entries baddr (set_index b baddr * b.assoc) b.assoc p
    → p < set_index b baddr * b.assoc + b.assoc
    → find_pbtb b baddr ≡ ok (some p)
unfolding find_pbtb
find_pbtb-Hit b baddr p o several s hit lt =
    let many : ltb 1 b.assoc ≡ true = ground arith in
    rw many (
      search_set-match b.entries baddr p (set_index b baddr * b.assoc) b.assoc hit.from lt
        (λ x lo hi. s.chained.inside x (s.covers x lo hi)) hit.matches)

-- the entry that update leaves
abbrev updated : BtbEntry → ℕ → Bool → ℕ → BtbEntry
updated e baddr correct btarget =
    if e.addr == baddr
    then (if correct then e else record e { target = btarget })
    else record e { addr = baddr; target = btarget }

update-entry :
    (b : Btb) (i baddr : ℕ) (correct : Bool) (btarget : ℕ)
    → i < length b.entries
    → update b (some i) true baddr correct btarget
      ≡ ok (record b {
        entries = set b.entries i (updated (entry b.entries i) baddr correct btarget);
      })
unfolding update
update-entry b i baddr correct btarget lt = rw (read_of_lt b.entries i fresh_entry lt) refl

updated-addr :
    (e : BtbEntry) (baddr : ℕ) (correct : Bool) (btarget : ℕ)
    → (updated e baddr correct btarget).addr ≡ baddr
updated-addr e baddr true btarget = ground arith
updated-addr e baddr false btarget = ground arith

updated-links :
    (e : BtbEntry) (baddr : ℕ) (correct : Bool) (btarget : ℕ)
    → ((updated e baddr correct btarget).prev ≡ e.prev)
      × ((updated e baddr correct btarget).next ≡ e.next)
updated-links e baddr true btarget = ground arith
updated-links e baddr false btarget = ground arith

updated-target :
    (e : BtbEntry) (baddr btarget : ℕ) → (updated e baddr false btarget).target ≡ btarget
updated-target e baddr btarget = ground arith

-- the order does not depend on what the entries track
set-SetOrder :
    (entries : List BtbEntry) (index assoc : ℕ) (o : List ℕ) (p : ℕ) (e : BtbEntry)
    → p < length entries
    → e.prev ≡ (entry entries p).prev
    → e.next ≡ (entry entries p).next
    → SetOrder entries index assoc o
    → SetOrder (set entries p e) index assoc o
set-SetOrder entries index assoc o p e lt prev next s = record {
  chained = record {
    inside = λ x g. omega (arith, s.chained.inside x g, length-set entries p e);
    prevs = λ x g. field-kept (λ n. n.prev) entries p x e lt prev ∙ s.chained.prevs x g;
    nexts = λ x g. field-kept (λ n. n.next) entries p x e lt next ∙ s.chained.nexts x g;
  };
  distinct = s.distinct;
  covers = s.covers;
  within = s.within;
}

module _ (b : Btb) (baddr k h z : ℕ) (t : List ℕ) (several : 1 < b.assoc)
    (s : SetOrder b.entries (set_index b baddr * b.assoc) b.assoc (h ∷ z ∷ t))
    (hit : Hit b.entries baddr (set_index b baddr * b.assoc) b.assoc k) where
  abbrev index : ℕ
  index = set_index b baddr * b.assoc

  abbrev p : ℕ
  p = chosen k (index + b.assoc) z t

  -- no other entry of the set tracks the branch
  not_match : (x : ℕ) → x < index + b.assoc → (p == x) ≡ false → (x == k) ≡ false
  not_match x hi ne = elim (Bool-cases (ltb k (index + b.assoc))) [
    | inl e ↦
        let pick : p ≡ k = rw e refl in let ne' : (k == x) ≡ false = rw pick at ne in ground arith
    | inr e ↦ ground arith
  ]

  module _ (r : List BtbEntry) (used : Used b.entries index b.assoc (h ∷ z ∷ t) p r)
      (correct : Bool) (btarget : ℕ) where
    abbrev e : BtbEntry
    e = updated (entry r p) baddr correct btarget

    p_in : p < length r
    p_in = used.order.chained.inside p (ground arith)

    updated-Hit : Hit (set r p e) baddr index b.assoc p
    updated-Hit = record {
      from = (s.within p (chosen_in_set b.entries baddr index b.assoc k h z t s hit)).0;
      matches = λ x lo hi.
          ap (λ a. a == baddr) (field-changed (λ n. n.addr) r p x e p_in)
          ∙ elim (Bool-cases (p == x)) [
            | inl g ↦
                let back : (x == p) ≡ true = ground arith in
                rw (g, back) (rw (updated-addr (entry r p) baddr correct btarget) (ground arith))
            | inr g ↦
                let back : (x == p) ≡ false = ground arith in
                rw (g, back) (rw (used.branches.addrs x) (hit.matches x lo hi ∙ not_match x hi g))
          ];
    }

    updated-SetOrder : SetOrder (set r p e) index b.assoc (p ∷ without p (h ∷ z ∷ t))
    updated-SetOrder =
        let (same_prev, same_next) = updated-links (entry r p) baddr correct btarget in
        set-SetOrder r index b.assoc (p ∷ without p (h ∷ z ∷ t)) p e p_in same_prev same_next
          used.order

    updated-found : find_pbtb (record b { entries = set r p e }) baddr ≡ ok (some p)
    updated-found =
        find_pbtb-Hit (record b { entries = set r p e }) baddr p (p ∷ without p (h ∷ z ∷ t)) several
          updated-SetOrder updated-Hit
          (s.within p (chosen_in_set b.entries baddr index b.assoc k h z t s hit)).1

    updated_target : correct ≡ false → (entry (set r p e) p).target ≡ btarget
    updated_target wrong =
        let self : (p == p) ≡ true = ground arith in
        field-changed (λ n. n.target) r p p e p_in
        ∙ rw self (
            ap (λ c. (updated (entry r p) baddr c btarget).target) wrong
            ∙ updated-target (entry r p) baddr btarget)

-- A taken branch in a set of more than one entry, chained in an order that has all its entries, where
-- at most one entry of the set has the branch's address (entry k, or none if k is behind the set), that
-- goes through update_pbtb and update: neither aborts, and afterwards find_pbtb finds the branch, in the entry that update_pbtb
-- chose, which is at the front of the order and the only one of the set for the branch. If the
-- prediction was not correct, the entry has the new target.
pub find_pbtb-update :
    (b : Btb) (baddr k h z : ℕ) (t : List ℕ) (correct : Bool) (btarget : ℕ)
    → 1 < b.assoc
    → SetOrder b.entries (set_index b baddr * b.assoc) b.assoc (h ∷ z ∷ t)
    → Hit b.entries baddr (set_index b baddr * b.assoc) b.assoc k
    → (let index = set_index b baddr * b.assoc in
        let p = chosen k (index + b.assoc) z t in
        (entries : List BtbEntry) × ((update_pbtb b true baddr >>= λ r.
        update r.1 r.0 true baddr correct btarget)
          ≡ ok (record b { entries = entries }))
        × (find_pbtb (record b { entries = entries }) baddr ≡ ok (some p))
        × SetOrder entries index b.assoc (p ∷ without p (h ∷ z ∷ t))
        × Hit entries baddr index b.assoc p
        × (correct ≡ false → (entry entries p).target ≡ btarget))
find_pbtb-update b baddr k h z t correct btarget several s hit =
    let (r, run, used) = update_pbtb-Used b baddr k h z t several s hit in
    let q = chosen k (set_index b baddr * b.assoc + b.assoc) z t in
    let lt = p_in b baddr k h z t several s hit r used correct btarget in
    (
      set r q (updated (entry r q) baddr correct btarget),
      rw run (update-entry (record b { entries = r }) q baddr correct btarget lt),
      updated-found b baddr k h z t several s hit r used correct btarget,
      updated-SetOrder b baddr k h z t several s hit r used correct btarget,
      updated-Hit b baddr k h z t several s hit r used correct btarget,
      updated_target b baddr k h z t several s hit r used correct btarget,
    )
