-- ===== src/Btb/Search.antt =====
-- What update_pbtb finds in a set, and the order of use afterwards.
use smt_register_capping.Base.{
  ℕ, zero, suc, ◌+◌, ◌*◌, ◌<◌, ◌≤◌, ◌≡◌, refl, sym, ap, ◌∙◌, inl, inr, subst, Bool, true, false,
  ltb, ◌==◌, if◌then◌else◌, List, ◌∷◌, Option, none, some, ok, read_of_lt, length, Bool-cases,
  arith,
}
use smt_register_capping.Btb.{
  Btb, BtbEntry, fresh_entry, Found, note, scan_set, make_head, or_victim, use_entry, set_index,
  update_pbtb,
}
use smt_register_capping.Chain.{is_null, same_pointer}
use smt_register_capping.Chain.Order.{
  mem, Distinct, before, after, without, last_of, before-after, after-null, mem-last,
  Distinct-front, mem_of_before, mem_of_after, mem-front, front-first, member_front, first-null,
}
use smt_register_capping.Chain.Front.{front-prev_elsewhere, front-next_elsewhere}
use smt_register_capping.Btb.Recent.{
  entry, Chained, SameBranches, make_head-Moved, Moved-Chained, links, to_front,
}

-- an index that the loop has passed
abbrev upto : ℕ → ℕ → Option ℕ
upto k i = if ltb k i then some k else none

note-upto : (b : Bool) (k i : ℕ) → b ≡ (i == k) → note b i (upto k i) ≡ ok (upto k (i + 1))
note-upto true k i e =
    let same : i ≡ k = ground arith in
    let ahead : ltb k i ≡ false = ground arith in
    let passed : ltb k (i + 1) ≡ true = ground arith in
    rw (ahead, passed) (ap (λ n. ok (some n)) same)
note-upto false k i e = elim (Bool-cases (ltb k i)) [
  | inl g ↦ let passed : ltb k (i + 1) ≡ true = ground arith in rw (g, passed) refl
  | inr g ↦ let ahead : ltb k (i + 1) ≡ false = ground arith in rw (g, ahead) refl
]

-- what the loop reads of an entry: whether it is the match k, the head h and the last one l
record Reads (entries : List BtbEntry) (baddr k h l x : ℕ) : Type 0 where
  pub inside : x < length entries
  pub matches : ((entry entries x).addr == baddr) ≡ (x == k)
  pub head : is_null (entry entries x).prev ≡ (x == h)
  pub tail : is_null (entry entries x).next ≡ (x == l)
  pub chained : same_pointer (entry entries x).prev (entry entries x).next ≡ false

abbrev passed_by : ℕ → ℕ → ℕ → ℕ → Found
passed_by k h l i = record { pbtb = upto k i; lruhead = upto h i; lruitem = upto l i }

scan_set-passed_by :
    (entries : List BtbEntry) (baddr k h l i left : ℕ)
    → ((x : ℕ) → i ≤ x → x < i + left → Reads entries baddr k h l x)
    → scan_set entries baddr i left (passed_by k h l i) ≡ ok (passed_by k h l (i + left))
unfolding scan_set
scan_set-passed_by entries baddr k h l i zero reads =
    ap (λ n. ok (passed_by k h l n)) (let e : i ≡ i + 0 = omega arith in e)
scan_set-passed_by entries baddr k h l i (suc left) reads =
    let r = reads i (omega arith) (omega arith) in
    let rest =
      scan_set-passed_by entries baddr k h l (i + 1) left
        (λ x lo hi. reads x (omega arith) (omega arith)) in
    let sum : i + 1 + left ≡ i + suc left = omega arith in
    rw (read_of_lt entries i fresh_entry r.inside) (
      rw (note-upto ((entry entries i).addr == baddr) k i r.matches) (
        rw r.chained (
          rw (note-upto (is_null (entry entries i).prev) h i r.head) (
            rw (note-upto (is_null (entry entries i).next) l i r.tail)
              (rest ∙ ap (λ n. ok (passed_by k h l n)) sum)))))

-- no index has one neighbour on both sides
order-different :
    (h z : ℕ) (t : List ℕ) (x : ℕ)
    → Distinct (h ∷ z ∷ t)
    → mem x (h ∷ z ∷ t) ≡ true
    → same_pointer (before none (h ∷ z ∷ t) x) (after (h ∷ z ∷ t) x) ≡ false
order-different h z t x (a, d) there = elim (Bool-cases (h == x)) [
  | inl e ↦ rw e refl
  | inr e ↦ rw e (before-after (z ∷ t) h x a d (rw e at there))
]

upto-before : (k i : ℕ) → i ≤ k → upto k i ≡ none
upto-before k i le = let ahead : ltb k i ≡ false = ground arith in rw ahead refl

upto-after : (k i : ℕ) → k < i → upto k i ≡ some k
upto-after k i lt = let passed : ltb k i ≡ true = ground arith in rw passed refl

-- the entries of the set from `index` on are chained in the order `o`, and in no other
pub record SetOrder (entries : List BtbEntry) (index assoc : ℕ) (o : List ℕ) : Type 0 where
  pub chained : Chained entries o
  pub distinct : Distinct o
  pub covers : (x : ℕ) → index ≤ x → x < index + assoc → mem x o ≡ true
  pub within : (x : ℕ) → mem x o ≡ true → (index ≤ x) × (x < index + assoc)

-- k is the entry of the set for a branch, or an index behind the set if it has none
pub record Hit (entries : List BtbEntry) (baddr index assoc k : ℕ) : Type 0 where
  pub from : index ≤ k
  pub matches :
      (x : ℕ) → index ≤ x → x < index + assoc → ((entry entries x).addr == baddr) ≡ (x == k)

-- the entry to use: the match, or else the last one of the order
abbrev pub chosen : (k end : ℕ) → ℕ → List ℕ → ℕ
chosen k end z t = if ltb k end then k else last_of z t

-- the entries outside the order are untouched
pub record Elsewhere (entries entries' : List BtbEntry) (o : List ℕ) : Type 0 where
  pub prevs : (x : ℕ) → mem x o ≡ false → (entry entries' x).prev ≡ (entry entries x).prev
  pub nexts : (x : ℕ) → mem x o ≡ false → (entry entries' x).next ≡ (entry entries x).next

-- the set after its entry p was used: p is at the front of the order, every entry tracks the branch
-- that it did, and no pointer of another set has changed
pub record Used (entries : List BtbEntry) (index assoc : ℕ) (o : List ℕ) (p : ℕ)
    (entries' : List BtbEntry) : Type 0 where
  pub order : SetOrder entries' index assoc (p ∷ without p o)
  pub branches : SameBranches entries entries'
  pub elsewhere : Elsewhere entries entries' o

module _ (entries : List BtbEntry) (baddr index assoc k h z : ℕ) (t : List ℕ)
    (s : SetOrder entries index assoc (h ∷ z ∷ t)) (hit : Hit entries baddr index assoc k) where
  set-Reads : (x : ℕ) → index ≤ x → x < index + assoc → Reads entries baddr k h (last_of z t) x
  set-Reads x lo hi =
      let there = s.covers x lo hi in
      record {
        inside = s.chained.inside x there;
        matches = hit.matches x lo hi;
        head = ap is_null (s.chained.prevs x there) ∙ first-null h (z ∷ t) x there;
        tail = ap is_null (s.chained.nexts x there) ∙ after-null h (z ∷ t) x s.distinct there;
        chained =
            ap (λ q. same_pointer q (entry entries x).next) (s.chained.prevs x there)
            ∙ ap (same_pointer (before none (h ∷ z ∷ t) x)) (s.chained.nexts x there)
            ∙ order-different h z t x s.distinct there;
      }

  found_in_set :
      scan_set entries baddr index assoc (record { pbtb = none; lruhead = none; lruitem = none })
      ≡ ok (record {
        pbtb = if ltb k (index + assoc) then some k else none;
        lruhead = some h;
        lruitem = some (last_of z t);
      })
  found_in_set =
      let l = last_of z t in
      let (h_lo, h_hi) = s.within h (ground arith) in
      let (l_lo, l_hi) = s.within l (ground (arith, mem-last z t)) in
      let start : record { pbtb = none; lruhead = none; lruitem = none } ≡ passed_by k h l index =
        rw (upto-before k index hit.from, upto-before h index h_lo, upto-before l index l_lo)
          refl in
      ap (scan_set entries baddr index assoc) start
      ∙ scan_set-passed_by entries baddr k h l index assoc set-Reads
      ∙ rw (upto-after h (index + assoc) h_hi, upto-after l (index + assoc) l_hi) refl

  pub chosen_in_set : mem (chosen k (index + assoc) z t) (h ∷ z ∷ t) ≡ true
  chosen_in_set = elim (Bool-cases (ltb k (index + assoc))) [
    | inl e ↦
        let pick : chosen k (index + assoc) z t ≡ k = rw e refl in
        subst (λ n. mem n (h ∷ z ∷ t) ≡ true) (sym pick) (s.covers k hit.from (ground arith))
    | inr e ↦
        let pick : chosen k (index + assoc) z t ≡ last_of z t = rw e refl in
        subst (λ n. mem n (h ∷ z ∷ t) ≡ true) (sym pick) (ground (arith, mem-last z t))
  ]

  Used-head : Used entries index assoc (h ∷ z ∷ t) h entries
  Used-head = record {
    order = subst (SetOrder entries index assoc) (sym (front-first h (z ∷ t))) s;
    branches = record { addrs = λ x. refl; targets = λ x. refl };
    elsewhere = record { prevs = λ x out. refl; nexts = λ x out. refl };
  }

  Used-other :
      (p : ℕ)
      → mem p (h ∷ z ∷ t) ≡ true
      → (h == p) ≡ false
      → (entries' : List BtbEntry) × (make_head entries p h ≡ ok entries')
        × Used entries index assoc (h ∷ z ∷ t) p entries'
  Used-other p there other =
      let c = s.chained in
      let o = h ∷ z ∷ t in
      let p_prev : (entry entries p).prev ≡ before (some h) (z ∷ t) p =
        c.prevs p there ∙ rw other refl in
      let (r, run, m) =
        make_head-Moved entries p h (c.inside p there) (c.inside h (ground arith)) other
          (λ i g. c.inside i (mem_of_before h (z ∷ t) p i (sym p_prev ∙ g)))
          (λ i g. c.inside i (mem_of_after o p i (sym (c.nexts p there) ∙ g))) in
      (
        r,
        run,
        record {
          order = record {
            chained = Moved-Chained entries r h p (z ∷ t) c s.distinct there other m;
            distinct = Distinct-front o p s.distinct;
            covers = λ x lo hi. mem-front o p x (s.covers x lo hi);
            within = λ x g. s.within x (member_front o p x there g);
          };
          branches = m.same;
          elsewhere = record {
            prevs = λ x out.
                front-prev_elsewhere _ _ _ (λ y. (entry r y).next) h p (z ∷ t)
                  (links entries r h p (z ∷ t) c s.distinct there other m) s.distinct there other
                  (to_front entries r h p (z ∷ t) c s.distinct there other m) x out;
            nexts = λ x out.
                front-next_elsewhere _ _ (λ y. (entry r y).prev) _ h p (z ∷ t)
                  (links entries r h p (z ∷ t) c s.distinct there other m) s.distinct there other
                  (to_front entries r h p (z ∷ t) c s.distinct there other m) x out;
          };
        },
      )

  use_entry-Used :
      (let p = chosen k (index + assoc) z t in
        (entries' : List BtbEntry) × (use_entry entries baddr index assoc ≡ ok (p, entries'))
        × Used entries index assoc (h ∷ z ∷ t) p entries')
  unfolding use_entry or_victim
  use_entry-Used =
      let p = chosen k (index + assoc) z t in
      let pick : or_victim (if ltb k (index + assoc) then some k else none) (last_of z t) ≡ p =
        elim (Bool-cases (ltb k (index + assoc))) [ inl e ↦ rw e refl | inr e ↦ rw e refl ] in
      elim (Bool-cases (h == p)) [
        | inl e ↦
            let same : h ≡ p = ground arith in
            let turned : (p == h) ≡ true = ground arith in
            (
              entries,
              rw found_in_set (rw pick (rw turned refl)),
              subst (λ n. Used entries index assoc (h ∷ z ∷ t) n entries) same Used-head,
            )
        | inr e ↦
            let turned : (p == h) ≡ false = ground arith in
            let (r, run, used) = Used-other p chosen_in_set e in
            (r, rw found_in_set (rw pick (rw turned (rw run refl))), used)
      ]

-- A taken branch in a set of more than one entry, chained in an order that has all its entries, where
-- at most one entry of the set has the branch's address (entry k, or none if k is behind the set):
-- update_pbtb does not abort. It returns this entry, or if there is none the one used least recently.
-- Afterwards the set is chained in the order with this entry at the front and the others as before;
-- every entry tracks the branch and the target that it did, and no pointer of another set has changed.
pub update_pbtb-Used :
    (b : Btb) (baddr k h z : ℕ) (t : List ℕ)
    → 1 < b.assoc
    → SetOrder b.entries (set_index b baddr * b.assoc) b.assoc (h ∷ z ∷ t)
    → Hit b.entries baddr (set_index b baddr * b.assoc) b.assoc k
    → (let p = chosen k (set_index b baddr * b.assoc + b.assoc) z t in
        (entries' : List BtbEntry) × (update_pbtb b true baddr
          ≡ ok (some p, record b { entries = entries' }))
        × Used b.entries (set_index b baddr * b.assoc) b.assoc (h ∷ z ∷ t) p entries')
unfolding update_pbtb
update_pbtb-Used b baddr k h z t several s hit =
    let many : ltb 1 b.assoc ≡ true = ground arith in
    let (r, run, used) =
      use_entry-Used b.entries baddr (set_index b baddr * b.assoc) b.assoc k h z t s hit in
    (r, rw many (rw run refl), used)
