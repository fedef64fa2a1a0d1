-- ===== src/Btb/Recent.antt =====
-- Moving an entry to the head of the chain of its set.
use smt_register_capping.Base.{
  ℕ, ◌<◌, ◌≡◌, refl, ap, ◌∙◌, inl, inr, subst, true, false, ◌==◌, if◌then◌else◌, List, ◌∷◌, Option,
  none, some, ok, read_of_lt, length, set, get_or, length-set, get_or-set_self, get_or-set_ne,
  Bool-cases, arith,
}
use smt_register_capping.Btb.{BtbEntry, fresh_entry, set_next, set_prev, make_head}
use smt_register_capping.Chain.{same_pointer}
use smt_register_capping.Chain.Front.{Links, ToFront, front-prevs, front-nexts}
use smt_register_capping.Chain.Order.{mem, Distinct, before, after, without, mem-without}

abbrev pub entry : List BtbEntry → ℕ → BtbEntry
entry entries x = get_or entries x fresh_entry

-- the entries after an assignment to next, or to prev, through a pointer
record Next (entries : List BtbEntry) (pointer value : Option ℕ) (r : List BtbEntry) : Type 0 where
  pub size : length r ≡ length entries
  pub nexts :
      (x : ℕ)
      → (entry r x).next ≡ (if same_pointer pointer (some x) then value else (entry entries x).next)
  pub prevs : (x : ℕ) → (entry r x).prev ≡ (entry entries x).prev
  pub addrs : (x : ℕ) → (entry r x).addr ≡ (entry entries x).addr
  pub targets : (x : ℕ) → (entry r x).target ≡ (entry entries x).target

record Prev (entries : List BtbEntry) (pointer value : Option ℕ) (r : List BtbEntry) : Type 0 where
  pub size : length r ≡ length entries
  pub prevs :
      (x : ℕ)
      → (entry r x).prev ≡ (if same_pointer pointer (some x) then value else (entry entries x).prev)
  pub nexts : (x : ℕ) → (entry r x).next ≡ (entry entries x).next
  pub addrs : (x : ℕ) → (entry r x).addr ≡ (entry entries x).addr
  pub targets : (x : ℕ) → (entry r x).target ≡ (entry entries x).target

-- an entry after a write to one
entry-set :
    (entries : List BtbEntry) (i x : ℕ) (e : BtbEntry)
    → i < length entries
    → entry (set entries i e) x ≡ (if i == x then e else entry entries x)
entry-set entries i x e lt = elim (Bool-cases (i == x)) [
  | inl g ↦
      let same : i ≡ x = ground arith in
      rw g (
        subst (λ n. entry (set entries i e) n ≡ e) same
          (get_or-set_self entries i e fresh_entry lt))
  | inr g ↦ rw g (get_or-set_ne entries i x e fresh_entry (ground arith))
]

some-injective : {i j : ℕ} → some i ≡ some j → i ≡ j
some-injective h = cc

module _ {ℓ} {A : Type ℓ} (field_of : BtbEntry → A) (entries : List BtbEntry) (i x : ℕ)
    (e : BtbEntry) (lt : i < length entries) where
  pub field-changed :
      field_of (entry (set entries i e) x)
      ≡ (if i == x then field_of e else field_of (entry entries x))
  field-changed =
      ap field_of (entry-set entries i x e lt)
      ∙ elim (Bool-cases (i == x)) [ inl g ↦ rw g refl | inr g ↦ rw g refl ]

  pub field-kept :
      field_of e ≡ field_of (entry entries i)
      → field_of (entry (set entries i e) x) ≡ field_of (entry entries x)
  field-kept same = field-changed ∙ elim (Bool-cases (i == x)) [
    | inl g ↦
        rw g (same ∙ ap (λ n. field_of (entry entries n)) (let here : i ≡ x = ground arith in here))
    | inr g ↦ rw g refl
  ]

set_next-Next :
    (entries : List BtbEntry) (pointer value : Option ℕ)
    → ((i : ℕ) → pointer ≡ some i → i < length entries)
    → (r : List BtbEntry) × (set_next entries pointer value ≡ ok r) × Next entries pointer value r
unfolding set_next
set_next-Next entries none value inside = (
  entries,
  refl,
  record {
    size = refl;
    nexts = λ x. refl;
    prevs = λ x. refl;
    addrs = λ x. refl;
    targets = λ x. refl;
  },
)
set_next-Next entries (some i) value inside =
    let lt = inside i refl in
    let e = record (entry entries i) { next = value } in
    (
      set entries i e,
      rw (read_of_lt entries i fresh_entry lt) refl,
      record {
        size = length-set entries i e;
        nexts = λ x. field-changed (λ n. n.next) entries i x e lt;
        prevs = λ x. field-kept (λ n. n.prev) entries i x e lt refl;
        addrs = λ x. field-kept (λ n. n.addr) entries i x e lt refl;
        targets = λ x. field-kept (λ n. n.target) entries i x e lt refl;
      },
    )

set_prev-Prev :
    (entries : List BtbEntry) (pointer value : Option ℕ)
    → ((i : ℕ) → pointer ≡ some i → i < length entries)
    → (r : List BtbEntry) × (set_prev entries pointer value ≡ ok r) × Prev entries pointer value r
unfolding set_prev
set_prev-Prev entries none value inside = (
  entries,
  refl,
  record {
    size = refl;
    nexts = λ x. refl;
    prevs = λ x. refl;
    addrs = λ x. refl;
    targets = λ x. refl;
  },
)
set_prev-Prev entries (some i) value inside =
    let lt = inside i refl in
    let e = record (entry entries i) { prev = value } in
    (
      set entries i e,
      rw (read_of_lt entries i fresh_entry lt) refl,
      record {
        size = length-set entries i e;
        prevs = λ x. field-changed (λ n. n.prev) entries i x e lt;
        nexts = λ x. field-kept (λ n. n.next) entries i x e lt refl;
        addrs = λ x. field-kept (λ n. n.addr) entries i x e lt refl;
        targets = λ x. field-kept (λ n. n.target) entries i x e lt refl;
      },
    )

-- the entries of an order are chained in it
pub record Chained (entries : List BtbEntry) (o : List ℕ) : Type 0 where
  pub inside : (x : ℕ) → mem x o ≡ true → x < length entries
  pub prevs : (x : ℕ) → mem x o ≡ true → (entry entries x).prev ≡ before none o x
  pub nexts : (x : ℕ) → mem x o ≡ true → (entry entries x).next ≡ after o x

-- the same branches
pub record SameBranches (entries entries' : List BtbEntry) : Type 0 where
  pub addrs : (x : ℕ) → (entry entries' x).addr ≡ (entry entries x).addr
  pub targets : (x : ℕ) → (entry entries' x).target ≡ (entry entries x).target

-- the entries after the move of p in front of h, in terms of those before it
pub record Moved (entries : List BtbEntry) (p h : ℕ) (r : List BtbEntry) : Type 0 where
  pub size : length r ≡ length entries
  pub prevs :
      (x : ℕ)
      → (entry r x).prev ≡ (
          if h == x
          then some p
          else if p == x
          then none
          else if same_pointer (entry entries p).next (some x)
          then (entry entries p).prev
          else (entry entries x).prev)
  pub nexts :
      (x : ℕ)
      → (entry r x).next ≡ (
          if p == x
          then some h
          else if same_pointer (entry entries p).prev (some x)
          then (entry entries p).next
          else (entry entries x).next)
  pub same : SameBranches entries r

module _ (entries r1 r2 r3 r4 r5 : List BtbEntry) (p h : ℕ)
    (s1 : Next entries (entry entries p).prev (entry entries p).next r1)
    (s2 : Prev r1 (entry entries p).next (entry entries p).prev r2)
    (s3 : Next r2 (some p) (some h) r3) (s4 : Prev r3 (some p) none r4)
    (s5 : Prev r4 (some h) (some p) r5) where
  steps-Moved : Moved entries p h r5
  steps-Moved = record {
    size = s5.size ∙ s4.size ∙ s3.size ∙ s2.size ∙ s1.size;
    prevs = λ x. s5.prevs x ∙ rw (s4.prevs x, s3.prevs x, s2.prevs x, s1.prevs x) refl;
    nexts = λ x. s5.nexts x ∙ s4.nexts x ∙ s3.nexts x ∙ rw (s2.nexts x, s1.nexts x) refl;
    same = record {
      addrs = λ x. s5.addrs x ∙ s4.addrs x ∙ s3.addrs x ∙ s2.addrs x ∙ s1.addrs x;
      targets = λ x. s5.targets x ∙ s4.targets x ∙ s3.targets x ∙ s2.targets x ∙ s1.targets x;
    };
  }

  make_head-steps :
      p < length entries
      → (h == p) ≡ false
      → set_next entries (entry entries p).prev (entry entries p).next ≡ ok r1
      → set_prev r1 (entry entries p).next (entry entries p).prev ≡ ok r2
      → set_next r2 (some p) (some h) ≡ ok r3
      → set_prev r3 (some p) none ≡ ok r4
      → set_prev r4 (some h) (some p) ≡ ok r5
      → make_head entries p h ≡ ok r5
  unfolding make_head
  make_head-steps lt ne run1 run2 run3 run4 run5 =
      let m = steps-Moved in
      let self : (p == p) ≡ true = ground arith in
      let prev_null : (entry r5 p).prev ≡ none = m.prevs p ∙ rw ne (rw self refl) in
      let next_head : (entry r5 p).next ≡ some h = m.nexts p ∙ rw self refl in
      rw (read_of_lt entries p fresh_entry lt) (
        rw run1 (
          rw run2 (
            rw run3 (
              rw run4 (
                rw run5 (
                  rw (read_of_lt r5 p fresh_entry (omega (arith, lt, m.size)))
                    (rw (prev_null, next_head) refl)))))))

-- the move runs, if the pointers of p are to entries
pub make_head-Moved :
    (entries : List BtbEntry) (p h : ℕ)
    → p < length entries
    → h < length entries
    → (h == p) ≡ false
    → ((i : ℕ) → (entry entries p).prev ≡ some i → i < length entries)
    → ((i : ℕ) → (entry entries p).next ≡ some i → i < length entries)
    → (r : List BtbEntry) × (make_head entries p h ≡ ok r) × Moved entries p h r
make_head-Moved entries p h p_in h_in ne prev_in next_in =
    let (r1, run1, s1) =
      set_next-Next entries (entry entries p).prev (entry entries p).next prev_in in
    let (r2, run2, s2) =
      set_prev-Prev r1 (entry entries p).next (entry entries p).prev
        (λ i g. omega (arith, next_in i g, s1.size)) in
    let (r3, run3, s3) =
      set_next-Next r2 (some p) (some h)
        (λ i g. omega (arith, p_in, some-injective g, s2.size, s1.size)) in
    let (r4, run4, s4) =
      set_prev-Prev r3 (some p) none
        (λ i g. omega (arith, p_in, some-injective g, s3.size, s2.size, s1.size)) in
    let (r5, run5, s5) =
      set_prev-Prev r4 (some h) (some p)
        (λ i g. omega (arith, h_in, some-injective g, s4.size, s3.size, s2.size, s1.size)) in
    (
      r5,
      make_head-steps entries r1 r2 r3 r4 r5 p h s1 s2 s3 s4 s5 p_in ne run1 run2 run3 run4 run5,
      steps-Moved entries r1 r2 r3 r4 r5 p h s1 s2 s3 s4 s5,
    )

module _ (entries r : List BtbEntry) (h p : ℕ) (t : List ℕ) (c : Chained entries (h ∷ t))
    (d : Distinct (h ∷ t)) (there : mem p (h ∷ t) ≡ true) (other : (h == p) ≡ false)
    (m : Moved entries p h r) where
  member : (x : ℕ) → mem x (p ∷ without p (h ∷ t)) ≡ true → mem x (h ∷ t) ≡ true
  member x g = elim (Bool-cases (p == x)) [
    | inl e ↦ subst (λ n. mem n (h ∷ t) ≡ true) (let same : p ≡ x = ground arith in same) there
    | inr e ↦ mem-without (h ∷ t) p x (rw e at g)
  ]

  pub links : Links (λ x. (entry entries x).prev) (λ x. (entry entries x).next) (h ∷ t)
  links = record { prevs = c.prevs; nexts = c.nexts }

  pub to_front :
      ToFront
        (λ x. (entry entries x).prev)
        (λ x. (entry entries x).next)
        (λ x. (entry r x).prev)
        (λ x. (entry r x).next)
        p
        h
  to_front = record { prevs = m.prevs; nexts = m.nexts }

  pub Moved-Chained : Chained r (p ∷ without p (h ∷ t))
  Moved-Chained = record {
    inside = λ x g. omega (arith, c.inside x (member x g), m.size);
    prevs = λ x g.
        front-prevs _ _ (λ y. (entry r y).prev) (λ y. (entry r y).next) h p t links d there other
          to_front x (member x g);
    nexts = λ x g.
        front-nexts _ _ (λ y. (entry r y).prev) (λ y. (entry r y).next) h p t links d there other
          to_front x (member x g);
  }
