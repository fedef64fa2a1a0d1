-- ===== src/Memory/Flat.antt =====
-- The page table as a flat memory, wherever the entries stand in their buckets.
use smt_register_capping.Base.{
  ℕ, true, false, ◌==◌, if◌then◌else◌, List, [], ◌∷◌, Option, none, some, Outcome, ok, ◌≡◌, refl,
  sym, ap, ◌∙◌, inl, inr, Option-cases, Bool-cases, arith,
}
use smt_register_capping.Memory.{
  Pte, Mem, ptab_set, ptab_tag, mem_offset, update, take_out, mem_translate, front_hit, mem_page,
  mem_newpage, mem_tickle, read_byte, write_byte, store,
}

-- the page of the first entry with a tag
abbrev pub page_of : ℕ → List Pte → Option (ℕ → ℕ)
page_of tag [] = none
page_of tag (p ∷ ps) = if p.tag == tag then some p.page else page_of tag ps

abbrev pub page_at : Mem → ℕ → Option (ℕ → ℕ)
page_at m addr = page_of (ptab_tag addr) (m.ptab (ptab_set addr))

-- the byte at an address, zero where no page is allocated
abbrev pub byte_at : Mem → ℕ → ℕ
byte_at m addr = elim (page_at m addr) [ none ↦ 0 | some page ↦ page (mem_offset addr) ]

-- the same memory, with buckets in another order
pub record Same (m m' : Mem) : Type 0 where
  pub pages : (addr : ℕ) → page_at m' addr ≡ page_at m addr
  pub mapped : m'.memory_map ≡ m.memory_map
  pub internal : m'.internal_map ≡ m.internal_map

-- the search finds the first entry with the tag, and moves no other page
take_out-page_of :
    (t u : ℕ) (ps : List Pte) (p : Pte) (rest : List Pte)
    → take_out t ps ≡ some (p, rest)
    → (page_of t ps ≡ some p.page) × (p.tag ≡ t) × (page_of u (p ∷ rest) ≡ page_of u ps)
unfolding take_out
take_out-page_of t u [] p rest h = cc
take_out-page_of t u (q ∷ ps) p rest h = elim (Option-cases (take_out t ps)) [
  | inl e ↦ ground arith
  | inr ((p', rest'), e) ↦ ground (arith, take_out-page_of t u ps p' rest')
]

take_out-none : (t : ℕ) (ps : List Pte) → take_out t ps ≡ none → page_of t ps ≡ none
unfolding take_out
take_out-none t [] h = refl
take_out-none t (q ∷ ps) h = ground (arith, take_out-none t ps)

page_of-store :
    (t o v u : ℕ) (ps : List Pte)
    → page_of u (store t o v ps) ≡ (
        if t == u
        then elim (page_of t ps) [ none ↦ none | some page ↦ some (update page o v) ]
        else page_of u ps)
unfolding store
page_of-store t o v u [] = ground arith
page_of-store t o v u (q ∷ ps) = ground (arith, page_of-store t o v u ps)

front_hit-page_of :
    (t : ℕ) (ps : List Pte) (p : Pte) → front_hit t ps ≡ some p → page_of t ps ≡ some p.page
unfolding front_hit
front_hit-page_of t [] p h = cc
front_hit-page_of t (q ∷ ps) p h = ground arith

-- the page of an address after an assignment to a bucket
page_at-update :
    (m : Mem) (set addr : ℕ) (ps : List Pte)
    → page_of (ptab_tag addr) (update m.ptab set ps (ptab_set addr))
      ≡ (if ptab_set addr == set then page_of (ptab_tag addr) ps else page_at m addr)
page_at-update m set addr ps = elim (Bool-cases (ptab_set addr == set)) [
  | inl e ↦ rw e refl
  | inr e ↦ rw e refl
]

reordered-Same :
    (m : Mem) (set : ℕ) (ps : List Pte)
    → ((u : ℕ) → page_of u ps ≡ page_of u (m.ptab set))
    → Same m (record m { ptab = update m.ptab set ps })
reordered-Same m set ps same = record {
  pages = λ addr. page_at-update m set addr ps ∙ elim (Bool-cases (ptab_set addr == set)) [
    | inl e ↦
        let here : ptab_set addr ≡ set = ground arith in
        rw e (same (ptab_tag addr) ∙ ap (λ i. page_of (ptab_tag addr) (m.ptab i)) (sym here))
    | inr e ↦ rw e refl
  ];
  mapped = refl;
  internal = refl;
}

pub refl-Same : (m : Mem) → Same m m
refl-Same m = record { pages = λ _. refl; mapped = refl; internal = refl }

pub trans-Same : (m m' m'' : Mem) → Same m m' → Same m' m'' → Same m m''
trans-Same m m' m'' s t = record {
  pages = λ addr. t.pages addr ∙ s.pages addr;
  mapped = t.mapped ∙ s.mapped;
  internal = t.internal ∙ s.internal;
}

mem_translate-Same :
    (m : Mem) (addr : ℕ)
    → ((mem_translate m addr).0 ≡ page_at m addr) × Same m (mem_translate m addr).1
unfolding mem_translate
mem_translate-Same m addr =
    elim (Option-cases (take_out (ptab_tag addr) (m.ptab (ptab_set addr)))) [
      | inl e ↦
          rw (e, mem_translate)
            (sym (take_out-none (ptab_tag addr) (m.ptab (ptab_set addr)) e), refl-Same m)
      | inr ((p, rest), e) ↦
          rw (e, mem_translate)
            (
              sym (take_out-page_of (ptab_tag addr) 0 (m.ptab (ptab_set addr)) p rest e).0,
              reordered-Same m (ptab_set addr) (p ∷ rest)
                  (λ u. (take_out-page_of (ptab_tag addr) u (m.ptab (ptab_set addr)) p rest e).2),
            )
    ]

-- MEM_PAGE gives the page of the address, and reorders at most
pub mem_page-Same :
    (m : Mem) (addr : ℕ) → ((mem_page m addr).0 ≡ page_at m addr) × Same m (mem_page m addr).1
unfolding mem_page
mem_page-Same m addr = elim (Option-cases (front_hit (ptab_tag addr) (m.ptab (ptab_set addr)))) [
  | inl e ↦ rw (e, mem_page) (mem_translate-Same m addr)
  | inr (p, e) ↦
      rw (e, mem_page)
        (sym (front_hit-page_of (ptab_tag addr) (m.ptab (ptab_set addr)) p e), refl-Same m)
]

-- A read never fails, gives the byte of the flat memory, which is 0 where there is no page, and changes
-- no page and no mapping.
pub read_byte-byte_at :
    (m : Mem) (addr : ℕ) → (m' : Mem) × (read_byte m addr ≡ ok (byte_at m addr, m')) × Same m m'
unfolding read_byte
read_byte-byte_at m addr =
    let first = mem_page-Same m addr in
    let second = mem_page-Same (mem_page m addr).1 addr in
    elim (Option-cases (page_at m addr)) [
      | inl e ↦ ((mem_page m addr).1, rw (first.0, e, read_byte) (rw (e, byte_at) refl), first.1)
      | inr (page, e) ↦ (
        (mem_page (mem_page m addr).1 addr).1,
        rw (first.0, e, read_byte) (rw (second.0, first.1.pages addr, e) (rw (e, byte_at) refl)),
        trans-Same _ _ _ first.1 second.1,
      )
    ]

-- two addresses with one set, tag and offset are the same
address-eq :
    (a b : ℕ)
    → ptab_set a ≡ ptab_set b
    → ptab_tag a ≡ ptab_tag b
    → mem_offset a ≡ mem_offset b
    → a ≡ b
address-eq a b s t o = omega arith

-- the byte in a page that may be missing
abbrev byte_in : Option (ℕ → ℕ) → ℕ → ℕ
byte_in found offset = elim found [ none ↦ 0 | some page ↦ page offset ]

-- a new page changes no byte
newpage-byte_at :
    (m : Mem) (addr b : ℕ) → page_at m addr ≡ none → byte_at (mem_newpage m addr) b ≡ byte_at m b
unfolding mem_newpage
newpage-byte_at m addr b e =
    ap (λ o. byte_in o (mem_offset b)) (page_at-update m (ptab_set addr) b _)
    ∙ elim (Bool-cases (ptab_set b == ptab_set addr)) [
      | inr other ↦ rw other refl
      | inl here ↦ rw here (elim (Bool-cases (ptab_tag addr == ptab_tag b)) [
        | inl t ↦
            let same_set : ptab_set b ≡ ptab_set addr = ground arith in
            let same_tag : ptab_tag b ≡ ptab_tag addr = ground arith in
            rw t (
              sym (
                ap (λ o. byte_in o (mem_offset b))
                  (ap (λ i. page_of (ptab_tag b) (m.ptab i)) same_set
                    ∙ ap (λ u. page_of u (m.ptab (ptab_set addr))) same_tag
                    ∙ e)))
        | inr t ↦
            let same_set : ptab_set addr ≡ ptab_set b = ground arith in
            rw t (ap (λ i. byte_in (page_of (ptab_tag b) (m.ptab i)) (mem_offset b)) same_set)
      ])
    ]

newpage-mapped : (m : Mem) (addr : ℕ) → (mem_newpage m addr).memory_map ≡ m.memory_map
unfolding mem_newpage
newpage-mapped m addr = refl

newpage-internal : (m : Mem) (addr : ℕ) → (mem_newpage m addr).internal_map ≡ m.internal_map
unfolding mem_newpage
newpage-internal m addr = refl

self : (n : ℕ) → (n == n) ≡ true
self n = ground arith

newpage-page_at : (m : Mem) (addr : ℕ) → page_at (mem_newpage m addr) addr ≡ some (λ _. 0)
unfolding mem_newpage
newpage-page_at m addr = rw (self (ptab_set addr)) (rw (self (ptab_tag addr)) refl)

-- the page table after an assignment to a byte of an allocated page
stored : Mem → ℕ → ℕ → Mem
stored m addr v = record m {
  ptab =
      update m.ptab (ptab_set addr)
        (store (ptab_tag addr) (mem_offset addr) v (m.ptab (ptab_set addr)));
}

-- the bytes of one page after it
stored-refl :
    (m : Mem) (addr v : ℕ)
    → ◌≡◌ {A = Outcome Mem}
        (ok (record m {
          ptab =
              update m.ptab
                (ptab_set addr)
                (store (ptab_tag addr) (mem_offset addr) v (m.ptab (ptab_set addr)));
        }))
        (ok (stored m addr v))
unfolding stored
stored-refl m addr v = refl

stored-mapped : (m : Mem) (addr v : ℕ) → (stored m addr v).memory_map ≡ m.memory_map
unfolding stored
stored-mapped m addr v = refl

stored-internal : (m : Mem) (addr v : ℕ) → (stored m addr v).internal_map ≡ m.internal_map
unfolding stored
stored-internal m addr v = refl

stored_page :
    (m : Mem) (addr v b : ℕ) (page : ℕ → ℕ)
    → page_at m addr ≡ some page
    → ptab_set b ≡ ptab_set addr
    → byte_in
        (page_of (ptab_tag b) (store (ptab_tag addr) (mem_offset addr) v (m.ptab (ptab_set addr))))
        (mem_offset b)
      ≡ (if b == addr then v else byte_at m b)
stored_page m addr v b page e here =
    ap (λ o. byte_in o (mem_offset b))
      (page_of-store (ptab_tag addr) (mem_offset addr) v (ptab_tag b) (m.ptab (ptab_set addr)))
    ∙ elim (Bool-cases (ptab_tag addr == ptab_tag b)) [
      | inr t ↦
          let ne : (b == addr) ≡ false = ground arith in
          rw (t, ne) (ap (λ i. byte_in (page_of (ptab_tag b) (m.ptab i)) (mem_offset b)) (sym here))
      | inl t ↦
          let same_tag : ptab_tag b ≡ ptab_tag addr = ground arith in
          let found : page_at m b ≡ some page =
            ap (λ i. page_of (ptab_tag b) (m.ptab i)) here
            ∙ ap (λ u. page_of u (m.ptab (ptab_set addr))) same_tag
            ∙ e in
          rw t (
            rw e (elim (Bool-cases (mem_offset b == mem_offset addr)) [
              | inl o ↦
                  let same : (b == addr) ≡ true = ground (arith, address-eq b addr) in
                  rw (o, same) refl
              | inr o ↦
                  let ne : (b == addr) ≡ false = ground arith in
                  rw (o, ne) (sym (ap (λ o. byte_in o (mem_offset b)) found))
            ]))
    ]

stored-byte_at :
    (m : Mem) (addr v b : ℕ) (page : ℕ → ℕ)
    → page_at m addr ≡ some page
    → byte_at (stored m addr v) b ≡ (if b == addr then v else byte_at m b)
unfolding stored
stored-byte_at m addr v b page e =
    ap (λ o. byte_in o (mem_offset b)) (page_at-update m (ptab_set addr) b _)
    ∙ elim (Bool-cases (ptab_set b == ptab_set addr)) [
      | inr other ↦ let ne : (b == addr) ≡ false = ground arith in rw (other, ne) refl
      | inl here ↦ rw here (stored_page m addr v b page e (ground arith))
    ]

-- The bytes after a write: the new one at the address, and the old ones.
pub record Written (m : Mem) (addr v : ℕ) (m' : Mem) : Type 0 where
  pub bytes : (b : ℕ) → byte_at m' b ≡ (if b == addr then v else byte_at m b)
  pub mapped : m'.memory_map ≡ m.memory_map
  pub internal : m'.internal_map ≡ m.internal_map

-- MEM_TICKLE allocates the page, and changes no byte
record Tickled (m : Mem) (addr : ℕ) (m' : Mem) : Type 0 where
  pub page : ℕ → ℕ
  pub allocated : page_at m' addr ≡ some page
  pub bytes : (b : ℕ) → byte_at m' b ≡ byte_at m b
  pub mapped : m'.memory_map ≡ m.memory_map
  pub internal : m'.internal_map ≡ m.internal_map

pub Same-byte_at : (m m' : Mem) → Same m m' → (b : ℕ) → byte_at m' b ≡ byte_at m b
Same-byte_at m m' s b = ap (λ o. byte_in o (mem_offset b)) (s.pages b)

mem_tickle-Tickled : (m : Mem) (addr : ℕ) → Tickled m addr (mem_tickle m addr)
unfolding mem_tickle
mem_tickle-Tickled m addr =
    let (found, s) = mem_page-Same m addr in
    let m1 = (mem_page m addr).1 in
    elim (Option-cases (page_at m addr)) [
      | inl e ↦
          rw (found, e, mem_tickle)
            (record {
              page = λ _. 0;
              allocated = newpage-page_at m1 addr;
              bytes = λ b. newpage-byte_at m1 addr b (s.pages addr ∙ e) ∙ Same-byte_at m m1 s b;
              mapped = newpage-mapped m1 addr ∙ s.mapped;
              internal = newpage-internal m1 addr ∙ s.internal;
            })
      | inr (page, e) ↦
          rw (found, e, mem_tickle)
            (record {
              page = page;
              allocated = s.pages addr ∙ e;
              bytes = λ b. Same-byte_at m m1 s b;
              mapped = s.mapped;
              internal = s.internal;
            })
    ]

-- A write never fails: afterwards the address holds the byte, every other address what it held, and
-- the mappings are the same.
pub write_byte-Written :
    (m : Mem) (addr v : ℕ) → (m' : Mem) × (write_byte m addr v ≡ ok m') × Written m addr v m'
unfolding write_byte
write_byte-Written m addr v =
    let t = mem_tickle-Tickled m addr in
    let (found, s) = mem_page-Same (mem_tickle m addr) addr in
    let m1 = (mem_page (mem_tickle m addr) addr).1 in
    (
      stored m1 addr v,
      rw (found, t.allocated, write_byte) (stored-refl m1 addr v),
      record {
        bytes = λ b.
            stored-byte_at m1 addr v b t.page (s.pages addr ∙ t.allocated)
            ∙ ap (λ old. if b == addr then v else old)
                (Same-byte_at (mem_tickle m addr) m1 s b ∙ t.bytes b);
        mapped = stored-mapped m1 addr v ∙ s.mapped ∙ t.mapped;
        internal = stored-internal m1 addr v ∙ s.internal ∙ t.internal;
      },
    )
