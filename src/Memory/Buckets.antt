-- ===== src/Memory/Buckets.antt =====
-- Buckets of the page table with one entry at most for a tag, and the copy of a memory, which reverses
-- the buckets.
use smt_register_capping.Base.{
  ℕ, Bool, true, ◌&&◌, not, ◌==◌, List, [], ◌∷◌, Option, none, some, ok, ◌≡◌, refl, sym, ap, ◌∙◌,
  inl, inr, subst, Option-cases, Bool-cases, ok-injective, arith,
}
use smt_register_capping.Memory.{
  Pte, Mem, ptab_set, ptab_tag, mem_offset, update, take_out, mem_translate, front_hit, mem_page,
  mem_newpage, mem_tickle, read_byte, write_byte, store, new, copy, copy_bucket,
}
use smt_register_capping.Memory.Flat.{page_of, page_at, Same, mem_page-Same}

-- no entry has the tag
abbrev pub absent : ℕ → List Pte → Bool
absent t [] = true
absent t (p ∷ ps) = not (p.tag == t) && absent t ps

abbrev Distinct : List Pte → Type 0
Distinct [] = Unit {0}
Distinct (p ∷ ps) = (absent p.tag ps ≡ true) × Distinct ps

absent-page_of : (t : ℕ) (ps : List Pte) → page_of t ps ≡ none → absent t ps ≡ true
absent-page_of t [] h = refl
absent-page_of t (p ∷ ps) h = ground (arith, absent-page_of t ps)

page_of-absent : (t : ℕ) (ps : List Pte) → absent t ps ≡ true → page_of t ps ≡ none
page_of-absent t [] h = refl
page_of-absent t (p ∷ ps) h = ground (arith, page_of-absent t ps)

-- the entry that is taken out has the tag, and no other entry is lost or made
take_out-absent :
    (t u : ℕ) (ps : List Pte) (p : Pte) (rest : List Pte)
    → take_out t ps ≡ some (p, rest)
    → absent u ps ≡ true
    → absent u (p ∷ rest) ≡ true
unfolding take_out
take_out-absent t u [] p rest h a = cc
take_out-absent t u (q ∷ ps) p rest h a = elim (Option-cases (take_out t ps)) [
  | inl e ↦ ground arith
  | inr ((p', rest'), e) ↦ ground (arith, take_out-absent t u ps p' rest')
]

take_out-Distinct :
    (t : ℕ) (ps : List Pte) (p : Pte) (rest : List Pte)
    → take_out t ps ≡ some (p, rest)
    → Distinct ps
    → Distinct (p ∷ rest)
unfolding take_out
take_out-Distinct t [] p rest h d = cc
take_out-Distinct t (q ∷ ps) p rest h (a, d) = elim (Bool-cases (q.tag == t)) [
  | inl e ↦ let same : (q ∷ ps) ≡ (p ∷ rest) = ground arith in subst Distinct same (a, d)
  | inr e ↦ elim (Option-cases (take_out t ps)) [
    | inl none' ↦ absurd (ground arith)
    | inr ((p', rest'), found) ↦
        let (b, r) = take_out-Distinct t ps p' rest' found d in
        let front : (p' ∷ (q ∷ rest')) ≡ (p ∷ rest) = ground arith in
        let moved = take_out-absent t q.tag ps p' rest' found a in
        subst Distinct front (ground arith, (ground arith, r))
  ]
]

store-absent : (t o v u : ℕ) (ps : List Pte) → absent u ps ≡ true → absent u (store t o v ps) ≡ true
unfolding store
store-absent t o v u [] a = refl
store-absent t o v u (p ∷ ps) a = ground (arith, store-absent t o v u ps)

store-Distinct : (t o v : ℕ) (ps : List Pte) → Distinct ps → Distinct (store t o v ps)
unfolding store
store-Distinct t o v [] d = d
store-Distinct t o v (p ∷ ps) (a, d) = elim (Bool-cases (p.tag == t)) [
  | inl e ↦ rw (e, store) (a, d)
  | inr e ↦ rw (e, store) (store-absent t o v p.tag ps a, store-Distinct t o v ps d)
]

-- each bucket of a memory has one entry at most for a tag
abbrev pub WellFormed : Mem → Type 0
WellFormed m = (i : ℕ) → Distinct (m.ptab i)

update-WellFormed :
    (m : Mem) (set : ℕ) (ps : List Pte)
    → WellFormed m
    → Distinct ps
    → (i : ℕ) → Distinct (update m.ptab set ps i)
update-WellFormed m set ps wf d i = elim (Bool-cases (i == set)) [
  | inl e ↦ rw e d
  | inr e ↦ rw e (wf i)
]

mem_translate-WellFormed : (m : Mem) (addr : ℕ) → WellFormed m → WellFormed (mem_translate m addr).1
unfolding mem_translate
mem_translate-WellFormed m addr wf =
    elim (Option-cases (take_out (ptab_tag addr) (m.ptab (ptab_set addr)))) [
      | inl e ↦ rw (e, mem_translate) wf
      | inr ((p, rest), e) ↦
          let d =
            take_out-Distinct (ptab_tag addr) (m.ptab (ptab_set addr)) p rest e
              (wf (ptab_set addr)) in
          rw (e, mem_translate) (update-WellFormed m (ptab_set addr) (p ∷ rest) wf d)
    ]

mem_page-WellFormed : (m : Mem) (addr : ℕ) → WellFormed m → WellFormed (mem_page m addr).1
unfolding mem_page
mem_page-WellFormed m addr wf =
    elim (Option-cases (front_hit (ptab_tag addr) (m.ptab (ptab_set addr)))) [
      | inl e ↦ rw (e, mem_page) (mem_translate-WellFormed m addr wf)
      | inr (p, e) ↦ rw (e, mem_page) wf
    ]

mem_newpage-WellFormed :
    (m : Mem) (addr : ℕ) → page_at m addr ≡ none → WellFormed m → WellFormed (mem_newpage m addr)
unfolding mem_newpage
mem_newpage-WellFormed m addr e wf =
    update-WellFormed m (ptab_set addr) _ wf
      (absent-page_of (ptab_tag addr) (m.ptab (ptab_set addr)) e, wf (ptab_set addr))

mem_tickle-WellFormed : (m : Mem) (addr : ℕ) → WellFormed m → WellFormed (mem_tickle m addr)
unfolding mem_tickle
mem_tickle-WellFormed m addr wf =
    let (found, s) = mem_page-Same m addr in
    let kept = mem_page-WellFormed m addr wf in
    elim (Option-cases (page_at m addr)) [
      | inl e ↦
          rw (found, e, mem_tickle)
            (mem_newpage-WellFormed (mem_page m addr).1 addr (s.pages addr ∙ e) kept)
      | inr (page, e) ↦ rw (found, e, mem_tickle) kept
    ]

-- Every bucket of a new page table has one entry at most for a tag, and a table with this property
-- keeps it when a byte is read or written.
pub access-WellFormed :
    (m : Mem) (addr v : ℕ)
    → WellFormed m
    → WellFormed new
      × ((b : ℕ) (m' : Mem) → read_byte m addr ≡ ok (b, m') → WellFormed m')
      × ((m' : Mem) → write_byte m addr v ≡ ok m' → WellFormed m')
unfolding new read_byte write_byte
access-WellFormed m addr v wf =
    let first = mem_page-WellFormed m addr wf in
    let second = mem_page-WellFormed (mem_page m addr).1 addr first in
    let ready = mem_page-WellFormed (mem_tickle m addr) addr (mem_tickle-WellFormed m addr wf) in
    (
      λ i. tt,
      λ b m' h. elim (Option-cases (mem_page m addr).0) [
        | inl e ↦
            subst WellFormed (let same : (mem_page m addr).1 ≡ m' = ground arith in same) first
        | inr (page, e) ↦ elim (Option-cases (mem_page (mem_page m addr).1 addr).0) [
          | inl e' ↦ absurd (ground arith)
          | inr (page', e') ↦
              subst WellFormed
                (let same : (mem_page (mem_page m addr).1 addr).1 ≡ m' = ground arith in same)
                second
        ]
      ],
      λ m' h. elim (Option-cases (mem_page (mem_tickle m addr) addr).0) [
        | inl e ↦ absurd (ground arith)
        | inr (page, e) ↦
            let m1 = (mem_page (mem_tickle m addr) addr).1 in
            let d =
              store-Distinct (ptab_tag addr) (mem_offset addr) v (m1.ptab (ptab_set addr))
                (ready (ptab_set addr)) in
            subst WellFormed (ok-injective (rw (e, write_byte) at h))
              (update-WellFormed m1 (ptab_set addr) _ ready d)
      ],
    )

abbrev first_of : Option (ℕ → ℕ) → Option (ℕ → ℕ) → Option (ℕ → ℕ)
first_of o other = elim o [ none ↦ other | some page ↦ some page ]

-- a copied bucket holds the first entry for each tag, where a tag has only one
page_of-copy_bucket :
    (u : ℕ) (copied ps : List Pte)
    → Distinct ps
    → page_of u (copy_bucket copied ps) ≡ first_of (page_of u ps) (page_of u copied)
unfolding copy_bucket
page_of-copy_bucket u copied [] d = refl
page_of-copy_bucket u copied (p ∷ ps) (a, d) = elim (Bool-cases (p.tag == u)) [
  | inl e ↦
      let same : p.tag ≡ u = ground arith in
      let missing = page_of-absent u ps (subst (λ t. absent t ps ≡ true) same a) in
      let taken : page_of u (p ∷ copied) ≡ some p.page = rw e refl in
      let here : page_of u (p ∷ ps) ≡ some p.page = rw e refl in
      page_of-copy_bucket u (p ∷ copied) ps d
      ∙ ap (λ o. first_of o (page_of u (p ∷ copied))) missing
      ∙ taken
      ∙ ap (λ o. first_of o (page_of u copied)) (sym here)
  | inr e ↦
      let skipped : page_of u (p ∷ copied) ≡ page_of u copied = rw e refl in
      let behind : page_of u (p ∷ ps) ≡ page_of u ps = rw e refl in
      page_of-copy_bucket u (p ∷ copied) ps d
      ∙ ap (λ o. first_of (page_of u ps) o) skipped
      ∙ ap (λ o. first_of o (page_of u copied)) (sym behind)
]

some_or_none : (o : Option (ℕ → ℕ)) → first_of o none ≡ o
some_or_none none = refl
some_or_none (some page) = refl

-- A copy of a memory whose buckets have one entry at most for a tag has the same page at each address
-- and the same mappings.
pub copy-Same : (m : Mem) → WellFormed m → Same m (copy m)
unfolding copy
copy-Same m wf = record {
  pages = λ addr.
      page_of-copy_bucket (ptab_tag addr) [] (m.ptab (ptab_set addr)) (wf (ptab_set addr))
      ∙ some_or_none (page_at m addr);
  mapped = refl;
  internal = refl;
}
