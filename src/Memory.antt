-- ===== src/Memory.antt =====
-- The simulated memory of memory.h and memory.c: an inverted page table, whose buckets are lists of
-- page table entries, the entry found last at the front. A bucket is indexed by 15 bits of the
-- address and a page by 13, so the table and the pages, which are arrays of those sizes, are
-- functions. The counts of accesses and misses are left out.
pub mod Flat
pub mod Mapping
pub mod Apart
pub mod Room
pub mod Buckets
mod Tests
pub mod Access
pub mod Blocks
pub mod Faults
pub mod Copies
use smt_register_capping.Base.{
  ℕ, zero, suc, ◌+◌, ◌-◌, ◌*◌, ◌/◌, ◌%◌, ◌^◌, Bool, true, false, ◌==◌, if◌then◌else◌, List, [], ◌∷◌,
  Option, none, some, Outcome, ok, fault, ◌>>=◌,
}

-- MEM_PTAB_SET, MEM_PTAB_TAG and MEM_OFFSET, for MEM_PTAB_SIZE = 2^15 and MD_PAGE_SIZE = 2^13
abbrev pub ptab_set : ℕ → ℕ
ptab_set addr = addr / 2 ^ 13 % 2 ^ 15

abbrev pub ptab_tag : ℕ → ℕ
ptab_tag addr = addr / 2 ^ 28

abbrev pub mem_offset : ℕ → ℕ
mem_offset addr = addr % 2 ^ 13

-- an array of bytes or of buckets, and an assignment to one of its elements
abbrev pub update {ℓ} : {A : Type ℓ} → (ℕ → A) → ℕ → A → ℕ → A
update f i a j = if j == i then a else f j

-- class mem_pte_t; `next` is the rest of the list
pub record Pte : Type 0 where
  pub tag : ℕ
  pub page : ℕ → ℕ

-- class mmap_t; `mapping` is what the host maps there, by the offset
pub record Mmap : Type 0 where
  pub base_address : ℕ
  pub size : ℕ
  pub mapping : ℕ → ℕ
  pub prot_read : Bool
  pub prot_write : Bool
  pub inherit : Bool

pub record Mem : Type 0 where
  pub ptab : ℕ → List Pte
  pub memory_map : List Mmap
  pub internal_map : List Mmap
  pub page_count : ℕ

-- mem_t::mem_t
pub new : Mem
new = record { ptab = λ _. []; memory_map = []; internal_map = []; page_count = 0 }

-- the search of mem_translate: the entry, and the bucket without it
take_out : ℕ → List Pte → Option (Pte × List Pte)
take_out tag [] = none
take_out tag (p ∷ ps) =
    if p.tag == tag
    then some (p, ps)
    else elim (take_out tag ps) [ none ↦ none | some (q, rest) ↦ some (q, p ∷ rest) ]

-- mem_translate: the page, and the memory with the entry moved to the head of its bucket
mem_translate : Mem → ℕ → Option (ℕ → ℕ) × Mem
unfolding take_out
mem_translate m addr = elim (take_out (ptab_tag addr) (m.ptab (ptab_set addr))) [
  | none ↦ (none, m)
  | some (p, rest) ↦ (some p.page, record m { ptab = update m.ptab (ptab_set addr) (p ∷ rest) })
]

-- the entry of a first level hit
front_hit : ℕ → List Pte → Option Pte
front_hit tag [] = none
front_hit tag (p ∷ ps) = if p.tag == tag then some p else none

-- MEM_PAGE
pub mem_page : Mem → ℕ → Option (ℕ → ℕ) × Mem
unfolding mem_translate front_hit
mem_page m addr = elim (front_hit (ptab_tag addr) (m.ptab (ptab_set addr))) [
  | none ↦ mem_translate m addr
  | some p ↦ (some p.page, m)
]

-- mem_newpage
mem_newpage : Mem → ℕ → Mem
mem_newpage m addr = record m {
  ptab =
      update m.ptab (ptab_set addr)
        (record { tag = ptab_tag addr; page = λ _. 0 } ∷ m.ptab (ptab_set addr));
  page_count = m.page_count + 1;
}

-- MEM_READ_BYTE: zero if there is no page; the page is located again for the access
pub read_byte : Mem → ℕ → Outcome (ℕ × Mem)
unfolding mem_page
read_byte m addr =
    let (found, m1) = mem_page m addr in
    elim found [
      | none ↦ ok (0, m1)
      | some _ ↦
          let (again, m2) = mem_page m1 addr in
          elim again [ none ↦ fault | some page ↦ ok (page (mem_offset addr), m2) ]
    ]

-- MEM_TICKLE
mem_tickle : Mem → ℕ → Mem
unfolding mem_page mem_newpage
mem_tickle m addr =
    let (found, m1) = mem_page m addr in elim found [ none ↦ mem_newpage m1 addr | some _ ↦ m1 ]

-- an assignment through the pointer to a page, which is the page of an entry with its tag
store : ℕ → ℕ → ℕ → List Pte → List Pte
store tag offset v [] = []
store tag offset v (p ∷ ps) =
    if p.tag == tag
    then record p { page = update p.page offset v } ∷ ps
    else p ∷ store tag offset v ps

-- MEM_WRITE_BYTE
pub write_byte : Mem → ℕ → ℕ → Outcome Mem
unfolding mem_tickle mem_page store
write_byte m addr v =
    let (found, m1) = mem_page (mem_tickle m addr) addr in
    elim found [
      | none ↦ fault
      | some _ ↦ ok (record m1 {
        ptab =
            update m1.ptab (ptab_set addr)
              (store (ptab_tag addr) (mem_offset addr) v (m1.ptab (ptab_set addr)));
      })
    ]

-- mem_t::mem_t(const mem_t &): the loop over a bucket puts each entry in front of the copies before it
copy_bucket : (copied : List Pte) → List Pte → List Pte
copy_bucket copied [] = copied
copy_bucket copied (p ∷ ps) = copy_bucket (record { tag = p.tag; page = p.page } ∷ copied) ps

pub copy : Mem → Mem
unfolding copy_bucket
copy source = record source { ptab = λ i. copy_bucket [] (source.ptab i) }
