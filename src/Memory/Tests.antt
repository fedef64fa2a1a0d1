-- ===== src/Memory/Tests.antt =====
-- A memory with two pages in one bucket, and accesses to the pages and to a mapping.
use smt_register_capping.Base.{
  ℕ, ◌+◌, ◌-◌, ◌/◌, ◌%◌, ◌^◌, ◌≤◌, ◌==◌, true, false, List, [], ◌∷◌, ◌++◌, some, ok, ◌≡◌, ◌≢◌, refl,
  inl, inr, Bool-cases, arith,
}
use smt_register_capping.Memory.{Mem, Mmap, new, mem_newpage, read_byte, write_byte, copy}
use smt_register_capping.Memory.Mapping.{is_within, acquire_address}
use smt_register_capping.Memory.Access.{
  read, write, MdFault, fault_none, mem_access, mem_bcopy, write_string, read_string,
}
use smt_register_capping.Memory.Flat.{byte_at, Same, Written, read_byte-byte_at, write_byte-Written}
use smt_register_capping.Memory.Blocks.{Block}
use smt_register_capping.Memory.Faults.{
  mem_access-one_page, mem_access-roundtrip, mem_access-unchanged,
}
use smt_register_capping.Memory.Copies.{mem_bcopy-roundtrip, read_string-write_string}
use smt_register_capping.Memory.Apart.{OnPage, Room}
use smt_register_capping.Memory.Room.{First, acquire_address-First}
use smt_register_capping.Memory.Buckets.{WellFormed, access-WellFormed, copy-Same}

-- the pages of the addresses 0 and 2^28
two_pages : Mem
unfolding new mem_newpage
two_pages = mem_newpage (mem_newpage new 0) (2 ^ 28)

two_pages-WellFormed : WellFormed two_pages
unfolding two_pages new mem_newpage
two_pages-WellFormed i = elim (Bool-cases (i == 0)) [
  | inl e ↦ rw e (refl, (refl, tt))
  | inr e ↦ rw e tt
]

-- a mapping of one page that cannot be written
abbrev shared : Mmap
shared = record {
  base_address = 2 ^ 13;
  size = 2 ^ 13;
  mapping = λ i. i;
  prot_read = true;
  prot_write = false;
  inherit = false;
}

abbrev mapped : Mem
mapped = record { ptab = λ _. []; memory_map = shared ∷ []; internal_map = []; page_count = 0 }

read_byte-byte_at_example :
    (m' : Mem) × (read_byte two_pages 5 ≡ ok (byte_at two_pages 5, m')) × Same two_pages m'
read_byte-byte_at_example = read_byte-byte_at two_pages 5

write_byte-Written_example :
    (m' : Mem) × (write_byte two_pages 5 7 ≡ ok m') × Written two_pages 5 7 m'
write_byte-Written_example = write_byte-Written two_pages 5 7

-- two bytes of the mapping
aligned_read :
    mem_access read mapped (2 ^ 13 + 4) (0 ∷ 0 ∷ []) ≡ ok (fault_none, 4 ∷ 5 ∷ [], mapped)
unfolding mem_access
aligned_read = refl

mem_access-one_page_example :
    (k : ℕ) × (2 ≡ 2 ^ k)
    × (k ≤ 13)
    × ((2 ^ 13 + 4) % 2 ^ k ≡ 0)
    × ((2 ^ 13 + 4 + (2 - 1)) / 2 ^ 13 ≡ (2 ^ 13 + 4) / 2 ^ 13)
mem_access-one_page_example =
    mem_access-one_page read mapped (2 ^ 13 + 4) (0 ∷ 0 ∷ []) (4 ∷ 5 ∷ []) mapped (omega arith)
      (omega arith) aligned_read

mem_access-roundtrip_example :
    (m1 : Mem) × (m2 : Mem) × (mem_access write two_pages 6 (8 ∷ 9 ∷ [])
      ≡ ok (fault_none, 8 ∷ 9 ∷ [], m1))
    × (mem_access read m1 6 (0 ∷ 0 ∷ []) ≡ ok (fault_none, 8 ∷ 9 ∷ [], m2))
    × Block two_pages 6 (8 ∷ 9 ∷ []) m1
    × Same m1 m2
unfolding two_pages new mem_newpage
mem_access-roundtrip_example =
    mem_access-roundtrip 1 two_pages 6 (8 ∷ 9 ∷ []) (0 ∷ 0 ∷ []) (omega arith) (omega arith) refl
      refl refl refl

mem_access-unchanged_example :
    (f : MdFault) × (buffer' : List ℕ) × (m' : Mem) × (mem_access write mapped
        (2 ^ 13 + 4)
        (1 ∷ 2 ∷ [])
      ≡ ok (f, buffer', m'))
    × (f ≢ fault_none → (buffer' ≡ 1 ∷ 2 ∷ []) × (m' ≡ mapped))
mem_access-unchanged_example =
    mem_access-unchanged write mapped (2 ^ 13 + 4) (1 ∷ 2 ∷ []) (omega arith) (omega arith)

-- across the end of a page
mem_bcopy-roundtrip_example :
    (m1 : Mem) × (m2 : Mem) × (mem_bcopy write two_pages (2 ^ 13 - 1) (8 ∷ 9 ∷ 7 ∷ []) 2
      ≡ ok (fault_none, 8 ∷ 9 ∷ 7 ∷ [], m1))
    × (mem_bcopy read m1 (2 ^ 13 - 1) (0 ∷ 0 ∷ []) 2 ≡ ok (fault_none, 8 ∷ 9 ∷ [], m2))
    × Block two_pages (2 ^ 13 - 1) (8 ∷ 9 ∷ []) m1
    × Same m1 m2
unfolding two_pages new mem_newpage
mem_bcopy-roundtrip_example =
    mem_bcopy-roundtrip two_pages (2 ^ 13 - 1) (8 ∷ 9 ∷ []) (0 ∷ 0 ∷ []) (7 ∷ []) [] (omega arith)
      (omega arith) refl (λ i lt. refl)

read_string-write_string_example :
    (m1 : Mem) × (m2 : Mem) × (write_string two_pages 5 (65 ∷ 66 ∷ []) ≡ ok (fault_none, m1))
    × (read_string 3 m1 5 [] ≡ ok (some (fault_none, (65 ∷ 66 ∷ []) ++ (0 ∷ []), m2)))
    × Block two_pages 5 ((65 ∷ 66 ∷ []) ++ (0 ∷ [])) m1
    × Same m1 m2
unfolding two_pages new mem_newpage
read_string-write_string_example =
    read_string-write_string two_pages 5 (65 ∷ 66 ∷ []) 3 (omega arith) (omega arith)
      (omega arith, (omega arith, tt)) (λ i lt. refl) (omega arith)

-- the page of the mapping is passed over
third_page : acquire_address 3 mapped (2 ^ 20) (2 ^ 13) 10 ≡ some (2 ^ 14, 2 ^ 20)
unfolding acquire_address
third_page = refl

behind_shared : Room mapped (2 ^ 14) 10
unfolding is_within
behind_shared = record { host = (λ x lo hi. ground arith, tt); internal = tt }

acquire_address-First_example :
    (found : ℕ) × (base_addr' : ℕ) × (acquire_address 3 mapped (2 ^ 20) (2 ^ 13) 10
      ≡ some (found, base_addr'))
    × First mapped (2 ^ 13) 10 found
    × (base_addr' ≡ 2 ^ 20)
    × OnPage base_addr'
acquire_address-First_example =
    acquire_address-First mapped 10 (refl, omega arith, tt) tt 3 1 (2 ^ 20) (2 ^ 13) refl refl
      behind_shared (omega arith) (omega arith)

access-WellFormed_example :
    WellFormed new
    × ((b : ℕ) (m' : Mem) → read_byte two_pages 5 ≡ ok (b, m') → WellFormed m')
    × ((m' : Mem) → write_byte two_pages 5 7 ≡ ok m' → WellFormed m')
access-WellFormed_example = access-WellFormed two_pages 5 7 two_pages-WellFormed

copy-Same_example : Same two_pages (copy two_pages)
copy-Same_example = copy-Same two_pages two_pages-WellFormed
