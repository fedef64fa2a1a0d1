-- ===== src/Memory/Mapping.antt =====
-- The mappings of memory.c: mmap_t::is_within and mmap_t::bounds_check, mem_t::bounds_verify and
-- mem_t::acquire_address, which look for room, and mem_t::mem_unmap. Addresses have 64 bits, and so
-- do the sums of two. `munmap` of the host is an argument: whether it succeeds.
use smt_register_capping.Base.{
  ℕ, zero, suc, ◌+◌, ◌-◌, ◌*◌, ◌/◌, ◌%◌, ◌^◌, Bool, true, false, ◌&&◌, not, ltb, leb, ◌==◌,
  if◌then◌else◌, List, [], ◌∷◌, Option, none, some,
}
use smt_register_capping.Memory.{Mmap, Mem}

-- an address after a sum
abbrev pub wrap : ℕ → ℕ
wrap addr = addr % 2 ^ 64

-- mmap_t::is_within
unfoldable pub is_within : (base size addr : ℕ) → Bool
is_within base size addr = leb base addr && ltb (addr - base) size

-- mmap_t::bounds_check: the first byte and the last one, at addr + len - 1
unfoldable pub bounds_check : Mmap → ℕ → ℕ → Bool
unfolding is_within
bounds_check mp addr len =
    is_within mp.base_address mp.size addr
    && is_within mp.base_address mp.size (wrap (addr + len + (2 ^ 64 - 1)))

-- the end of the last page of a mapping
abbrev pub page_bound : Mmap → ℕ
page_bound mp = (mp.base_address + mp.size + (2 ^ 13 - 1)) % 2 ^ 64 / 2 ^ 13 * 2 ^ 13

-- the loop of bounds_verify over the pages of one mapping
unfoldable pub meets : (fuel : ℕ) → (base size check bound : ℕ) → Bool
unfolding is_within
meets zero base size check bound = false
meets (suc fuel) base size check bound =
    let rest = meets fuel base size (wrap (check + 2 ^ 13)) bound in
    if ltb check bound then (if is_within base size check then true else rest) else false

-- mem_t::bounds_verify; the fuel is the number of pages up to the bound
unfoldable pub bounds_verify : List Mmap → ℕ → ℕ → Bool
unfolding meets
bounds_verify [] addr len = true
bounds_verify (mp ∷ source) addr len =
    not (meets (page_bound mp / 2 ^ 13 + 1) addr len mp.base_address (page_bound mp))
    && bounds_verify source addr len

unfoldable pub has_room : Mem → ℕ → ℕ → Bool
unfolding bounds_verify
has_room m addr len = bounds_verify m.memory_map addr len && bounds_verify m.internal_map addr len

-- the steps by a page to an address with room, from the static base_addr or from the one given;
-- nothing if the fuel ran out
unfoldable pub search_room : (fuel : ℕ) → Mem → ℕ → ℕ → Option ℕ
unfolding has_room
search_room zero m addr len = none
search_room (suc fuel) m addr len =
    let rest = search_room fuel m (wrap (addr + 2 ^ 13)) len in
    if has_room m addr len then some addr else rest

-- base_addr after an address was taken from it
abbrev pub next_base : ℕ → ℕ → ℕ
next_base addr len = (addr + len + (2 ^ 13 - 1)) % 2 ^ 64 / 2 ^ 13 * 2 ^ 13

-- mem_t::acquire_address: the address and base_addr. A step that wraps around to address 0 goes on at
-- base_addr.
unfoldable pub acquire_address : (fuel : ℕ) → Mem → (base_addr addr len : ℕ) → Option (ℕ × ℕ)
unfolding has_room search_room
acquire_address zero m base_addr addr len = none
acquire_address (suc fuel) m base_addr addr len =
    let rest = acquire_address fuel m base_addr (wrap (addr + 2 ^ 13)) len in
    if addr == 0
    then elim (search_room fuel m base_addr len) [
      | none ↦ none
      | some found ↦ some (found, next_base found len)
    ]
    else if has_room m addr len
    then some (addr, base_addr)
    else rest

-- the first mapping with this base address, and the others
take_mapping : ℕ → List Mmap → Option (Mmap × List Mmap)
take_mapping addr [] = none
take_mapping addr (mp ∷ rest) =
    if mp.base_address == addr
    then some (mp, rest)
    else elim (take_mapping addr rest) [ none ↦ none | some (q, others) ↦ some (q, mp ∷ others) ]

-- mem_t::mem_unmap; nothing is -1
mem_unmap : (munmap : Mmap → Bool) → Mem → ℕ → Option Mem
unfolding take_mapping
mem_unmap munmap m addr = elim (take_mapping addr m.memory_map) [
  | some (mp, rest) ↦ if munmap mp then some (record m { memory_map = rest }) else none
  | none ↦ elim (take_mapping addr m.internal_map) [
    | some (mp, rest) ↦ some (record m { internal_map = rest })
    | none ↦ none
  ]
]
