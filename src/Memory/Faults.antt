-- ===== src/Memory/Faults.antt =====
-- The faults of mem_t::mem_access, and the accesses that no mapping takes, on the flat memory.
use smt_register_capping.Base.{
  ℕ, suc, ◌+◌, ◌-◌, ◌*◌, ◌/◌, ◌%◌, ◌^◌, ◌<◌, ◌≤◌, Bool, true, false, ◌&&◌, not, ◌==◌, List, [], ◌∷◌,
  none, some, ok, ◌≡◌, ◌≢◌, refl, sym, ap, ◌∙◌, inl, inr, Bool-cases, Option-cases, length, arith,
  subst, bit_and,
}
use native.Mathlib.Decide.{dec_le}
use native.Mathlib.Nat.{
  div-div-eq-div-mul, pow-le-pow_right, add_comm, add-mul-div_left, div-eq_of_lt, mod-add-div,
  mod_self,
}
use smt_register_capping.Base.Bits.{power-add, bit_and-mask, power_of_two}
use smt_register_capping.Memory.{Mem, Mmap}
use smt_register_capping.Memory.Mapping.{is_within}
use smt_register_capping.Memory.Access.{
  MemCmd, read, write, MdFault, fault_none, fault_access, fault_alignment, mapped_access, mask,
  size_fault, search_map, page_access, access_any, mem_access, copy_in,
}
use smt_register_capping.Memory.Flat.{Same}
use smt_register_capping.Memory.Blocks.{
  bytes_from, Block, copy_in-bytes_from, copy_out-Block, bytes_from-Block,
}

-- the address lies in no mapping of the host
abbrev pub unmapped : List Mmap → ℕ → Bool
unmapped [] addr = true
unmapped (mp ∷ rest) addr = not (is_within mp.base_address mp.size addr) && unmapped rest addr

search_map-unmapped :
    (cmd : MemCmd) (maps : List Mmap) (addr : ℕ) (buffer : List ℕ)
    → unmapped maps addr ≡ true
    → search_map cmd maps addr buffer ≡ none
unfolding search_map
search_map-unmapped cmd [] addr buffer h = refl
search_map-unmapped cmd (mp ∷ maps) addr buffer h =
    elim (Bool-cases (is_within mp.base_address mp.size addr)) [
      | inl e ↦ absurd (ground arith)
      | inr e ↦
          rw e (let rest = search_map-unmapped cmd maps addr buffer (ground arith) in rw rest refl)
    ]

access_any-unmapped :
    (cmd : MemCmd) (m : Mem) (addr : ℕ) (buffer : List ℕ)
    → unmapped m.memory_map addr ≡ true
    → access_any cmd m addr buffer ≡ page_access cmd m addr buffer
unfolding access_any
access_any-unmapped cmd m addr buffer h =
    let found = search_map-unmapped cmd m.memory_map addr buffer h in rw (found, access_any) refl

mask-suc : (n : ℕ) → n < 2 ^ 64 → mask (suc n) ≡ n
mask-suc n h = omega arith

-- an access that its first checks let through, in the terms of the code
passes :
    (m : Mem) (cmd : MemCmd) (addr : ℕ) (buffer buffer' : List ℕ) (m' : Mem)
    → mem_access cmd m addr buffer ≡ ok (fault_none, buffer', m')
    → (size_fault (length buffer) ≡ false) × ((bit_and addr (mask (length buffer)) == 0) ≡ true)
unfolding mem_access
passes m cmd addr buffer buffer' m' h = elim (Bool-cases (size_fault (length buffer))) [
  | inl e ↦ cc
  | inr e ↦ elim (Bool-cases (bit_and addr (mask (length buffer)) == 0)) [
    | inl g ↦ (e, g)
    | inr g ↦ absurd (ground arith)
  ]
]

-- adding less than a power of two to a multiple of it leaves the quotient by a larger one
div-aligned : (k j a i : ℕ) → a % 2 ^ k ≡ 0 → i < 2 ^ k → (a + i) / 2 ^ (k + j) ≡ a / 2 ^ (k + j)
div-aligned k j a i e lt =
    let multiple : a ≡ 2 ^ k * (a / 2 ^ k) = omega (arith, mod-add-div a (2 ^ k)) in
    let quotient : (a + i) / 2 ^ k ≡ a / 2 ^ k =
      ap (λ n. (n + i) / 2 ^ k) multiple
      ∙ ap (λ n. n / 2 ^ k) (add_comm (2 ^ k * (a / 2 ^ k)) i)
      ∙ add-mul-div_left i (a / 2 ^ k) (omega arith)
      ∙ ap (λ n. n + a / 2 ^ k) (div-eq_of_lt lt)
      ∙ (let e : 0 + a / 2 ^ k ≡ a / 2 ^ k = omega arith in e) in
    rw (power-add k j) (
      sym (div-div-eq-div-mul (a + i) (2 ^ k) (2 ^ j))
      ∙ ap (λ n. n / 2 ^ j) quotient
      ∙ div-div-eq-div-mul a (2 ^ k) (2 ^ j))

exponent_bound : (k : ℕ) → 2 ^ k ≤ 2 ^ 13 → k ≤ 13
exponent_bound k h = elim (dec_le k 13) [
  | yes le ↦ le
  | no gt ↦
      absurd (omega (arith, pow-le-pow_right {n = 2} (omega arith) {i = 14} {j = k} (omega arith)))
]

-- An access of at least one byte, and of less than 2^31, that has no fault is of 2^k bytes, at most a
-- page, at an address that is a multiple of 2^k, and its bytes lie in one page.
pub mem_access-one_page :
    (cmd : MemCmd) (m : Mem) (addr : ℕ) (buffer buffer' : List ℕ) (m' : Mem)
    → length buffer ≢ 0
    → length buffer < 2 ^ 31
    → mem_access cmd m addr buffer ≡ ok (fault_none, buffer', m')
    → (k : ℕ) × (length buffer ≡ 2 ^ k)
      × (k ≤ 13)
      × (addr % 2 ^ k ≡ 0)
      × ((addr + (length buffer - 1)) / 2 ^ 13 ≡ addr / 2 ^ 13)
mem_access-one_page cmd m addr buffer buffer' m' ne small h =
    let (sized, masked) = passes m cmd addr buffer buffer' m' h in
    let n = length buffer in
    let is_mask : mask n ≡ n - 1 = omega arith in
    let disjoint : bit_and n (n - 1) ≡ 0 = ap (bit_and n) (sym is_mask) ∙ ground arith in
    let (k, power) = power_of_two n ne disjoint in
    let in_page : n ≤ 2 ^ 13 = ground arith in
    let bound : k ≤ 13 = exponent_bound k (omega arith) in
    let aligned : addr % 2 ^ k ≡ 0 =
      sym (bit_and-mask k addr)
      ∙ ap (λ p. bit_and addr (p - 1)) (sym power)
      ∙ ap (bit_and addr) (sym is_mask)
      ∙ ground arith in
    let split : k + (13 - k) ≡ 13 = omega arith in
    let page = div-aligned k (13 - k) addr (n - 1) aligned (omega arith) in
    (k, power, bound, aligned, subst (λ e. (addr + (n - 1)) / 2 ^ e ≡ addr / 2 ^ e) split page)

-- an aligned access passes the checks
pub mem_access-aligned :
    (k : ℕ) (cmd : MemCmd) (m : Mem) (addr : ℕ) (buffer : List ℕ)
    → k ≤ 13
    → length buffer ≡ 2 ^ k
    → addr % 2 ^ k ≡ 0
    → unmapped m.memory_map addr ≡ true
    → mem_access cmd m addr buffer ≡ page_access cmd m addr buffer
unfolding mem_access
mem_access-aligned k cmd m addr buffer bound size aligned free =
    let n = length buffer in
    let largest : n ≤ 2 ^ 13 =
      omega (arith, pow-le-pow_right {n = 2} (omega arith) {i = k} {j = 13} bound) in
    let positive = pow-le-pow_right {n = 2} (omega arith) {i = 0} {j = k} (omega arith) in
    let is_mask : mask n ≡ n - 1 = omega (arith, positive) in
    let predecessor : mask n ≡ 2 ^ k - 1 = omega arith in
    let zero_size : bit_and n (mask n) ≡ 0 =
      ap (bit_and n) predecessor ∙ bit_and-mask k n ∙ ap (λ p. p % 2 ^ k) size ∙ mod_self (2 ^ k) in
    let zero_addr : bit_and addr (mask n) ≡ 0 =
      ap (bit_and addr) predecessor ∙ bit_and-mask k addr ∙ aligned in
    let sized : size_fault n ≡ false = ground arith in
    let masked : (bit_and addr (mask n) == 0) ≡ true = ground arith in
    rw (sized, masked, mem_access) (access_any-unmapped cmd m addr buffer free)

-- An access of 2^k bytes, at most a page, at a multiple of 2^k that no mapping takes: a write has no
-- fault, sets these bytes and no others, and the next read has no fault, gives the bytes written and
-- changes no byte.
pub mem_access-roundtrip :
    (k : ℕ) (m : Mem) (addr : ℕ) (bytes buffer : List ℕ)
    → k ≤ 13
    → addr < 2 ^ 64
    → length bytes ≡ 2 ^ k
    → length buffer ≡ 2 ^ k
    → addr % 2 ^ k ≡ 0
    → unmapped m.memory_map addr ≡ true
    → (m1 : Mem) × (m2 : Mem) × (mem_access write m addr bytes ≡ ok (fault_none, bytes, m1))
      × (mem_access read m1 addr buffer ≡ ok (fault_none, bytes, m2))
      × Block m addr bytes m1
      × Same m1 m2
unfolding page_access
mem_access-roundtrip k m addr bytes buffer bound lt size size' aligned free =
    let largest = pow-le-pow_right {n = 2} (omega arith) {i = k} {j = 13} bound in
    let (m1, wrote, block) = copy_out-Block m addr bytes lt (omega arith) in
    let (m2, got, same) = copy_in-bytes_from m1 addr buffer in
    let free1 : unmapped m1.memory_map addr ≡ true =
      ap (λ maps. unmapped maps addr) block.mapped ∙ free in
    let stored = bytes_from-Block m addr bytes m1 lt (omega arith) block in
    let got' : copy_in m1 addr buffer ≡ ok (bytes, m2) =
      got
      ∙ ap (λ n. ok (bytes_from m1 addr n, m2)) (size' ∙ sym size)
      ∙ ap (λ bs. ok (bs, m2)) stored in
    (
      m1,
      m2,
      mem_access-aligned k write m addr bytes bound size aligned free
          ∙ rw (wrote, page_access) refl,
      mem_access-aligned k read m1 addr buffer bound size' aligned free1
          ∙ rw (got', page_access) refl,
      block,
      same,
    )

-- a fault of a mapping leaves the mapping and the buffer as they are
mapped_access-unchanged :
    (cmd : MemCmd) (mp : Mmap) (addr : ℕ) (buffer : List ℕ)
    → (mapped_access cmd mp addr buffer).0 ≢ fault_none
    → ((mapped_access cmd mp addr buffer).1 ≡ buffer) × ((mapped_access cmd mp addr buffer).2 ≡ mp)
unfolding mapped_access
mapped_access-unchanged read mp addr buffer h = ground arith
mapped_access-unchanged write mp addr buffer h = ground arith

search_map-unchanged :
    (cmd : MemCmd) (maps : List Mmap) (addr : ℕ) (buffer buffer' : List ℕ) (f : MdFault)
    (maps' : List Mmap)
    → search_map cmd maps addr buffer ≡ some (f, buffer', maps')
    → f ≢ fault_none
    → (buffer' ≡ buffer) × (maps' ≡ maps)
unfolding search_map
search_map-unchanged cmd [] addr buffer buffer' f maps' h ne = cc
search_map-unchanged cmd (mp ∷ maps) addr buffer buffer' f maps' h ne =
    elim (Bool-cases (is_within mp.base_address mp.size addr)) [
      | inl e ↦ ground (arith, mapped_access-unchanged cmd mp addr buffer)
      | inr e ↦ elim (Option-cases (search_map cmd maps addr buffer)) [
        | inl none' ↦ ground arith
        | inr ((g, b, rest), found) ↦
            ground (arith, search_map-unchanged cmd maps addr buffer b g rest found)
      ]
    ]

page_access-total :
    (cmd : MemCmd) (m : Mem) (addr : ℕ) (buffer : List ℕ)
    → addr < 2 ^ 64
    → length buffer < 2 ^ 31
    → (buffer' : List ℕ) × (m' : Mem) × (page_access cmd m addr buffer
        ≡ ok (fault_none, buffer', m'))
unfolding page_access
page_access-total read m addr buffer lt small =
    let (m1, got, _) = copy_in-bytes_from m addr buffer in
    (bytes_from m addr (length buffer), m1, rw (got, page_access) refl)
page_access-total write m addr buffer lt small =
    let (m1, wrote, _) = copy_out-Block m addr buffer lt (omega arith) in
    (buffer, m1, rw (wrote, page_access) refl)

access_any-unchanged :
    (cmd : MemCmd) (m : Mem) (addr : ℕ) (buffer : List ℕ)
    → addr < 2 ^ 64
    → length buffer < 2 ^ 31
    → (f : MdFault) × (buffer' : List ℕ) × (m' : Mem) × (access_any cmd m addr buffer
        ≡ ok (f, buffer', m'))
      × (f ≢ fault_none → (buffer' ≡ buffer) × (m' ≡ m))
unfolding access_any
access_any-unchanged cmd m addr buffer lt small =
    elim (Option-cases (search_map cmd m.memory_map addr buffer)) [
      | inr ((f, buffer', maps), found) ↦ (
        f,
        buffer',
        record m { memory_map = maps },
        rw (found, access_any) refl,
        λ ne.
            let (same, kept) =
              search_map-unchanged cmd m.memory_map addr buffer buffer' f maps found ne in
            (same, ap (λ l. record m { memory_map = l }) kept),
      )
      | inl free ↦
          let (buffer', m1, done) = page_access-total cmd m addr buffer lt small in
          (fault_none, buffer', m1, rw (free, access_any) done, λ ne. absurd (ne refl))
    ]

-- An access of less than 2^31 bytes at an address of 64 bits never aborts the simulator, and one that
-- returns a fault leaves the buffer and the memory, mappings included, as they were.
pub mem_access-unchanged :
    (cmd : MemCmd) (m : Mem) (addr : ℕ) (buffer : List ℕ)
    → addr < 2 ^ 64
    → length buffer < 2 ^ 31
    → (f : MdFault) × (buffer' : List ℕ) × (m' : Mem) × (mem_access cmd m addr buffer
        ≡ ok (f, buffer', m'))
      × (f ≢ fault_none → (buffer' ≡ buffer) × (m' ≡ m))
unfolding mem_access
mem_access-unchanged cmd m addr buffer lt small = elim (Bool-cases (size_fault (length buffer))) [
  | inl e ↦ (fault_access, buffer, m, rw (e, mem_access) refl, λ _. (refl, refl))
  | inr e ↦ elim (Bool-cases (bit_and addr (mask (length buffer)) == 0)) [
    | inr g ↦ (fault_alignment, buffer, m, rw (e, g, mem_access) refl, λ _. (refl, refl))
    | inl g ↦ rw (e, g, mem_access) (access_any-unchanged cmd m addr buffer lt small)
  ]
]
