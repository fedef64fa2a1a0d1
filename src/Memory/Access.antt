-- ===== src/Memory/Access.antt =====
-- The access functions of memory.c: mem_t::mem_access and mem_t::mem_access_direct, and the copies
-- that are made of them. The host's buffer is a list of as many bytes as the access has, which is
-- also how an access returns what it read.
use smt_register_capping.Base.{
  ℕ, zero, suc, ◌+◌, ◌-◌, ◌%◌, ◌^◌, Bool, true, false, ◌||◌, not, ltb, leb, ◌==◌, if◌then◌else◌,
  List, [], ◌∷◌, ◌++◌, Option, none, some, Outcome, ok, ◌>>=◌, ◌>>◌, assert, bit_and, length, take,
  drop,
}
use smt_register_capping.Memory.{Mmap, Mem, update, read_byte, write_byte}
use smt_register_capping.Memory.Mapping.{wrap, is_within, bounds_check}

-- enum mem_cmd
pub data MemCmd : Type 0 where
  read write : MemCmd

-- the values of enum md_fault_type that the memory returns
pub data MdFault : Type 0 where
  fault_none fault_access fault_alignment fault_segfault : MdFault

-- the fault, the buffer and the memory
abbrev pub Access : Type 0
Access = Outcome (MdFault × List ℕ × Mem)

-- the loops of MEM_READ_BYTE and MEM_WRITE_BYTE
unfoldable pub copy_in : Mem → ℕ → List ℕ → Outcome (List ℕ × Mem)
copy_in m addr [] = ok ([], m)
copy_in m addr (_ ∷ bs) = do
  (b, m1) ← read_byte m addr
  (rest, m2) ← copy_in m1 (wrap (addr + 1)) bs
  ok (b ∷ rest, m2)

unfoldable pub copy_out : Mem → ℕ → List ℕ → Outcome Mem
copy_out m addr [] = ok m
copy_out m addr (b ∷ bs) = do m1 ← write_byte m addr b; copy_out m1 (wrap (addr + 1)) bs

-- the loops over the bytes of a mapping, from an offset
host_in : (ℕ → ℕ) → ℕ → List ℕ → List ℕ
host_in mapping offset [] = []
host_in mapping offset (_ ∷ bs) = mapping offset ∷ host_in mapping (offset + 1) bs

host_out : (ℕ → ℕ) → ℕ → List ℕ → ℕ → ℕ
host_out mapping offset [] = mapping
host_out mapping offset (b ∷ bs) = host_out (update mapping offset b) (offset + 1) bs

-- an access to an address of a mapping
unfoldable pub mapped_access : MemCmd → Mmap → ℕ → List ℕ → MdFault × List ℕ × Mmap
unfolding bounds_check host_in host_out
mapped_access read mp addr buffer =
    if not (bounds_check mp addr (length buffer))
    then (fault_segfault, buffer, mp)
    else if not mp.prot_read
    then (fault_access, buffer, mp)
    else (fault_none, host_in mp.mapping (addr - mp.base_address) buffer, mp)
mapped_access write mp addr buffer =
    if not (bounds_check mp addr (length buffer))
    then (fault_segfault, buffer, mp)
    else if not mp.prot_write
    then (fault_access, buffer, mp)
    else (
      fault_none,
      buffer,
      record mp { mapping = host_out mp.mapping (addr - mp.base_address) buffer },
    )

-- the loop over memory_map: the first mapping that the address is within, or nothing
unfoldable pub search_map : MemCmd → List Mmap → ℕ → List ℕ → Option (MdFault × List ℕ × List Mmap)
unfolding mapped_access
search_map cmd [] addr buffer = none
search_map cmd (mp ∷ rest) addr buffer =
    if is_within mp.base_address mp.size addr
    then (let (f, buffer1, mp1) = mapped_access cmd mp addr buffer in some (f, buffer1, mp1 ∷ rest))
    else elim (search_map cmd rest addr buffer) [
      | none ↦ none
      | some (f, buffer1, rest1) ↦ some (f, buffer1, mp ∷ rest1)
    ]

-- the copy from or to the pages
unfoldable pub page_access : MemCmd → Mem → ℕ → List ℕ → Access
unfolding copy_in copy_out
page_access read m addr buffer = do (bytes, m1) ← copy_in m addr buffer; ok (fault_none, bytes, m1)
page_access write m addr buffer = do m1 ← copy_out m addr buffer; ok (fault_none, buffer, m1)

-- what mem_access and mem_access_direct do after their checks
unfoldable pub access_any : MemCmd → Mem → ℕ → List ℕ → Access
unfolding search_map page_access
access_any cmd m addr buffer = elim (search_map cmd m.memory_map addr buffer) [
  | some (f, buffer1, map1) ↦ ok (f, buffer1, record m { memory_map = map1 })
  | none ↦ page_access cmd m addr buffer
]

-- nbytes - 1 as a mask of 64 bits
abbrev pub mask : ℕ → ℕ
mask nbytes = (nbytes + (2 ^ 64 - 1)) % 2 ^ 64

-- the check of the size: a power of two, of a page at most
abbrev pub size_fault : ℕ → Bool
size_fault nbytes = not (bit_and nbytes (mask nbytes) == 0) || ltb (2 ^ 13) nbytes

-- mem_t::mem_access_direct
unfoldable mem_access_direct : MemCmd → Mem → ℕ → List ℕ → Access
unfolding access_any
mem_access_direct cmd m addr buffer =
    if size_fault (length buffer)
    then ok (fault_access, buffer, m)
    else access_any cmd m addr buffer

-- mem_t::mem_access
unfoldable pub mem_access : MemCmd → Mem → ℕ → List ℕ → Access
unfolding access_any
mem_access cmd m addr buffer =
    if size_fault (length buffer)
    then ok (fault_access, buffer, m)
    else if not (bit_and addr (mask (length buffer)) == 0)
    then ok (fault_alignment, buffer, m)
    else access_any cmd m addr buffer

-- the fault of an access of one byte, the byte and the memory
unfoldable pub one_byte : MemCmd → Mem → ℕ → ℕ → Outcome (MdFault × ℕ × Mem)
unfolding mem_access
one_byte cmd m addr b = do
  (f, buffer, m1) ← mem_access cmd m addr (b ∷ [])
  ok (f, elim buffer [ [] ↦ b | c ∷ _ ↦ c ], m1)

-- how often `while(nbytes-- > 0)` goes round, for an int given as 32 bits
abbrev pub int_rounds : ℕ → ℕ
int_rounds nbytes = if ltb (nbytes % 2 ^ 32) (2 ^ 31) then nbytes % 2 ^ 32 else 0

-- the loop of mem_t::mem_bcopy: the rest of the bytes is as it was where an access faults
unfoldable pub copy_bytes : MemCmd → Mem → ℕ → List ℕ → Access
unfolding one_byte
copy_bytes cmd m addr [] = ok (fault_none, [], m)
copy_bytes cmd m addr (b ∷ bs) = do
  (f, c, m1) ← one_byte cmd m addr b
  elim f [
    | fault_none ↦ do (g, rest, m2) ← copy_bytes cmd m1 (wrap (addr + 1)) bs; ok (g, c ∷ rest, m2)
    | other ↦ ok (other, c ∷ bs, m1)
  ]

-- mem_t::mem_bcopy, from or to the beginning of a buffer that is long enough
unfoldable pub mem_bcopy : MemCmd → Mem → ℕ → (buffer : List ℕ) → (nbytes : ℕ) → Access
unfolding copy_bytes
mem_bcopy cmd m addr buffer nbytes = do
  assert (leb (int_rounds nbytes) (length buffer))
  (f, copied, m1) ← copy_bytes cmd m addr (take (int_rounds nbytes) buffer)
  ok (f, copied ++ drop (int_rounds nbytes) buffer, m1)

-- the loop of mem_t::mem_bzero
unfoldable pub zero_bytes : Mem → ℕ → (rounds : ℕ) → Outcome (MdFault × Mem)
unfolding one_byte
zero_bytes m addr zero = ok (fault_none, m)
zero_bytes m addr (suc rounds) = do
  (f, _, m1) ← one_byte write m addr 0
  elim f [ fault_none ↦ zero_bytes m1 (wrap (addr + 1)) rounds | other ↦ ok (other, m1) ]

-- mem_t::mem_bzero
unfoldable pub mem_bzero : Mem → ℕ → (nbytes : ℕ) → Outcome (MdFault × Mem)
unfolding zero_bytes
mem_bzero m addr nbytes = zero_bytes m addr (int_rounds nbytes)

-- mem_t::mem_strcpy, write: up to the first NUL, which behind the end of the string is there too
unfoldable pub write_string : Mem → ℕ → List ℕ → Outcome (MdFault × Mem)
unfolding one_byte
write_string m addr [] = do (f, _, m1) ← one_byte write m addr 0; ok (f, m1)
write_string m addr (c ∷ s) = do
  (f, _, m1) ← one_byte write m addr c
  elim f [
    | fault_none ↦ elim (c == 0) [
      | true ↦ ok (fault_none, m1)
      | false ↦ write_string m1 (wrap (addr + 1)) s
    ]
    | other ↦ ok (other, m1)
  ]

-- mem_t::mem_strcpy, Read: the NUL is appended before it is tested for, so the string has it as well.
-- Nothing if the fuel ran out
unfoldable pub read_string :
    (fuel : ℕ) → Mem → ℕ → List ℕ → Outcome (Option (MdFault × List ℕ × Mem))
unfolding one_byte
read_string zero m addr s = ok none
read_string (suc fuel) m addr s = do
  (f, c, m1) ← one_byte read m addr 0
  elim f [
    | fault_none ↦ elim (c == 0) [
      | true ↦ ok (some (fault_none, s ++ (c ∷ []), m1))
      | false ↦ read_string fuel m1 (wrap (addr + 1)) (s ++ (c ∷ []))
    ]
    | other ↦ ok (some (other, s, m1))
  ]
