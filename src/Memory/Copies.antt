-- ===== src/Memory/Copies.antt =====
-- The copies of memory.c over addresses that no mapping takes, as blocks of bytes of the flat memory.
use smt_register_capping.Base.{
  ltb, leb, ◌%◌, take-append, drop-append, length-append, ℕ, zero, suc, ◌+◌, ◌^◌, ◌<◌, ◌≤◌, true,
  false, ◌==◌, List, [], ◌∷◌, ◌++◌, some, ok, ◌>>=◌, ◌≡◌, ◌≢◌, refl, sym, ap, ◌∙◌, length,
  replicate, length-replicate, arith, subst,
}
use mathlib.Core.List.{append_assoc}
use smt_register_capping.Memory.{Mem, write_byte}
use smt_register_capping.Memory.Mapping.{wrap}
use smt_register_capping.Memory.Access.{
  MemCmd, read, write, fault_none, page_access, mem_access, copy_in, copy_out, one_byte, int_rounds,
  copy_bytes, zero_bytes, mem_bcopy, mem_bzero, write_string, read_string,
}
use smt_register_capping.Memory.Flat.{
  byte_at, Same, Written, write_byte-Written, read_byte-byte_at, trans-Same, refl-Same,
}
use smt_register_capping.Memory.Blocks.{
  bytes_from, Block, copy_out-Block, bytes_from-Block, Same-bytes_from,
}
use smt_register_capping.Memory.Faults.{unmapped, mem_access-aligned}

-- no mapping of the host takes a byte of the block
abbrev Free : Mem → (addr n : ℕ) → Type 0
Free m addr n = (i : ℕ) → i < n → unmapped m.memory_map (wrap (addr + i)) ≡ true

Free-head :
    (m : Mem) (addr n : ℕ) → addr < 2 ^ 64 → Free m addr (suc n) → unmapped m.memory_map addr ≡ true
Free-head m addr n lt free =
    let here : wrap (addr + 0) ≡ addr = omega arith in
    ap (unmapped m.memory_map) (sym here) ∙ free 0 (omega arith)

Free-tail :
    (m m' : Mem) (addr n : ℕ)
    → m'.memory_map ≡ m.memory_map
    → Free m addr (suc n)
    → Free m' (wrap (addr + 1)) n
Free-tail m m' addr n kept free i lt =
    let next : wrap (wrap (addr + 1) + i) ≡ wrap (addr + suc i) = omega arith in
    ap (λ maps. unmapped maps (wrap (wrap (addr + 1) + i))) kept
    ∙ ap (unmapped m.memory_map) next
    ∙ free (suc i) (omega arith)

one_byte-page :
    (cmd : MemCmd) (m : Mem) (addr b : ℕ)
    → unmapped m.memory_map addr ≡ true
    → mem_access cmd m addr (b ∷ []) ≡ page_access cmd m addr (b ∷ [])
one_byte-page cmd m addr b free =
    mem_access-aligned 0 cmd m addr (b ∷ []) (omega arith) refl (omega arith) free

write_one :
    (m : Mem) (addr b : ℕ)
    → unmapped m.memory_map addr ≡ true
    → (m1 : Mem) × (one_byte write m addr b ≡ ok (fault_none, b, m1))
      × (write_byte m addr b ≡ ok m1)
      × Written m addr b m1
unfolding one_byte page_access copy_out
write_one m addr b free =
    let (m1, wrote, written) = write_byte-Written m addr b in
    (m1, rw (one_byte-page write m addr b free, wrote, one_byte) refl, wrote, written)

read_one :
    (m : Mem) (addr b : ℕ)
    → unmapped m.memory_map addr ≡ true
    → (m1 : Mem) × (one_byte read m addr b ≡ ok (fault_none, byte_at m addr, m1)) × Same m m1
unfolding one_byte page_access copy_in
read_one m addr b free =
    let (m1, got, same) = read_byte-byte_at m addr in
    (m1, rw (one_byte-page read m addr b free, got, one_byte) refl, same)

-- mem_bcopy to the pages is the plain loop of writes
copy_bytes-copy_out :
    (m : Mem) (addr : ℕ) (bs : List ℕ) (m' : Mem)
    → addr < 2 ^ 64
    → Free m addr (length bs)
    → copy_out m addr bs ≡ ok m'
    → copy_bytes write m addr bs ≡ ok (fault_none, bs, m')
unfolding copy_bytes copy_out
copy_bytes-copy_out m addr [] m' lt free h = ground arith
copy_bytes-copy_out m addr (b ∷ bs) m' lt free h =
    let (m1, one, wrote, written) = write_one m addr b (Free-head m addr (length bs) lt free) in
    let rest =
      copy_bytes-copy_out m1 (wrap (addr + 1)) bs m' (omega arith)
        (Free-tail m m1 addr (length bs) written.mapped free) (rw (wrote, copy_out) at h) in
    rw (one, copy_bytes) (rw rest refl)

copy_bytes-bytes_from :
    (m : Mem) (addr : ℕ) (buffer : List ℕ)
    → addr < 2 ^ 64
    → Free m addr (length buffer)
    → (m' : Mem) × (copy_bytes read m addr buffer
        ≡ ok (fault_none, bytes_from m addr (length buffer), m'))
      × Same m m'
unfolding copy_bytes
copy_bytes-bytes_from m addr [] lt free = (m, refl, refl-Same m)
copy_bytes-bytes_from m addr (b ∷ buffer) lt free =
    let (m1, one, same) = read_one m addr b (Free-head m addr (length buffer) lt free) in
    let (m2, rest, t) =
      copy_bytes-bytes_from m1 (wrap (addr + 1)) buffer (omega arith)
        (Free-tail m m1 addr (length buffer) same.mapped free) in
    let seen = Same-bytes_from m m1 (wrap (addr + 1)) (length buffer) same in
    (
      m2,
      rw (one, copy_bytes) (rw rest (ap (λ bs. ok (fault_none, byte_at m addr ∷ bs, m2)) seen)),
      trans-Same _ _ _ same t,
    )

-- mem_bzero is a copy of zeros
zero_bytes-copy_out :
    (m : Mem) (addr n : ℕ) (m' : Mem)
    → addr < 2 ^ 64
    → Free m addr n
    → copy_out m addr (replicate n 0) ≡ ok m'
    → zero_bytes m addr n ≡ ok (fault_none, m')
unfolding zero_bytes copy_out
zero_bytes-copy_out m addr zero m' lt free h = ground arith
zero_bytes-copy_out m addr (suc n) m' lt free h =
    let (m1, one, wrote, written) = write_one m addr 0 (Free-head m addr n lt free) in
    let rest =
      zero_bytes-copy_out m1 (wrap (addr + 1)) n m' (omega arith)
        (Free-tail m m1 addr n written.mapped free) (rw (wrote, copy_out) at h) in
    rw (one, zero_bytes) rest

-- a string without NUL
abbrev Terminated : List ℕ → Type 0
Terminated [] = Unit {0}
Terminated (c ∷ s) = (c ≢ 0) × Terminated s

write_string-copy_out :
    (m : Mem) (addr : ℕ) (s : List ℕ) (m' : Mem)
    → addr < 2 ^ 64
    → Terminated s
    → Free m addr (suc (length s))
    → copy_out m addr (s ++ (0 ∷ [])) ≡ ok m'
    → write_string m addr s ≡ ok (fault_none, m')
unfolding write_string copy_out
write_string-copy_out m addr [] m' lt t free h =
    let (m1, one, wrote, written) = write_one m addr 0 (Free-head m addr 0 lt free) in
    let same = rw (wrote, copy_out) at h in
    rw (one, write_string) (ap (λ r. r >>= λ m2. ok (fault_none, m2)) same)
write_string-copy_out m addr (c ∷ s) m' lt (ne, t) free h =
    let (m1, one, wrote, written) =
      write_one m addr c (Free-head m addr (suc (length s)) lt free) in
    let rest =
      write_string-copy_out m1 (wrap (addr + 1)) s m' (omega arith) t
        (Free-tail m m1 addr (suc (length s)) written.mapped free) (rw (wrote, copy_out) at h) in
    let more : (c == 0) ≡ false = ground arith in rw one (ground arith)

-- reading a string that stands in memory: enough fuel is its length and the NUL
read_string-bytes_from :
    (s : List ℕ) (fuel : ℕ) (m : Mem) (addr : ℕ) (before : List ℕ)
    → addr < 2 ^ 64
    → Terminated s
    → Free m addr (suc (length s))
    → bytes_from m addr (suc (length s)) ≡ s ++ (0 ∷ [])
    → length s < fuel
    → (m' : Mem) × (read_string fuel m addr before
        ≡ ok (some (fault_none, before ++ (s ++ (0 ∷ [])), m')))
      × Same m m'
unfolding read_string
read_string-bytes_from s zero m addr before lt t free h enough = absurd (omega arith)
read_string-bytes_from [] (suc fuel) m addr before lt t free h enough =
    let (m1, one, same) = read_one m addr 0 (Free-head m addr 0 lt free) in
    let nul : byte_at m addr ≡ 0 = ground arith in (m1, rw (one, read_string) (rw nul refl), same)
read_string-bytes_from (c ∷ s) (suc fuel) m addr before lt (ne, t) free h enough =
    let (m1, one, same) = read_one m addr 0 (Free-head m addr (suc (length s)) lt free) in
    let here : byte_at m addr ≡ c = cc in
    let behind : bytes_from m (wrap (addr + 1)) (suc (length s)) ≡ s ++ (0 ∷ []) = cc in
    let more : (c == 0) ≡ false = ground arith in
    let (m2, rest, u) =
      read_string-bytes_from s fuel m1 (wrap (addr + 1)) (before ++ (c ∷ [])) (omega arith) t
        (Free-tail m m1 addr (suc (length s)) same.mapped free)
        (Same-bytes_from m m1 (wrap (addr + 1)) (suc (length s)) same ∙ behind) (omega arith) in
    let one' : one_byte read m addr 0 ≡ ok (fault_none, c, m1) =
      one ∙ ap (λ x. ok (fault_none, x, m1)) here in
    let next : read_string fuel m1 (wrap (addr + 1)) (before ++ (c ∷ []))
        ≡ ok (some (fault_none, before ++ (c ∷ (s ++ (0 ∷ []))), m2)) =
      rest
      ∙ ap (λ t. ok (some (fault_none, t, m2))) (append_assoc before (c ∷ []) (s ++ (0 ∷ []))) in
    (m2, rw one' (ground arith), trans-Same _ _ _ same u)

int_rounds-small : (n : ℕ) → n < 2 ^ 31 → int_rounds n ≡ n
int_rounds-small n small =
    let whole : n % 2 ^ 32 ≡ n = omega arith in
    let positive : ltb n (2 ^ 31) ≡ true = ground arith in rw whole (rw positive refl)

-- mem_bcopy of the first bytes of a buffer
mem_bcopy-copy_bytes :
    (cmd : MemCmd) (m m' : Mem) (addr : ℕ) (bytes rest out : List ℕ)
    → length bytes < 2 ^ 31
    → copy_bytes cmd m addr bytes ≡ ok (fault_none, out, m')
    → mem_bcopy cmd m addr (bytes ++ rest) (length bytes) ≡ ok (fault_none, out ++ rest, m')
unfolding mem_bcopy
mem_bcopy-copy_bytes cmd m m' addr bytes rest out small run =
    let rounds = int_rounds-small (length bytes) small in
    let fits : leb (length bytes) (length (bytes ++ rest)) ≡ true =
      ground (arith, length-append bytes rest) in
    rw rounds (rw fits (rw (take-append bytes rest, drop-append bytes rest) (rw run refl)))

-- Fewer than 2^31 bytes copied from the beginning of a buffer to addresses that no mapping takes,
-- aligned or not, and copied back to the beginning of another buffer: neither copy has a fault, the
-- first sets these bytes of the memory and no others, and the second gives the bytes, leaves the rest
-- of its buffer and changes no byte of the memory.
pub mem_bcopy-roundtrip :
    (m : Mem) (addr : ℕ) (bytes buffer rest rest' : List ℕ)
    → addr < 2 ^ 64
    → length bytes < 2 ^ 31
    → length buffer ≡ length bytes
    → Free m addr (length bytes)
    → (m1 : Mem) × (m2 : Mem) × (mem_bcopy write m addr (bytes ++ rest) (length bytes)
        ≡ ok (fault_none, bytes ++ rest, m1))
      × (mem_bcopy read m1 addr (buffer ++ rest') (length bytes)
          ≡ ok (fault_none, bytes ++ rest', m2))
      × Block m addr bytes m1
      × Same m1 m2
mem_bcopy-roundtrip m addr bytes buffer rest rest' lt small size free =
    let (m1, wrote, block) = copy_out-Block m addr bytes lt (omega (arith, small)) in
    let free1 : Free m1 addr (length buffer) = λ i inside.
      ap (λ maps. unmapped maps (wrap (addr + i))) block.mapped ∙ free i (omega arith) in
    let (m2, got, same) = copy_bytes-bytes_from m1 addr buffer lt free1 in
    let stored = bytes_from-Block m addr bytes m1 lt (omega (arith, small)) block in
    let back : copy_bytes read m1 addr buffer ≡ ok (fault_none, bytes, m2) =
      got
      ∙ ap (λ n. ok (fault_none, bytes_from m1 addr n, m2)) size
      ∙ ap (λ bs. ok (fault_none, bs, m2)) stored in
    (
      m1,
      m2,
      mem_bcopy-copy_bytes write m m1 addr bytes rest bytes small
          (copy_bytes-copy_out m addr bytes m1 lt free wrote),
      subst (λ n. mem_bcopy read m1 addr (buffer ++ rest') n ≡ ok (fault_none, bytes ++ rest', m2))
          size
          (mem_bcopy-copy_bytes read m1 m2 addr buffer rest' bytes (omega (arith, small, size))
            back),
      block,
      same,
    )

-- mem_bzero over fewer than 2^31 addresses that no mapping takes has no fault, and sets these bytes to
-- zero and no others.
mem_bzero-Block :
    (m : Mem) (addr n : ℕ)
    → addr < 2 ^ 64
    → n < 2 ^ 31
    → Free m addr n
    → (m' : Mem) × (mem_bzero m addr n ≡ ok (fault_none, m')) × Block m addr (replicate n 0) m'
unfolding mem_bzero
mem_bzero-Block m addr n lt small free =
    let size : length (replicate n 0) ≡ n = length-replicate n 0 in
    let (m', wrote, block) =
      copy_out-Block m addr (replicate n 0) lt
        (subst (λ k. k ≤ 2 ^ 64) (sym size) (omega (arith, small))) in
    (
      m',
      ap (zero_bytes m addr) (int_rounds-small n small)
          ∙ zero_bytes-copy_out m addr n m' lt free wrote,
      block,
    )

-- A string without a NUL, shorter than 2^64, written by mem_strcpy to addresses that no mapping takes:
-- the string and a NUL are set and no other byte, and mem_strcpy ends with any fuel above the length,
-- reads the string back with the NUL behind it, and changes no byte.
pub read_string-write_string :
    (m : Mem) (addr : ℕ) (s : List ℕ) (fuel : ℕ)
    → addr < 2 ^ 64
    → length s < 2 ^ 64
    → Terminated s
    → Free m addr (length s + 1)
    → length s < fuel
    → (m1 : Mem) × (m2 : Mem) × (write_string m addr s ≡ ok (fault_none, m1))
      × (read_string fuel m1 addr [] ≡ ok (some (fault_none, s ++ (0 ∷ []), m2)))
      × Block m addr (s ++ (0 ∷ [])) m1
      × Same m1 m2
read_string-write_string m addr s fuel lt small t free enough =
    let size : length (s ++ (0 ∷ [])) ≡ suc (length s) = omega (arith, length-append s (0 ∷ [])) in
    let (m1, wrote, block) = copy_out-Block m addr (s ++ (0 ∷ [])) lt (omega arith) in
    let stored : bytes_from m1 addr (suc (length s)) ≡ s ++ (0 ∷ []) =
      ap (bytes_from m1 addr) (sym size)
      ∙ bytes_from-Block m addr (s ++ (0 ∷ [])) m1 lt (omega arith) block in
    let free1 : Free m1 addr (suc (length s)) = λ i inside.
      ap (λ maps. unmapped maps (wrap (addr + i))) block.mapped ∙ free i (omega arith) in
    let (m2, got, same) = read_string-bytes_from s fuel m1 addr [] lt t free1 stored enough in
    (
      m1,
      m2,
      write_string-copy_out m addr s m1 lt t (λ i inside. free i (omega arith)) wrote,
      got,
      block,
      same,
    )
