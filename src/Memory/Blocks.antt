-- ===== src/Memory/Blocks.antt =====
-- Blocks of bytes of the flat memory: what the copy loops of memory.c read and write, from an address
-- on, which may wrap around.
use smt_register_capping.Base.{
  ℕ, zero, suc, ◌+◌, ◌-◌, ◌^◌, ◌<◌, ◌≤◌, true, false, ltb, ◌==◌, if◌then◌else◌, List, [], ◌∷◌, ok,
  ◌≡◌, ◌≢◌, refl, sym, ap, ◌∙◌, inl, inr, Bool-cases, length, get_or, arith,
}
use smt_register_capping.Memory.{Mem}
use smt_register_capping.Memory.Mapping.{wrap}
use smt_register_capping.Memory.Access.{copy_in, copy_out}
use smt_register_capping.Memory.Flat.{
  byte_at, Same, read_byte-byte_at, write_byte-Written, Same-byte_at, trans-Same, refl-Same,
}

-- the n bytes from an address on
abbrev pub bytes_from : Mem → ℕ → (n : ℕ) → List ℕ
bytes_from m addr zero = []
bytes_from m addr (suc n) = byte_at m addr ∷ bytes_from m (wrap (addr + 1)) n

pub Same-bytes_from :
    (m m' : Mem) (addr n : ℕ) → Same m m' → bytes_from m' addr n ≡ bytes_from m addr n
Same-bytes_from m m' addr zero s = refl
Same-bytes_from m m' addr (suc n) s =
    rw (Same-byte_at m m' s addr, Same-bytes_from m m' (wrap (addr + 1)) n s) refl

-- a loop of reads gives them
pub copy_in-bytes_from :
    (m : Mem) (addr : ℕ) (buffer : List ℕ)
    → (m' : Mem) × (copy_in m addr buffer ≡ ok (bytes_from m addr (length buffer), m')) × Same m m'
unfolding copy_in
copy_in-bytes_from m addr [] = (m, refl, refl-Same m)
copy_in-bytes_from m addr (b ∷ buffer) =
    let (m1, first, s) = read_byte-byte_at m addr in
    let (m2, rest, t) = copy_in-bytes_from m1 (wrap (addr + 1)) buffer in
    (
      m2,
      rw (first, copy_in)
          (rw (rest, Same-bytes_from m m1 (wrap (addr + 1)) (length buffer) s) refl),
      trans-Same _ _ _ s t,
    )

-- how far an address lies behind another one
abbrev distance : ℕ → ℕ → ℕ
distance addr b = wrap (b + (2 ^ 64 - addr))

-- The bytes of a memory after a block was written from an address on: the block's, and the old ones.
pub record Block (m : Mem) (addr : ℕ) (bs : List ℕ) (m' : Mem) : Type 0 where
  pub bytes :
      (b : ℕ)
      → b < 2 ^ 64
      → byte_at m' b
        ≡ (if ltb (distance addr b) (length bs) then get_or bs (distance addr b) 0 else byte_at m b)
  pub mapped : m'.memory_map ≡ m.memory_map
  pub internal : m'.internal_map ≡ m.internal_map

-- one byte in front of a block
block_front :
    (x d d' old : ℕ) (xs : List ℕ)
    → d ≡ 0
    → length xs ≤ d'
    → (if ltb d' (length xs) then get_or xs d' 0 else x)
      ≡ (if ltb d (length (x ∷ xs)) then get_or (x ∷ xs) d 0 else old)
block_front x d d' old xs e l =
    rw e (let out : ltb d' (length xs) ≡ false = ground arith in rw out (ground arith))

block_tail :
    (x d d' old : ℕ) (xs : List ℕ)
    → d ≡ suc d'
    → (if ltb d' (length xs) then get_or xs d' 0 else old)
      ≡ (if ltb d (length (x ∷ xs)) then get_or (x ∷ xs) d 0 else old)
block_tail x d d' old xs e = rw e (elim (Bool-cases (ltb d' (length xs))) [
  | inl inside ↦
      let inside' : ltb (suc d') (suc (length xs)) ≡ true = ground arith in
      rw (inside, inside') refl
  | inr out ↦
      let out' : ltb (suc d') (suc (length xs)) ≡ false = ground arith in rw (out, out') refl
])

block_step :
    (addr x b old : ℕ) (xs : List ℕ)
    → addr < 2 ^ 64
    → b < 2 ^ 64
    → length xs < 2 ^ 64
    → (if ltb (distance (wrap (addr + 1)) b) (length xs)
        then get_or xs (distance (wrap (addr + 1)) b) 0
        else if b == addr
        then x
        else old)
      ≡ (if ltb (distance addr b) (length (x ∷ xs))
          then get_or (x ∷ xs) (distance addr b) 0
          else old)
block_step addr x b old xs p q l = elim (Bool-cases (b == addr)) [
  | inl e ↦
      let same : b ≡ addr = ground arith in
      rw e (
        block_front x (distance addr b) (distance (wrap (addr + 1)) b) old xs (omega arith)
          (omega arith))
  | inr e ↦
      let other : b ≢ addr = ground arith in
      rw e (block_tail x (distance addr b) (distance (wrap (addr + 1)) b) old xs (omega arith))
]

-- a loop of writes writes the block
pub copy_out-Block :
    (m : Mem) (addr : ℕ) (bs : List ℕ)
    → addr < 2 ^ 64
    → length bs ≤ 2 ^ 64
    → (m' : Mem) × (copy_out m addr bs ≡ ok m') × Block m addr bs m'
unfolding copy_out
copy_out-Block m addr [] p l =
    (m, refl, record { bytes = λ b q. ground arith; mapped = refl; internal = refl })
copy_out-Block m addr (x ∷ xs) p l =
    let (m1, first, w) = write_byte-Written m addr x in
    let (m2, rest, t) = copy_out-Block m1 (wrap (addr + 1)) xs (omega arith) (omega arith) in
    (
      m2,
      rw (first, copy_out) rest,
      record {
        bytes = λ b q.
            t.bytes b q ∙ rw (w.bytes b) (block_step addr x b (byte_at m b) xs p q (omega arith));
        mapped = t.mapped ∙ w.mapped;
        internal = t.internal ∙ w.internal;
      },
    )

bytes_from-pointwise :
    (m : Mem) (addr : ℕ) (xs : List ℕ)
    → addr < 2 ^ 64
    → ((i : ℕ) → i < length xs → byte_at m (wrap (addr + i)) ≡ get_or xs i 0)
    → bytes_from m addr (length xs) ≡ xs
bytes_from-pointwise m addr [] p h = refl
bytes_from-pointwise m addr (x ∷ xs) p h =
    let here : wrap (addr + 0) ≡ addr = omega arith in
    let head : byte_at m addr ≡ x = ap (byte_at m) (sym here) ∙ h 0 (omega arith) in
    let tail = bytes_from-pointwise m (wrap (addr + 1)) xs (omega arith) (λ i l.
      let next : wrap (wrap (addr + 1) + i) ≡ wrap (addr + suc i) = omega arith in
      ap (byte_at m) next ∙ h (suc i) (omega arith)) in
    rw (head, tail) refl

-- a block is read back as it was written
pub bytes_from-Block :
    (m : Mem) (addr : ℕ) (bs : List ℕ) (m' : Mem)
    → addr < 2 ^ 64
    → length bs ≤ 2 ^ 64
    → Block m addr bs m'
    → bytes_from m' addr (length bs) ≡ bs
bytes_from-Block m addr bs m' p l block = bytes_from-pointwise m' addr bs p (λ i inside.
    let here : distance addr (wrap (addr + i)) ≡ i = omega arith in
    let within : ltb i (length bs) ≡ true = ground arith in
    block.bytes (wrap (addr + i)) (omega arith) ∙ rw (here, within) refl)
