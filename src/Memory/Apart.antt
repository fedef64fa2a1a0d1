-- ===== src/Memory/Apart.antt =====
-- Ranges of addresses apart from the pages of the mappings, and the test of has_room.
use smt_register_capping.Base.{
  ℕ, zero, suc, ◌+◌, ◌-◌, ◌*◌, ◌/◌, ◌%◌, ◌^◌, ◌<◌, ◌≤◌, true, false, ltb, List, [], ◌∷◌, ◌≡◌, refl,
  sym, ap, inl, inr, subst, Bool-cases, arith,
}
use native.Mathlib.Decide.{dec_lt}
use smt_register_capping.Memory.{Mem, Mmap}
use smt_register_capping.Memory.Mapping.{
  wrap, is_within, page_bound, meets, bounds_verify, has_room,
}

abbrev pub OnPage : ℕ → Type 0
OnPage addr = addr % 2 ^ 13 ≡ 0

-- the end of the last page of a mapping, without a wrap
abbrev page_end : Mmap → ℕ
page_end mp = (mp.base_address + mp.size + (2 ^ 13 - 1)) / 2 ^ 13 * 2 ^ 13

-- each mapping begins at a page and ends before the last page of the address space
abbrev pub AllOnPage : List Mmap → Type 0
AllOnPage [] = Unit {0}
AllOnPage (mp ∷ maps) =
    OnPage mp.base_address × (mp.base_address + mp.size + 2 ^ 13 ≤ 2 ^ 64) × AllOnPage maps

-- no address of a page of these mappings is one of the len from addr on
abbrev Apart : List Mmap → (addr len : ℕ) → Type 0
Apart [] addr len = Unit {0}
Apart (mp ∷ maps) addr len =
    ((x : ℕ) → mp.base_address ≤ x → x < page_end mp → is_within addr len x ≡ false)
    × Apart maps addr len

-- the pages that the loop of bounds_verify tests stand for all their addresses
meets-false :
    (fuel base size check bound x : ℕ)
    → meets fuel base size check bound ≡ false
    → OnPage base
    → OnPage check
    → bound < 2 ^ 64
    → bound ≤ check + fuel * 2 ^ 13
    → check ≤ x
    → x < bound
    → is_within base size x ≡ false
unfolding meets is_within
meets-false zero base size check bound x h p q small enough lo hi = absurd (omega arith)
meets-false (suc fuel) base size check bound x h p q small enough lo hi =
    let inside : ltb check bound ≡ true = ground arith in
    elim (Bool-cases (is_within base size check)) [
      | inl e ↦ absurd (ground arith)
      | inr e ↦ elim (dec_lt x (check + 2 ^ 13)) [
        | yes here ↦ ground arith
        | no beyond ↦
            let plain : wrap (check + 2 ^ 13) ≡ check + 2 ^ 13 = omega arith in
            let rest : meets fuel base size (wrap (check + 2 ^ 13)) bound ≡ false = ground arith in
            meets-false fuel base size (wrap (check + 2 ^ 13)) bound x rest p (omega arith) small
              (omega arith) (omega arith) hi
      ]
    ]

-- an apart range meets no page
meets-apart :
    (fuel base size check bound : ℕ)
    → bound + 2 ^ 13 ≤ 2 ^ 64
    → ((x : ℕ) → check ≤ x → x < bound → is_within base size x ≡ false)
    → meets fuel base size check bound ≡ false
unfolding meets
meets-apart zero base size check bound small apart = refl
meets-apart (suc fuel) base size check bound small apart = elim (dec_lt check bound) [
  | no past ↦ let outside : ltb check bound ≡ false = ground arith in rw outside refl
  | yes lt ↦
      let inside : ltb check bound ≡ true = ground arith in
      rw inside (
        rw (apart check (omega arith) lt) (
          meets-apart fuel base size (wrap (check + 2 ^ 13)) bound small
            (λ x lo hi. apart x (omega arith) hi)))
]

pub small_mod : (n : ℕ) → n < 2 ^ 64 → wrap n ≡ n
small_mod n lt = omega (arith, lt)

page_bound-page_end :
    (mp : Mmap) → mp.base_address + mp.size + 2 ^ 13 ≤ 2 ^ 64 → page_bound mp ≡ page_end mp
page_bound-page_end mp fits =
    ap (λ n. n / 2 ^ 13 * 2 ^ 13)
      (small_mod (mp.base_address + mp.size + (2 ^ 13 - 1)) (omega arith))

bounds_verify-Apart :
    (maps : List Mmap) (addr len : ℕ)
    → bounds_verify maps addr len ≡ true
    → OnPage addr
    → AllOnPage maps
    → Apart maps addr len
unfolding bounds_verify
bounds_verify-Apart [] addr len h p all = tt
bounds_verify-Apart (mp ∷ maps) addr len h p (q, fits, all) =
    let free : meets (page_bound mp / 2 ^ 13 + 1) addr len mp.base_address (page_bound mp) ≡ false =
      ground arith in
    (
      λ x lo hi.
          meets-false (page_bound mp / 2 ^ 13 + 1) addr len mp.base_address (page_bound mp) x free p
            q (omega arith) (omega arith) lo
            (subst (λ n. x < n) (sym (page_bound-page_end mp fits)) hi),
      bounds_verify-Apart maps addr len (ground arith) p all,
    )

Apart-bounds_verify :
    (maps : List Mmap) (addr len : ℕ)
    → Apart maps addr len
    → AllOnPage maps
    → bounds_verify maps addr len ≡ true
unfolding bounds_verify
Apart-bounds_verify [] addr len apart all = refl
Apart-bounds_verify (mp ∷ maps) addr len (here, apart) (q, fits, all) =
    let free : meets (page_bound mp / 2 ^ 13 + 1) addr len mp.base_address (page_bound mp) ≡ false =
      meets-apart (page_bound mp / 2 ^ 13 + 1) addr len mp.base_address (page_bound mp)
        (omega arith)
        (λ x lo hi. here x lo (subst (λ n. x < n) (page_bound-page_end mp fits) hi)) in
    rw (free, Apart-bounds_verify maps addr len apart all) refl

-- Room at an address: the mappings of both lists are apart from the len bytes there.
pub record Room (m : Mem) (addr len : ℕ) : Type 0 where
  pub host : Apart m.memory_map addr len
  pub internal : Apart m.internal_map addr len

module _ (m : Mem) (len : ℕ) (hosts : AllOnPage m.memory_map)
    (internals : AllOnPage m.internal_map) where
  pub has_room-Room : (addr : ℕ) → has_room m addr len ≡ true → OnPage addr → Room m addr len
  unfolding has_room
  has_room-Room addr h p = record {
    host = bounds_verify-Apart m.memory_map addr len (ground arith) p hosts;
    internal = bounds_verify-Apart m.internal_map addr len (ground arith) p internals;
  }

  pub Room-has_room : (addr : ℕ) → Room m addr len → has_room m addr len ≡ true
  unfolding has_room
  Room-has_room addr r =
      rw
        (
          Apart-bounds_verify m.memory_map addr len r.host hosts,
          Apart-bounds_verify m.internal_map addr len r.internal internals,
        )
        refl
