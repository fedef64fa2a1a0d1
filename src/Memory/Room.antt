-- ===== src/Memory/Room.antt =====
-- The search of mem_t::acquire_address for a page with room.
use smt_register_capping.Base.{
  ℕ, zero, suc, ◌+◌, ◌*◌, ◌^◌, ◌<◌, false, true, ◌==◌, if◌then◌else◌, some, ◌≡◌, refl, sym, ◌∙◌, ap,
  inl, inr, subst, Bool-cases, arith,
}
use smt_register_capping.Memory.{Mem}
use smt_register_capping.Memory.Mapping.{has_room, search_room, next_base, acquire_address}
use smt_register_capping.Memory.Apart.{
  OnPage, AllOnPage, Room, small_mod, has_room-Room, Room-has_room,
}

-- found is the first page with room, from the page start on
pub record First (m : Mem) (start len found : ℕ) : Type 0 where
  pub pages : ℕ
  pub place : found ≡ start + pages * 2 ^ 13
  pub room : Room m found len
  pub before : (i : ℕ) → i < pages → ¬ Room m (start + i * 2 ^ 13) len

First-here : (m : Mem) (start len : ℕ) → Room m start len → First m start len start
First-here m start len room = record {
  pages = 0;
  place = omega arith;
  room = room;
  before = λ i lt. absurd (omega (arith, lt));
}

First-next :
    (m : Mem) (start len found : ℕ)
    → ¬ Room m start len
    → First m (start + 2 ^ 13) len found
    → First m start len found
First-next m start len found full f = record {
  pages = suc f.pages;
  place = f.place ∙ omega arith;
  room = f.room;
  before = λ i lt. step i lt;
}
  where
    step : (i : ℕ) → i < suc f.pages → ¬ Room m (start + i * 2 ^ 13) len
    step zero lt r = full (subst (λ a. Room m a len) (omega arith) r)
    step (suc i) lt r = f.before i (omega arith) (subst (λ a. Room m a len) (omega arith) r)

module _ (m : Mem) (len : ℕ) (hosts : AllOnPage m.memory_map)
    (internals : AllOnPage m.internal_map) where
  full-Room : (addr : ℕ) → has_room m addr len ≡ false → ¬ Room m addr len
  full-Room addr e r = let yes' = Room-has_room m len hosts internals addr r in cc

  search_room-next :
      (fuel addr : ℕ)
      → has_room m addr len ≡ false
      → addr + 2 ^ 13 < 2 ^ 64
      → search_room (suc fuel) m addr len ≡ search_room fuel m (addr + 2 ^ 13) len
  unfolding search_room
  search_room-next fuel addr e small =
      rw e (ap (λ a. search_room fuel m a len) (small_mod (addr + 2 ^ 13) small))

  search_room-First :
      (fuel k addr : ℕ)
      → Room m (addr + k * 2 ^ 13) len
      → addr + k * 2 ^ 13 < 2 ^ 64
      → OnPage addr
      → k < fuel
      → (found : ℕ) × (search_room fuel m addr len ≡ some found) × First m addr len found
  unfolding search_room
  search_room-First zero k addr r small p lt = absurd (omega (arith, lt))
  search_room-First (suc fuel) zero addr r small p lt =
      let here : Room m addr len = subst (λ a. Room m a len) (omega arith) r in
      (addr, rw (Room-has_room m len hosts internals addr here) refl, First-here m addr len here)
  search_room-First (suc fuel) (suc k) addr r small p lt = elim (Bool-cases (has_room m addr len)) [
    | inl e ↦
        (addr, rw e refl, First-here m addr len (has_room-Room m len hosts internals addr e p))
    | inr e ↦
        let (found, run, f) =
          search_room-First fuel k (addr + 2 ^ 13) (subst (λ a. Room m a len) (omega arith) r)
            (omega arith) (omega arith) (omega arith) in
        (
          found,
          search_room-next fuel addr e (omega arith) ∙ run,
          First-next m addr len found (full-Room addr e) f,
        )
  ]

  acquire_address-next :
      (fuel base_addr addr : ℕ)
      → (addr == 0) ≡ false
      → has_room m addr len ≡ false
      → addr + 2 ^ 13 < 2 ^ 64
      → acquire_address (suc fuel) m base_addr addr len
        ≡ acquire_address fuel m base_addr (addr + 2 ^ 13) len
  unfolding acquire_address
  acquire_address-next fuel base_addr addr ne e small =
      rw (ne, e)
        (ap (λ a. acquire_address fuel m base_addr a len) (small_mod (addr + 2 ^ 13) small))

  acquire_address-from_base :
      (fuel base_addr addr found : ℕ)
      → (addr == 0) ≡ true
      → search_room fuel m base_addr len ≡ some found
      → acquire_address (suc fuel) m base_addr addr len ≡ some (found, next_base found len)
  unfolding acquire_address
  acquire_address-from_base fuel base_addr addr found e run = rw e (rw run refl)

  -- an address that is given, not 0
  given-First :
      (fuel k base_addr addr : ℕ)
      → (addr == 0) ≡ false
      → Room m (addr + k * 2 ^ 13) len
      → addr + k * 2 ^ 13 < 2 ^ 64
      → OnPage addr
      → k < fuel
      → (found : ℕ) × (acquire_address fuel m base_addr addr len ≡ some (found, base_addr))
        × First m addr len found
  unfolding acquire_address
  given-First zero k base_addr addr ne r small p lt = absurd (omega (arith, lt))
  given-First (suc fuel) zero base_addr addr ne r small p lt =
      let here : Room m addr len = subst (λ a. Room m a len) (omega arith) r in
      (
        addr,
        rw (ne, Room-has_room m len hosts internals addr here) refl,
        First-here m addr len here,
      )
  given-First (suc fuel) (suc k) base_addr addr ne r small p lt =
      elim (Bool-cases (has_room m addr len)) [
        | inl e ↦ (
          addr,
          rw (ne, e) refl,
          First-here m addr len (has_room-Room m len hosts internals addr e p),
        )
        | inr e ↦
            let (found, run, f) =
              given-First fuel k base_addr (addr + 2 ^ 13) (ground arith)
                (subst (λ a. Room m a len) (omega arith) r) (omega arith) (omega arith)
                (omega arith) in
            (
              found,
              acquire_address-next fuel base_addr addr ne e (omega arith) ∙ run,
              First-next m addr len found (full-Room addr e) f,
            )
      ]

  -- If every mapping, the address asked for and base_addr begin at pages, the mappings end before the
  -- last page of the address space, and a page of the address space has room for the len bytes, k pages
  -- behind the address asked for, or behind base_addr if that is 0, and the fuel is above k + 1, then
  -- mem_t::acquire_address returns the first such page: none of the mappings' pages has an address
  -- among the len from there, and no page before has room. If the address asked for is 0, base_addr
  -- becomes next_base of the result, else it stays, and it begins a page. (Of the len bytes, those past
  -- the end of the address space are not looked at.)
  pub acquire_address-First :
      (fuel k base_addr addr : ℕ)
      → OnPage base_addr
      → OnPage addr
      → Room m ((if addr == 0 then base_addr else addr) + k * 2 ^ 13) len
      → (if addr == 0 then base_addr else addr) + k * 2 ^ 13 < 2 ^ 64
      → k + 1 < fuel
      → (found : ℕ) × (base_addr' : ℕ) × (acquire_address fuel m base_addr addr len
          ≡ some (found, base_addr'))
        × First m (if addr == 0 then base_addr else addr) len found
        × (base_addr' ≡ (if addr == 0 then next_base found len else base_addr))
        × OnPage base_addr'
  acquire_address-First zero k base_addr addr p q r small lt = absurd (omega (arith, lt))
  acquire_address-First (suc fuel) k base_addr addr p q r small lt = elim (Bool-cases (addr == 0)) [
    | inl e ↦
        let start : (if addr == 0 then base_addr else addr) ≡ base_addr = rw e refl in
        let (found, run, f) =
          search_room-First fuel k base_addr (subst (λ a. Room m (a + k * 2 ^ 13) len) start r)
            (omega (arith, small, start)) p (omega (arith, lt)) in
        (
          found,
          next_base found len,
          acquire_address-from_base fuel base_addr addr found e run,
          subst (λ a. First m a len found) (sym start) f,
          rw e refl,
          omega arith,
        )
    | inr e ↦
        let start : (if addr == 0 then base_addr else addr) ≡ addr = rw e refl in
        let (found, run, f) =
          given-First (suc fuel) k base_addr addr e
            (subst (λ a. Room m (a + k * 2 ^ 13) len) start r) (omega (arith, small, start)) q
            (omega (arith, lt)) in
        (found, base_addr, run, subst (λ a. First m a len found) (sym start) f, rw e refl, p)
  ]
