-- ===== src/Btb.antt =====
-- The branch target buffer of btb.h and btb.c, without NEW_BTB: the entries of a set are chained by
-- prev and next in the order of their last use. A pointer to an entry is its index in btb_data.
pub mod Recent
pub mod Search
pub mod Taken
mod Tests
use smt_register_capping.Base.{
  ℕ, zero, suc, ◌+◌, ◌-◌, ◌*◌, ◌/◌, ◌%◌, ◌^◌, Bool, true, false, ◌&&◌, ◌||◌, not, ltb, ◌==◌,
  if◌then◌else◌, List, [], ◌∷◌, Option, none, some, Outcome, ok, fault, ◌>>=◌, ◌>>◌, assert, read,
  length, set, replicate, bit_and,
}
use smt_register_capping.Chain.{is_null, same_pointer}

-- class bpred_btb_ent_t
pub record BtbEntry : Type 0 where
  pub addr : ℕ
  pub target : ℕ
  pub prev : Option ℕ
  pub next : Option ℕ

-- bpred_btb_ent_t::bpred_btb_ent_t
abbrev pub fresh_entry : BtbEntry
fresh_entry = record { addr = 0; target = 0; prev = none; next = none }

-- class btb_t
pub record Btb : Type 0 where
  pub sets : ℕ
  pub assoc : ℕ
  pub entries : List BtbEntry

-- the tests of a size by the constructor: n & (n - 1), for n of 64 bits
abbrev power_or_zero : ℕ → Bool
power_or_zero n = bit_and n ((n + (2 ^ 64 - 1)) % 2 ^ 64) == 0

-- one round of the loop that chains the entries of the sets
link_entry : List BtbEntry → (assoc i : ℕ) → Outcome (List BtbEntry)
link_entry entries assoc i = do
  e ← read entries i
  if i % assoc == assoc - 1 then ok (set entries i (record e { next = none })) else (do
    let linked = set entries i (record e { next = some (i + 1) })
    f ← read linked (i + 1)
    ok (set linked (i + 1) (record f { prev = some i })))

link_entries : List BtbEntry → (assoc i left : ℕ) → Outcome (List BtbEntry)
unfolding link_entry
link_entries entries assoc i zero = ok entries
link_entries entries assoc i (suc left) = do
  linked ← link_entry entries assoc i
  link_entries linked assoc (i + 1) left

-- btb_t::btb_t
unfoldable pub new : (btb_sets btb_assoc : ℕ) → Outcome Btb
unfolding link_entries
new btb_sets btb_assoc = do
  assert (power_or_zero btb_sets)
  assert (power_or_zero btb_assoc)
  assert (not ((btb_assoc == 0 || btb_sets == 0) && not (btb_sets == 0 && btb_assoc == 0)))
  let entries = replicate (btb_sets * btb_assoc) fresh_entry
  linked ←
      if ltb 1 btb_assoc
      then link_entries entries btb_assoc 0 (btb_sets * btb_assoc)
      else ok entries
  ok (record { sets = btb_sets; assoc = btb_assoc; entries = linked })

-- (baddr >> MD_BR_SHIFT) & (sets - 1)
abbrev pub set_index : Btb → ℕ → ℕ
set_index b baddr = bit_and (baddr / 2 ^ 2) ((b.sets + (2 ^ 64 - 1)) % 2 ^ 64)

-- the search of find_pbtb over the `left` entries from i on
unfoldable pub search_set : List BtbEntry → (baddr i left : ℕ) → Outcome (Option ℕ)
search_set entries baddr i zero = ok none
search_set entries baddr i (suc left) = do
  e ← read entries i
  if e.addr == baddr then ok (some i) else search_set entries baddr (i + 1) left

-- btb_t::find_pbtb
unfoldable pub find_pbtb : Btb → ℕ → Outcome (Option ℕ)
unfolding search_set
find_pbtb b baddr =
    if ltb 1 b.assoc
    then search_set b.entries baddr (set_index b baddr * b.assoc) b.assoc
    else search_set b.entries baddr (set_index b baddr) 1

-- pbtb, lruhead and lruitem
pub record Found : Type 0 where
  pub pbtb : Option ℕ
  pub lruhead : Option ℕ
  pub lruitem : Option ℕ

-- an assignment of &btb_data[i] under a test, to a pointer that must be NULL
abbrev pub note : Bool → ℕ → Option ℕ → Outcome (Option ℕ)
note true i pointer = do assert (is_null pointer); ok (some i)
note false i pointer = ok pointer

-- the loop of update_pbtb over the set
scan_set : List BtbEntry → (baddr i left : ℕ) → Found → Outcome Found
scan_set entries baddr i zero found = ok found
scan_set entries baddr i (suc left) found = do
  e ← read entries i
  pbtb ← note (e.addr == baddr) i found.pbtb
  assert (not (same_pointer e.prev e.next))
  lruhead ← note (is_null e.prev) i found.lruhead
  lruitem ← note (is_null e.next) i found.lruitem
  scan_set entries baddr (i + 1) left (record { pbtb = pbtb; lruhead = lruhead; lruitem = lruitem })

-- an assignment to prev or to next of the entry that a pointer names
set_next : List BtbEntry → Option ℕ → Option ℕ → Outcome (List BtbEntry)
set_next entries none pointer = ok entries
set_next entries (some i) pointer = do
  e ← read entries i
  ok (set entries i (record e { next = pointer }))

set_prev : List BtbEntry → Option ℕ → Option ℕ → Outcome (List BtbEntry)
set_prev entries none pointer = ok entries
set_prev entries (some i) pointer = do
  e ← read entries i
  ok (set entries i (record e { prev = pointer }))

-- the entry spliced out and put at the head
pub make_head : List BtbEntry → (pbtb lruhead : ℕ) → Outcome (List BtbEntry)
unfolding set_next set_prev
make_head entries pbtb lruhead = do
  e ← read entries pbtb
  spliced ← set_next entries e.prev e.next
  spliced1 ← set_prev spliced e.next e.prev
  chained ← set_next spliced1 (some pbtb) (some lruhead)
  chained1 ← set_prev chained (some pbtb) none
  headed ← set_prev chained1 (some lruhead) (some pbtb)
  h ← read headed pbtb
  assert (not (is_null h.prev) || not (is_null h.next))
  assert (not (same_pointer h.prev h.next))
  ok headed

or_victim : Option ℕ → ℕ → ℕ
or_victim none lruitem = lruitem
or_victim (some i) lruitem = i

-- the search for the entry to use, its victim, and the order of use
use_entry : List BtbEntry → (baddr index assoc : ℕ) → Outcome (ℕ × List BtbEntry)
unfolding scan_set make_head or_victim
use_entry entries baddr index assoc = do
  found ←
      scan_set entries baddr index assoc (record { pbtb = none; lruhead = none; lruitem = none })
  elim found.lruhead [
    | none ↦ fault
    | some lruhead ↦ elim found.lruitem [
      | none ↦ fault
      | some lruitem ↦
          let pbtb = or_victim found.pbtb lruitem in
          if pbtb == lruhead
          then ok (pbtb, entries)
          else (do entries1 ← make_head entries pbtb lruhead; ok (pbtb, entries1))
    ]
  ]

-- btb_t::update_pbtb
unfoldable pub update_pbtb : Btb → (taken : Bool) → (baddr : ℕ) → Outcome (Option ℕ × Btb)
unfolding use_entry
update_pbtb b false baddr = ok (none, b)
update_pbtb b true baddr =
    if ltb 1 b.assoc
    then (do
      (pbtb, entries) ← use_entry b.entries baddr (set_index b baddr * b.assoc) b.assoc
      ok (some pbtb, record b { entries = entries }))
    else ok (some (set_index b baddr), b)

-- btb_t::update
unfoldable pub update :
    Btb
    → (pbtb : Option ℕ) → (taken : Bool) → (baddr : ℕ) → (correct : Bool) → (btarget : ℕ)
    → Outcome Btb
update b none taken baddr correct btarget = ok b
update b (some i) taken baddr correct btarget = do
  assert taken
  e ← read b.entries i
  let e1 =
      if e.addr == baddr
      then (if correct then e else record e { target = btarget })
      else record e { addr = baddr; target = btarget }
  ok (record b { entries = set b.entries i e1 })
