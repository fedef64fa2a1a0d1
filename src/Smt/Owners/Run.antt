-- ===== src/Smt/Owners/Run.antt =====
-- Who holds a register in every state that the pipeline can reach.
use native.Mathlib.Decide.{dec_lt}
use smt_register_capping.Base.{
  ℕ, zero, suc, ◌+◌, ◌≤◌, ◌<◌, ◌≡◌, refl, ap, sym, subst, ◌∙◌, true, ◌&&◌, ◌==◌, if◌then◌else◌,
  List, [], ◌∷◌, ◌⊎◌, inl, inr, length, get_or, arith,
}
use smt_register_capping.Isa.Opcode.{RegType}
use smt_register_capping.Smt.State.{Context, Machine}
use smt_register_capping.Smt.Invariant.{Fits, IsCapped, idle_context, thread}
use smt_register_capping.Smt.Run.{
  Step, renames, completes, accesses, schedules, schedules_access, retires, ticks, Reach, here,
  next, IsIdle, start, start-IsCapped, Reach-IsCapped,
}
use smt_register_capping.Smt.Owners.{in_file, mapped, held, total, holders, free_at, IsOwned}
use smt_register_capping.Smt.Owners.Kept.{
  write_back_rob-IsOwned, write_back_lsq-IsOwned, step_rob-IsOwned, step_lsq-IsOwned,
}
use smt_register_capping.Smt.Owners.Rename.{rename_inst-IsOwned}
use smt_register_capping.Smt.Owners.Commit.{commit_one-IsOwned}

Step-IsOwned : {m m' : Machine} → Step m m' → IsCapped m → IsOwned m → IsOwned m'
Step-IsOwned {m} (renames cid x lt h) v o = rename_inst-IsOwned m cid x lt v o h
Step-IsOwned {m} (completes cid i lt h) v o = write_back_rob-IsOwned m cid i o h
Step-IsOwned {m} (accesses cid i lt h) v o = write_back_lsq-IsOwned m cid i o h
Step-IsOwned {m} (schedules s cid i lt h) v o = step_rob-IsOwned s m cid i o h
Step-IsOwned {m} (schedules_access s cid i lt h) v o = step_lsq-IsOwned s m cid i o h
Step-IsOwned {m} (retires cid port lt h) v o = commit_one-IsOwned m cid port lt o h
Step-IsOwned {m} (ticks cycle) v o = record { owned = o.owned }

Reach-IsOwned : {m m' : Machine} → Reach m m' → IsCapped m → IsOwned m → IsOwned m'
Reach-IsOwned here v o = o
Reach-IsOwned (next r s) v o = Step-IsOwned s (Reach-IsCapped r v) (Reach-IsOwned r v o)

-- However the threads and the stages interleave, from idle threads whose renamed registers share no
-- physical register and leave none of the others in use: in every state and for every physical
-- register of either file, the mappings of all threads to the register and the instructions in
-- flight that keep it as an old mapping are one in number if the register is not free, and none if
-- it is. No register is lost, none is freed twice, and none is given to two.
pub Reach-owned :
    (m m' : Machine) (t : RegType) (p : ℕ)
    → Fits m
    → ((j : ℕ) → j < m.num_contexts → IsIdle (thread m j))
    → IsOwned m
    → Reach (start m) m'
    → holders m' t p ≡ (if free_at m'.regs t p then 0 else 1)
Reach-owned m m' t p f idle o r =
    (Reach-IsOwned r (start-IsCapped m f idle) (record { owned = o.owned })).owned t p

head_mapped :
    (t : RegType) (p a q : ℕ)
    → in_file t (a + 0) ≡ true
    → q ≡ p
    → ◌≡◌ {A = ℕ} (if in_file t a && q == p then 1 else 0) 1
head_mapped t p a q side e =
    let same : a + 0 ≡ a = omega arith in
    let on : in_file t a ≡ true = rw same at side in
    let hit : (q == p) ≡ true = ground arith in rw (on, hit) refl

mapped_once :
    (t : RegType) (p a i : ℕ) (qs : List ℕ)
    → i < length qs
    → in_file t (a + i) ≡ true
    → get_or qs i 0 ≡ p
    → 1 ≤ mapped t p a qs
mapped_once t p a i [] lt side e = absurd (omega arith)
mapped_once t p a zero (q ∷ qs) lt side e = omega (arith, head_mapped t p a q side e)
mapped_once t p a (suc i) (q ∷ qs) lt side e =
    let same : a + suc i ≡ suc a + i = omega arith in
    omega (arith, mapped_once t p (suc a) i qs (omega arith) (rw same at side) e)

mapped_twice :
    (t : RegType) (p a i j : ℕ) (qs : List ℕ)
    → i < j
    → j < length qs
    → in_file t (a + i) ≡ true
    → in_file t (a + j) ≡ true
    → get_or qs i 0 ≡ p
    → get_or qs j 0 ≡ p
    → 2 ≤ mapped t p a qs
mapped_twice t p a i j [] le lt side side' e e' = absurd (omega arith)
mapped_twice t p a i zero (q ∷ qs) le lt side side' e e' = absurd (omega arith)
mapped_twice t p a zero (suc j) (q ∷ qs) le lt side side' e e' =
    let same : a + suc j ≡ suc a + j = omega arith in
    omega (
      arith,
      head_mapped t p a q side e,
      mapped_once t p (suc a) j qs (omega arith) (rw same at side') e',
    )
mapped_twice t p a (suc i) (suc j) (q ∷ qs) le lt side side' e e' =
    let same : a + suc i ≡ suc a + i = omega arith in
    let same' : a + suc j ≡ suc a + j = omega arith in
    omega (
      arith,
      mapped_twice t p (suc a) i j qs (omega arith) (omega arith) (rw same at side)
          (rw same' at side') e e',
    )

total_one :
    (f : Context → ℕ) (cs : List Context) (i : ℕ) (d : Context)
    → i < length cs
    → f (get_or cs i d) ≤ total f cs
total_one f [] i d lt = absurd (omega arith)
total_one f (c ∷ cs) zero d lt = omega arith
total_one f (c ∷ cs) (suc i) d lt = omega (arith, total_one f cs i d (omega arith))

total_two :
    (f : Context → ℕ) (cs : List Context) (i j : ℕ) (d : Context)
    → i < j
    → j < length cs
    → f (get_or cs i d) + f (get_or cs j d) ≤ total f cs
total_two f [] i j d le lt = absurd (omega arith)
total_two f (c ∷ cs) i zero d le lt = absurd (omega arith)
total_two f (c ∷ cs) zero (suc j) d le lt = omega (arith, total_one f cs j d (omega arith))
total_two f (c ∷ cs) (suc i) (suc j) d le lt =
    omega (arith, total_two f cs i j d (omega arith) (omega arith))

-- the register that a thread's table maps an architectural register to
abbrev pub mapping : Machine → (cid a : ℕ) → ℕ
mapping m cid a = get_or (thread m cid).rename_table a 0

-- a register that is renamed in the file of `t`, of a thread that there is
pub record IsMapped (m : Machine) (t : RegType) (cid a : ℕ) : Type 0 where
  pub thread_in : cid < length m.contexts
  pub register_in : a < length (thread m cid).rename_table
  pub side : in_file t a ≡ true

at_most_one : (m : Machine) (t : RegType) (p : ℕ) → IsOwned m → holders m t p ≤ 1
at_most_one m t p o = let e = o.owned t p in ground arith

order : (a b : ℕ) → (a < b) ⊎ ((b < a) ⊎ (a ≡ b))
order a b = elim (dec_lt a b) [
  | yes h ↦ inl h
  | no h ↦ elim (dec_lt b a) [ yes k ↦ inr (inl k) | no k ↦ inr (inr (omega arith)) ]
]

-- two registers, the one of a thread or a place before the other, do not share a mapping
module _ (m : Machine) (t : RegType) (o : IsOwned m) where
  earlier_thread :
      (i j a b : ℕ)
      → IsMapped m t i a
      → IsMapped m t j b
      → mapping m i a ≡ mapping m j b
      → i < j
      → ⊥
  earlier_thread i j a b h k e lt =
      let p = mapping m j b in
      let one =
        mapped_once t p 0 a (thread m i).rename_table h.register_in
          (let z : 0 + a ≡ a = omega arith in rw z h.side) e in
      let two =
        mapped_once t p 0 b (thread m j).rename_table k.register_in
          (let z : 0 + b ≡ b = omega arith in rw z k.side) refl in
      omega (
        arith,
        at_most_one m t p o,
        one,
        two,
        total_two (held t p) m.contexts i j idle_context lt k.thread_in,
      )

  earlier_register :
      (i a b : ℕ) → IsMapped m t i a → IsMapped m t i b → mapping m i a ≡ mapping m i b → a < b → ⊥
  earlier_register i a b h k e lt =
      let p = mapping m i b in
      let both =
        mapped_twice t p 0 a b (thread m i).rename_table lt k.register_in
          (let z : 0 + a ≡ a = omega arith in rw z h.side)
          (let z : 0 + b ≡ b = omega arith in rw z k.side) e refl in
      omega (
        arith,
        at_most_one m t p o,
        both,
        total_one (held t p) m.contexts i idle_context h.thread_in,
      )

  IsOwned-distinct :
      (i j a b : ℕ)
      → IsMapped m t i a
      → IsMapped m t j b
      → mapping m i a ≡ mapping m j b
      → (i ≡ j) × (a ≡ b)
  IsOwned-distinct i j a b h k e = elim (order i j) [
    | inl lt ↦ absurd (earlier_thread i j a b h k e lt)
    | inr (inl gt) ↦ absurd (earlier_thread j i b a k h (sym e) gt)
    | inr (inr same) ↦
        let k' : IsMapped m t i b = subst (λ n. IsMapped m t n b) (sym same) k in
        let e' : mapping m i a ≡ mapping m i b = e ∙ ap (λ n. mapping m n b) (sym same) in
        elim (order a b) [
          | inl lt ↦ absurd (earlier_register i a b h k' e' lt)
          | inr (inl gt) ↦ absurd (earlier_register i b a k' h (sym e') gt)
          | inr (inr one) ↦ (same, one)
        ]
  ]

-- Under the same conditions, in every state: if two architectural registers of the same file, of one
-- thread or of two, are mapped to one physical register, they are one register of one thread.
pub Reach-distinct :
    (m m' : Machine) (t : RegType) (i j a b : ℕ)
    → Fits m
    → ((j : ℕ) → j < m.num_contexts → IsIdle (thread m j))
    → IsOwned m
    → Reach (start m) m'
    → IsMapped m' t i a
    → IsMapped m' t j b
    → mapping m' i a ≡ mapping m' j b
    → (i ≡ j) × (a ≡ b)
Reach-distinct m m' t i j a b f idle o r h k e =
    IsOwned-distinct m' t (Reach-IsOwned r (start-IsCapped m f idle) (record { owned = o.owned })) i
      j a b h k e
