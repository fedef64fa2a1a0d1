-- ===== src/Cache/Front.antt =====
-- update_way_list with Head: a block moves to the head of the way list of its set.
use smt_register_capping.Base.{
  ℕ, ◌<◌, ◌≡◌, refl, sym, ap, ◌∙◌, inl, inr, subst, Bool, true, false, ◌==◌, List, [], ◌∷◌, none,
  some, ok, read_of_lt, length, Bool-cases, arith,
}
use smt_register_capping.Chain.{is_null}
use smt_register_capping.Chain.Order.{
  mem, without, last_of, before-null, after-null, mem_of_before, mem_of_after, mem-last,
  last-without, last-before, ne_of_mem,
}
use smt_register_capping.Cache.{
  CacheBlk, fresh_blk, CacheSet, at_head, unlink, link_again, update_way_list,
}
use smt_register_capping.Cache.Way.{blk_at, Ways}
use smt_register_capping.Cache.Relink.{
  Fronted, Unlinked, link-Linked, unlink_tail-Unlinked, unlink_middle-Unlinked, is_some, is_none,
  update_way_list-parts, prev_p, in_rest, linked-Fronted,
}

module _ (blks : List CacheBlk) (s : CacheSet) (h p : ℕ) (t : List ℕ) (w : Ways blks s h t)
    (there : mem p (h ∷ t) ≡ true) (other : (h == p) ≡ false) where
  abbrev Moves : Type 0
  Moves =
      (r : List CacheBlk × CacheSet) × (update_way_list blks s p at_head ≡ ok r)
      × Fronted blks h t p r

  p_in : p < length blks
  p_in = w.inside p there

  h_in : h < length blks
  h_in = w.inside h (ground arith)

  not_first : is_null (blk_at blks p).way_prev ≡ false
  not_first =
      rw (prev_p blks s h p t w there other)
        (before-null t h p (in_rest blks s h p t w there other))

  prev_in : (q : ℕ) → (blk_at blks p).way_prev ≡ some q → q < length blks
  prev_in q e = w.inside q (mem_of_before h t p q (sym (prev_p blks s h p t w there other) ∙ e))

  next_in : (n : ℕ) → (blk_at blks p).way_next ≡ some n → n < length blks
  next_in n e = w.inside n (mem_of_after (h ∷ t) p n (sym (w.nexts p there) ∙ e))

  last_null : is_null (blk_at blks p).way_next ≡ (p == last_of h t)
  last_null = rw (w.nexts p there) (after-null h t p w.distinct there)

  move_linked :
      (last : Bool) (r1 : List CacheBlk) (s1 : CacheSet)
      → is_null (blk_at blks p).way_next ≡ last
      → unlink false last blks s p (blk_at blks p) at_head ≡ ok (some (r1, s1))
      → Unlinked blks p r1
      → s1.way_head ≡ some h
      → s1.way_tail ≡ some (last_of h (without p t))
      → Moves
  move_linked last r1 s1 null run u head tail =
      let (r, run2, l) =
        link-Linked r1 s1 p h (omega (arith, p_in, u.same.size)) (omega (arith, h_in, u.same.size))
          head in
      (
        r,
        update_way_list-parts blks s p false last (r1, s1) r p_in not_first null run run2,
        linked-Fronted blks s h p t w there other r1 u r s1 l tail,
      )

  move_last : (last_of h t == p) ≡ true → Moves
  move_last e =
      let same : last_of h t ≡ p = ground arith in
      let (q, prev) = is_some (blk_at blks p).way_prev not_first in
      let null : is_null (blk_at blks p).way_next ≡ true = last_null ∙ ground arith in
      let next : (blk_at blks p).way_next ≡ none = is_none (blk_at blks p).way_next null in
      let (r1, run, u) =
        unlink_tail-Unlinked blks s h p q prev next (prev_in q prev) w.head (w.tail ∙ ap some same)
          other in
      move_linked true r1 (record s { way_tail = some q }) null run u w.head
        (sym prev
          ∙ prev_p blks s h p t w there other
          ∙ last-before h t p w.distinct.1 (in_rest blks s h p t w there other) e)

  move_middle : (last_of h t == p) ≡ false → Moves
  move_middle e =
      let (q, prev) = is_some (blk_at blks p).way_prev not_first in
      let null : is_null (blk_at blks p).way_next ≡ false = last_null ∙ ground arith in
      let (n, next) = is_some (blk_at blks p).way_next null in
      let (r1, run, u) =
        unlink_middle-Unlinked blks s h p q n (last_of h t) prev next (prev_in q prev)
          (next_in n next) w.head w.tail other e in
      move_linked false r1 s null run u w.head (w.tail ∙ ap some (sym (last-without h t p e)))

  move_other : Moves
  move_other = elim (Bool-cases (last_of h t == p)) [ inl e ↦ move_last e | inr e ↦ move_middle e ]

without_first : (h : ℕ) (t : List ℕ) → without h (h ∷ t) ≡ t
without_first h t = let self : (h == h) ≡ true = ground arith in rw self refl

pub kept-Fronted :
    (blks : List CacheBlk) (s : CacheSet) (h : ℕ) (t : List ℕ)
    → Ways blks s h t
    → Fronted blks h t h (blks, s)
kept-Fronted blks s h t w = record {
  ways = subst (λ o. Ways blks s h o) (sym (without_first h t)) w;
  same = record { size = refl; lines = λ x. refl };
  prevs = λ x out. refl;
  nexts = λ x out. refl;
}

-- the head stays where it is
update_way_list-head :
    (blks : List CacheBlk) (s : CacheSet) (h : ℕ) (t : List ℕ)
    → Ways blks s h t
    → update_way_list blks s h at_head ≡ ok (blks, s)
unfolding update_way_list unlink link_again
update_way_list-head blks s h [] w =
    let self : (h == h) ≡ true = ground arith in
    let prev : (blk_at blks h).way_prev ≡ none = w.prevs h (ground arith) ∙ rw self refl in
    let next : (blk_at blks h).way_next ≡ none = w.nexts h (ground arith) ∙ rw self refl in
    rw (read_of_lt blks h fresh_blk (w.inside h (ground arith)))
      (rw (prev, next, w.head, w.tail) (rw self refl))
update_way_list-head blks s h (z ∷ t) w =
    let self : (h == h) ≡ true = ground arith in
    let prev : (blk_at blks h).way_prev ≡ none = w.prevs h (ground arith) ∙ rw self refl in
    let next : (blk_at blks h).way_next ≡ some z = w.nexts h (ground arith) ∙ rw self refl in
    let other : (last_of z t == h) ≡ false =
      ne_of_mem (z ∷ t) (last_of z t) h (mem-last z t) w.distinct.0 in
    rw (read_of_lt blks h fresh_blk (w.inside h (ground arith)))
      (rw (prev, next, w.head, w.tail) (rw (self, other) refl))

-- A block of a set whose blocks are chained in an order: update_way_list moves it to the head of the
-- chain without a fault. The others keep their order, every line stays as it was, and so do the
-- pointers of the blocks outside the set.
pub update_way_list-Fronted :
    (blks : List CacheBlk) (s : CacheSet) (h p : ℕ) (t : List ℕ)
    → Ways blks s h t
    → mem p (h ∷ t) ≡ true
    → (r : List CacheBlk × CacheSet) × (update_way_list blks s p at_head ≡ ok r)
      × Fronted blks h t p r
update_way_list-Fronted blks s h p t w there = elim (Bool-cases (h == p)) [
  | inr e ↦ move_other blks s h p t w there e
  | inl e ↦
      let same : h ≡ p = ground arith in
      subst
        (λ n.
          (r : List CacheBlk × CacheSet) × (update_way_list blks s n at_head ≡ ok r)
          × Fronted blks h t n r)
        same ((blks, s), update_way_list-head blks s h t w, kept-Fronted blks s h t w)
]
