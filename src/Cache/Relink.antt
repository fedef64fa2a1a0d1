-- ===== src/Cache/Relink.antt =====
-- The steps of update_way_list with Head: a block taken out of the way list, and linked in at its head.
use smt_register_capping.Base.{
  ℕ, ◌<◌, ◌≡◌, refl, ◌∙◌, Bool, true, false, ◌==◌, if◌then◌else◌, List, ◌∷◌, Option, none, some, ok,
  read_of_lt, length, set, length-set, arith,
}
use smt_register_capping.Chain.{is_null, same_pointer}
use smt_register_capping.Chain.Order.{
  mem, first, before, without, last_of, member_front, Distinct-front,
}
use smt_register_capping.Chain.Front.{
  Links, ToFront, front-prevs, front-nexts, front-prev_elsewhere, front-next_elsewhere,
}
use smt_register_capping.Cache.{
  CacheBlk, fresh_blk, CacheSet, at_head, unlink, link, link_again, update_way_list,
}
use smt_register_capping.Cache.Way.{
  blk_at, SameLines, blk-changed, blk-kept, put_next-Next, put_prev-Prev, Ways,
}

-- the blocks after block p is taken out of its list, with its own pointers as before
pub record Unlinked (blks : List CacheBlk) (p : ℕ) (r : List CacheBlk) : Type 0 where
  pub same : SameLines blks r
  pub prevs :
      (x : ℕ)
      → (blk_at r x).way_prev ≡ (
          if same_pointer (blk_at blks p).way_next (some x)
          then (blk_at blks p).way_prev
          else (blk_at blks x).way_prev)
  pub nexts :
      (x : ℕ)
      → (blk_at r x).way_next ≡ (
          if same_pointer (blk_at blks p).way_prev (some x)
          then (blk_at blks p).way_next
          else (blk_at blks x).way_next)

-- the blocks and their set after block p is linked in at the head h
pub record Linked (blks : List CacheBlk) (s : CacheSet) (p h : ℕ) (r : List CacheBlk × CacheSet)
    : Type 0 where
  pub same : SameLines blks r.0
  pub prevs :
      (x : ℕ)
      → (blk_at r.0 x).way_prev
        ≡ (if h == x then some p else if p == x then none else (blk_at blks x).way_prev)
  pub nexts :
      (x : ℕ) → (blk_at r.0 x).way_next ≡ (if p == x then some h else (blk_at blks x).way_next)
  pub head : r.1.way_head ≡ some p
  pub tail : r.1.way_tail ≡ s.way_tail

some-injective : {i j : ℕ} → some i ≡ some j → i ≡ j
some-injective e = cc

pub link-Linked :
    (blks : List CacheBlk) (s : CacheSet) (p h : ℕ)
    → p < length blks
    → h < length blks
    → s.way_head ≡ some h
    → (r : List CacheBlk × CacheSet) × (link blks s p at_head ≡ ok r) × Linked blks s p h r
unfolding link
link-Linked blks s p h p_in h_in head =
    let b = record (blk_at blks p) { way_next = some h; way_prev = none } in
    let placed = set blks p b in
    let (r, run, v) = put_prev-Prev placed h (some p) (omega (arith, h_in, length-set blks p b)) in
    (
      (r, record s { way_head = some p }),
      rw (read_of_lt blks p fresh_blk p_in) (rw head (rw run refl)),
      record {
        same = record {
          size = v.same.size ∙ length-set blks p b;
          lines = λ x. v.same.lines x ∙ blk-kept (λ n. n.line) blks p x b p_in refl;
        };
        prevs = λ x. v.prevs x ∙ rw (blk-changed (λ n. n.way_prev) blks p x b p_in) refl;
        nexts = λ x. v.nexts x ∙ blk-changed (λ n. n.way_next) blks p x b p_in;
        head = refl;
        tail = refl;
      },
    )

-- the effect of the move of block p to the head of the list h ∷ t
pub record Fronted (blks : List CacheBlk) (h : ℕ) (t : List ℕ) (p : ℕ)
    (r : List CacheBlk × CacheSet) : Type 0 where
  pub ways : Ways r.0 r.1 p (without p (h ∷ t))
  pub same : SameLines blks r.0
  pub prevs : (x : ℕ) → mem x (h ∷ t) ≡ false → (blk_at r.0 x).way_prev ≡ (blk_at blks x).way_prev
  pub nexts : (x : ℕ) → mem x (h ∷ t) ≡ false → (blk_at r.0 x).way_next ≡ (blk_at blks x).way_next

module _ (blks : List CacheBlk) (s : CacheSet) (h p : ℕ) (t : List ℕ) (w : Ways blks s h t)
    (there : mem p (h ∷ t) ≡ true) (other : (h == p) ≡ false) where
  pub prev_p : (blk_at blks p).way_prev ≡ before (some h) t p
  prev_p = w.prevs p there ∙ rw other refl

  pub in_rest : mem p t ≡ true
  in_rest = rw other at there

  links : Links (λ x. (blk_at blks x).way_prev) (λ x. (blk_at blks x).way_next) (h ∷ t)
  links = record { prevs = w.prevs; nexts = w.nexts }

  module _ (r1 : List CacheBlk) (u : Unlinked blks p r1) (r : List CacheBlk × CacheSet)
      (s1 : CacheSet) (l : Linked r1 s1 p h r) where
    to_front :
        ToFront
          (λ x. (blk_at blks x).way_prev)
          (λ x. (blk_at blks x).way_next)
          (λ x. (blk_at r.0 x).way_prev)
          (λ x. (blk_at r.0 x).way_next)
          p
          h
    to_front = record {
      prevs = λ x. l.prevs x ∙ rw (u.prevs x) refl;
      nexts = λ x. l.nexts x ∙ rw (u.nexts x) refl;
    }

    pub linked-Fronted : s1.way_tail ≡ some (last_of h (without p t)) → Fronted blks h t p r
    linked-Fronted tail = record {
      ways = record {
        inside = λ x g.
            omega (arith, w.inside x (member_front (h ∷ t) p x there g), u.same.size, l.same.size);
        prevs = λ x g.
            front-prevs _ _ (λ y. (blk_at r.0 y).way_prev) (λ y. (blk_at r.0 y).way_next) h p t
              links w.distinct there other to_front x (member_front (h ∷ t) p x there g);
        nexts = λ x g.
            front-nexts _ _ (λ y. (blk_at r.0 y).way_prev) (λ y. (blk_at r.0 y).way_next) h p t
              links w.distinct there other to_front x (member_front (h ∷ t) p x there g);
        distinct = Distinct-front (h ∷ t) p w.distinct;
        head = l.head;
        tail = l.tail ∙ tail ∙ rw other refl;
      };
      same = record {
        size = l.same.size ∙ u.same.size;
        lines = λ x. l.same.lines x ∙ u.same.lines x;
      };
      prevs = λ x out.
          front-prev_elsewhere _ _ (λ y. (blk_at r.0 y).way_prev) (λ y. (blk_at r.0 y).way_next) h p
            t links w.distinct there other to_front x out;
      nexts = λ x out.
          front-next_elsewhere _ _ (λ y. (blk_at r.0 y).way_prev) (λ y. (blk_at r.0 y).way_next) h p
            t links w.distinct there other to_front x out;
    }

-- a block at the tail
pub unlink_tail-Unlinked :
    (blks : List CacheBlk) (s : CacheSet) (h p q : ℕ)
    → (blk_at blks p).way_prev ≡ some q
    → (blk_at blks p).way_next ≡ none
    → q < length blks
    → s.way_head ≡ some h
    → s.way_tail ≡ some p
    → (h == p) ≡ false
    → (r : List CacheBlk) × (unlink false true blks s p (blk_at blks p) at_head
        ≡ ok (some (r, record s { way_tail = some q })))
      × Unlinked blks p r
unfolding unlink
unlink_tail-Unlinked blks s h p q prev next q_in head tail other =
    let (r, run, n) = put_next-Next blks q none q_in in
    let self : (p == p) ≡ true = ground arith in
    (
      r,
      rw (head, tail, prev) (rw (other, self) (rw run refl)),
      record {
        same = n.same;
        prevs = λ x. n.prevs x ∙ rw next refl;
        nexts = λ x. n.nexts x ∙ rw (prev, next) refl;
      },
    )

-- a block between two others
pub unlink_middle-Unlinked :
    (blks : List CacheBlk) (s : CacheSet) (h p q n l : ℕ)
    → (blk_at blks p).way_prev ≡ some q
    → (blk_at blks p).way_next ≡ some n
    → q < length blks
    → n < length blks
    → s.way_head ≡ some h
    → s.way_tail ≡ some l
    → (h == p) ≡ false
    → (l == p) ≡ false
    → (r : List CacheBlk) × (unlink false false blks s p (blk_at blks p) at_head ≡ ok (some (r, s)))
      × Unlinked blks p r
unfolding unlink
unlink_middle-Unlinked blks s h p q n l prev next q_in n_in head tail other other_tail =
    let (r1, run1, c1) = put_next-Next blks q (some n) q_in in
    let (r2, run2, c2) = put_prev-Prev r1 n (some q) (omega (arith, n_in, c1.same.size)) in
    (
      r2,
      rw (head, tail, prev, next) (rw (other, other_tail) (rw run1 (rw run2 refl))),
      record {
        same = record {
          size = c2.same.size ∙ c1.same.size;
          lines = λ x. c2.same.lines x ∙ c1.same.lines x;
        };
        prevs = λ x. c2.prevs x ∙ rw (prev, next, c1.prevs x) refl;
        nexts = λ x. c2.nexts x ∙ c1.nexts x ∙ rw (prev, next) refl;
      },
    )

pub is_some : (o : Option ℕ) → is_null o ≡ false → (i : ℕ) × (o ≡ some i)
is_some none e = cc
is_some (some i) e = (i, refl)

pub is_none : (o : Option ℕ) → is_null o ≡ true → o ≡ none
is_none none e = refl
is_none (some i) e = cc

-- the two parts one after the other
pub update_way_list-parts :
    (blks : List CacheBlk) (s : CacheSet) (p : ℕ) (first last : Bool) (u : List CacheBlk × CacheSet)
    (r : List CacheBlk × CacheSet)
    → p < length blks
    → is_null (blk_at blks p).way_prev ≡ first
    → is_null (blk_at blks p).way_next ≡ last
    → unlink first last blks s p (blk_at blks p) at_head ≡ ok (some u)
    → link u.0 u.1 p at_head ≡ ok r
    → update_way_list blks s p at_head ≡ ok r
unfolding update_way_list link_again
update_way_list-parts blks s p first last u r p_in e1 e2 run1 run2 =
    rw (read_of_lt blks p fresh_blk p_in) (rw (e1, e2) (rw run1 run2))
