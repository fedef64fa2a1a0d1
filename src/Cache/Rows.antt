-- ===== src/Cache/Rows.antt =====
-- The blocks of a set: a row of the blocks of the cache, chained in some order.
use smt_register_capping.Base.{
  ℕ, ◌+◌, ◌<◌, ◌≤◌, ◌≡◌, ◌∙◌, inl, inr, true, false, List, ◌∷◌, ok, length, set, Bool-cases, arith,
}
use smt_register_capping.Chain.Order.{mem, without, member_front, length-without}
use smt_register_capping.Cache.{CacheBlk, CacheSet, at_head, update_way_list}
use smt_register_capping.Cache.Way.{blk_at, blk-kept, Ways}
use smt_register_capping.Cache.Front.{update_way_list-Fronted}

-- the row from `lo` up to `hi`, chained in the order h ∷ t
pub record Row (blks : List CacheBlk) (s : CacheSet) (lo hi h : ℕ) (t : List ℕ) : Type 0 where
  pub ways : Ways blks s h t
  pub count : length (h ∷ t) + lo ≡ hi
  pub within : (x : ℕ) → mem x (h ∷ t) ≡ true → (lo ≤ x) × (x < hi)

-- some order of the row
pub record IsChained (blks : List CacheBlk) (s : CacheSet) (lo hi : ℕ) : Type 0 where
  pub head : ℕ
  pub rest : List ℕ
  pub row : Row blks s lo hi head rest

-- the same pointers of one block
pub record SamePointers (blks blks' : List CacheBlk) (x : ℕ) : Type 0 where
  pub prev : (blk_at blks' x).way_prev ≡ (blk_at blks x).way_prev
  pub next : (blk_at blks' x).way_next ≡ (blk_at blks x).way_next

-- nothing has changed outside a row
pub record Outside (blks blks' : List CacheBlk) (lo hi : ℕ) : Type 0 where
  pub size : length blks' ≡ length blks
  pub below : (x : ℕ) → x < lo → SamePointers blks blks' x
  pub above : (x : ℕ) → hi ≤ x → SamePointers blks blks' x

pub both-SamePointers :
    {b0 b1 b2 : List CacheBlk} {x : ℕ}
    → SamePointers b0 b1 x
    → SamePointers b1 b2 x
    → SamePointers b0 b2 x
both-SamePointers p q = record { prev = q.prev ∙ p.prev; next = q.next ∙ p.next }

pub both-Outside :
    {b0 b1 b2 : List CacheBlk} {lo hi : ℕ}
    → Outside b0 b1 lo hi
    → Outside b1 b2 lo hi
    → Outside b0 b2 lo hi
both-Outside p q = record {
  size = q.size ∙ p.size;
  below = λ x g. both-SamePointers (p.below x g) (q.below x g);
  above = λ x g. both-SamePointers (p.above x g) (q.above x g);
}

-- a row does not depend on the other blocks
pub kept-IsChained :
    (blks blks' : List CacheBlk) (s : CacheSet) (lo hi : ℕ)
    → length blks' ≡ length blks
    → ((x : ℕ) → lo ≤ x → x < hi → SamePointers blks blks' x)
    → IsChained blks s lo hi
    → IsChained blks' s lo hi
kept-IsChained blks blks' s lo hi size same c =
    let w = c.row.ways in
    record {
      head = c.head;
      rest = c.rest;
      row = record {
        ways = record {
          inside = λ x g. omega (arith, w.inside x g, size);
          prevs = λ x g. let (from, to) = c.row.within x g in (same x from to).prev ∙ w.prevs x g;
          nexts = λ x g. let (from, to) = c.row.within x g in (same x from to).next ∙ w.nexts x g;
          distinct = w.distinct;
          head = w.head;
          tail = w.tail;
        };
        count = c.row.count;
        within = c.row.within;
      };
    }

-- the same pointers everywhere after a change of a line
pub line-SamePointers :
    (blks : List CacheBlk) (p : ℕ) (b : CacheBlk)
    → p < length blks
    → b.way_prev ≡ (blk_at blks p).way_prev
    → b.way_next ≡ (blk_at blks p).way_next
    → (x : ℕ) → SamePointers blks (set blks p b) x
line-SamePointers blks p b lt prev next x = record {
  prev = blk-kept (λ n. n.way_prev) blks p x b lt prev;
  next = blk-kept (λ n. n.way_next) blks p x b lt next;
}

pub outside-mem : (x : ℕ) (o : List ℕ) → (mem x o ≡ true → ⊥) → mem x o ≡ false
outside-mem x o h = elim (Bool-cases (mem x o)) [ inl e ↦ absurd (h e) | inr e ↦ e ]

-- what update_way_list does to the row of a set
pub update_way_list-IsChained :
    (blks : List CacheBlk) (s : CacheSet) (lo hi h p : ℕ) (t : List ℕ)
    → Row blks s lo hi h t
    → mem p (h ∷ t) ≡ true
    → (r : List CacheBlk × CacheSet) × (update_way_list blks s p at_head ≡ ok r)
      × IsChained r.0 r.1 lo hi
      × Outside blks r.0 lo hi
update_way_list-IsChained blks s lo hi h p t c there =
    let (r, run, f) = update_way_list-Fronted blks s h p t c.ways there in
    (
      r,
      run,
      record {
        head = p;
        rest = without p (h ∷ t);
        row = record {
          ways = f.ways;
          count = omega (arith, length-without (h ∷ t) p there, c.count);
          within = λ x g. c.within x (member_front (h ∷ t) p x there g);
        };
      },
      record {
        size = f.same.size;
        below = λ x lt.
            let out = outside-mem x (h ∷ t) (λ g. omega (arith, (c.within x g).0, lt)) in
            record { prev = f.prevs x out; next = f.nexts x out };
        above = λ x le.
            let out = outside-mem x (h ∷ t) (λ g. omega (arith, (c.within x g).1, le)) in
            record { prev = f.prevs x out; next = f.nexts x out };
      },
    )
