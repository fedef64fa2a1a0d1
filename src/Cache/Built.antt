-- ===== src/Cache/Built.antt =====
-- The constructor of a cache: a block put in front of the way list of its set.
use smt_register_capping.Base.{
  ℕ, ◌+◌, ◌<◌, ◌≤◌, ◌≡◌, refl, ◌∙◌, inl, inr, true, false, ◌==◌, List, [], ◌∷◌, none, some, ok,
  length, length-set, read_of_lt, set, Bool-cases, arith,
}
use smt_register_capping.Chain.Order.{mem, before, after, last_of}
use smt_register_capping.Cache.{CacheBlk, fresh_blk, fresh_line, CacheSet, link_blk}
use smt_register_capping.Cache.Way.{blk_at, blk-changed, Prev, put_prev-Prev}
use smt_register_capping.Cache.Rows.{Row, SamePointers, Outside, both-SamePointers, outside-mem}

abbrev pub no_blocks : CacheSet
no_blocks = record { way_head = none; way_tail = none }

-- a block that is written, and the pointers of the others
other-SamePointers :
    (blks : List CacheBlk) (i x : ℕ) (b : CacheBlk)
    → i < length blks
    → (i == x) ≡ false
    → SamePointers blks (set blks i b) x
other-SamePointers blks i x b lt ne = record {
  prev = blk-changed (λ n. n.way_prev) blks i x b lt ∙ rw ne refl;
  next = blk-changed (λ n. n.way_next) blks i x b lt ∙ rw ne refl;
}

pub link_blk-first :
    (blks : List CacheBlk) (i : ℕ)
    → i < length blks
    → (r : List CacheBlk × CacheSet) × (link_blk blks no_blocks i ≡ ok r)
      × Row r.0 r.1 i (i + 1) i []
      × Outside blks r.0 i (i + 1)
unfolding link_blk
link_blk-first blks i lt =
    let b : CacheBlk = record { way_next = none; way_prev = none; line = fresh_line } in
    let one : (x : ℕ) → mem x (i ∷ []) ≡ true → (i == x) ≡ true = λ x g. ground arith in
    (
      (set blks i b, record { way_head = some i; way_tail = some i }),
      rw (read_of_lt blks i fresh_blk lt) refl,
      record {
        ways = record {
          inside = λ x g.
              let e = one x g in
              omega (arith, lt, length-set blks i b, (let s : i ≡ x = ground arith in s));
          prevs = λ x g. blk-changed (λ n. n.way_prev) blks i x b lt ∙ rw (one x g) refl;
          nexts = λ x g. blk-changed (λ n. n.way_next) blks i x b lt ∙ rw (one x g) refl;
          distinct = (refl, tt);
          head = refl;
          tail = refl;
        };
        count = omega arith;
        within = λ x g. let e = one x g in (ground arith, ground arith);
      },
      record {
        size = length-set blks i b;
        below = λ x g. other-SamePointers blks i x b lt (ground arith);
        above = λ x g. other-SamePointers blks i x b lt (ground arith);
      },
    )

module _ (blks : List CacheBlk) (s : CacheSet) (lo i h : ℕ) (t : List ℕ) (c : Row blks s lo i h t)
    (lt : i < length blks) where
  abbrev b : CacheBlk
  b = record { way_next = some h; way_prev = none; line = fresh_line }

  h_first : (lo ≤ h) × (h < i)
  h_first = c.within h (let self : (h == h) ≡ true = ground arith in rw self refl)

  module _ (r : List CacheBlk) (v : Prev (set blks i b) h (some i) r) where
    linked-prev :
        (x : ℕ) → mem x (i ∷ h ∷ t) ≡ true → (blk_at r x).way_prev ≡ before none (i ∷ h ∷ t) x
    linked-prev x g =
        v.prevs x
        ∙ rw (blk-changed (λ n. n.way_prev) blks i x b lt) (elim (Bool-cases (i == x)) [
          | inl e ↦
              let bound = h_first.1 in
              let other : (h == x) ≡ false = ground arith in rw (e, other) refl
          | inr e ↦
              let old = c.ways.prevs x (rw e at g) in
              rw e
                (elim (Bool-cases (h == x)) [ inl f ↦ rw f refl | inr f ↦ rw f (old ∙ rw f refl) ])
        ])

    linked-next : (x : ℕ) → mem x (i ∷ h ∷ t) ≡ true → (blk_at r x).way_next ≡ after (i ∷ h ∷ t) x
    linked-next x g =
        v.nexts x ∙ blk-changed (λ n. n.way_next) blks i x b lt ∙ elim (Bool-cases (i == x)) [
          | inl e ↦ rw e refl
          | inr e ↦ let old = c.ways.nexts x (rw e at g) in rw e old
        ]

    unlinked-SamePointers : (x : ℕ) → (i == x) ≡ false → (h == x) ≡ false → SamePointers blks r x
    unlinked-SamePointers x e f =
        both-SamePointers (other-SamePointers blks i x b lt e)
          (record { prev = v.prevs x ∙ rw f refl; next = v.nexts x })

  pub link_blk-next :
      (r : List CacheBlk × CacheSet) × (link_blk blks s i ≡ ok r)
      × Row r.0 r.1 lo (i + 1) i (h ∷ t)
      × Outside blks r.0 lo (i + 1)
  unfolding link_blk
  link_blk-next =
      let bound = h_first in
      let size = length-set blks i b in
      let (r, run, v) =
        put_prev-Prev (set blks i b) h (some i) (omega (arith, lt, bound.1, size)) in
      (
        (r, record { way_head = some i; way_tail = some (last_of h t) }),
        rw (read_of_lt blks i fresh_blk lt) (rw (c.ways.head, c.ways.tail) (rw run refl)),
        record {
          ways = record {
            inside = λ x g. elim (Bool-cases (i == x)) [
              | inl e ↦
                  let same : i ≡ x = ground arith in omega (arith, lt, size, v.same.size, same)
              | inr e ↦ omega (arith, c.ways.inside x (rw e at g), size, v.same.size)
            ];
            prevs = linked-prev r v;
            nexts = linked-next r v;
            distinct = (
              outside-mem i (h ∷ t) (λ g. let w = c.within i g in omega (arith, w.1)),
              c.ways.distinct,
            );
            head = refl;
            tail = refl;
          };
          count = omega (arith, c.count);
          within = λ x g. elim (Bool-cases (i == x)) [
            | inl e ↦
                let same : i ≡ x = ground arith in
                (omega (arith, same, bound.0, bound.1), omega (arith, same))
            | inr e ↦ let w = c.within x (rw e at g) in (w.0, omega (arith, w.1))
          ];
        },
        record {
          size = v.same.size ∙ size;
          below = λ x g.
              unlinked-SamePointers r v x (ground (arith, bound.0, bound.1))
                (ground (arith, bound.0));
          above = λ x g. unlinked-SamePointers r v x (ground arith) (ground (arith, bound.1));
        },
      )
