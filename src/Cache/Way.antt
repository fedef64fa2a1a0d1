-- ===== src/Cache/Way.antt =====
-- The blocks after an assignment to one of their pointers, and the way list of a set as an order.
use smt_register_capping.Base.{
  ℕ, ◌<◌, ◌≡◌, refl, ap, ◌∙◌, inl, inr, subst, true, ◌==◌, if◌then◌else◌, List, ◌∷◌, Option, none,
  some, ok, read_of_lt, length, set, get_or, length-set, get_or-set_self, get_or-set_ne, Bool-cases,
  arith,
}
use smt_register_capping.Chain.Order.{mem, Distinct, before, after, last_of}
use smt_register_capping.Cache.{CacheBlk, fresh_blk, CacheSet, put_next, put_prev}

abbrev pub blk_at : List CacheBlk → ℕ → CacheBlk
blk_at blks x = get_or blks x fresh_blk

-- the same lines
pub record SameLines (blks blks' : List CacheBlk) : Type 0 where
  pub size : length blks' ≡ length blks
  pub lines : (x : ℕ) → (blk_at blks' x).line ≡ (blk_at blks x).line

blk_at-set :
    (blks : List CacheBlk) (i x : ℕ) (b : CacheBlk)
    → i < length blks
    → blk_at (set blks i b) x ≡ (if i == x then b else blk_at blks x)
blk_at-set blks i x b lt = elim (Bool-cases (i == x)) [
  | inl g ↦
      let same : i ≡ x = ground arith in
      rw g (subst (λ n. blk_at (set blks i b) n ≡ b) same (get_or-set_self blks i b fresh_blk lt))
  | inr g ↦ rw g (get_or-set_ne blks i x b fresh_blk (ground arith))
]

module _ {ℓ} {A : Type ℓ} (field_of : CacheBlk → A) (blks : List CacheBlk) (i x : ℕ) (b : CacheBlk)
    (lt : i < length blks) where
  pub blk-changed :
      field_of (blk_at (set blks i b) x) ≡ (if i == x then field_of b else field_of (blk_at blks x))
  blk-changed =
      ap field_of (blk_at-set blks i x b lt)
      ∙ elim (Bool-cases (i == x)) [ inl g ↦ rw g refl | inr g ↦ rw g refl ]

  pub blk-kept :
      field_of b ≡ field_of (blk_at blks i)
      → field_of (blk_at (set blks i b) x) ≡ field_of (blk_at blks x)
  blk-kept same = blk-changed ∙ elim (Bool-cases (i == x)) [
    | inl g ↦
        rw g (same ∙ ap (λ n. field_of (blk_at blks n)) (let here : i ≡ x = ground arith in here))
    | inr g ↦ rw g refl
  ]

-- the blocks after an assignment to way_next, or to way_prev, of block i
pub record Next (blks : List CacheBlk) (i : ℕ) (value : Option ℕ) (r : List CacheBlk) : Type 0 where
  pub same : SameLines blks r
  pub nexts : (x : ℕ) → (blk_at r x).way_next ≡ (if i == x then value else (blk_at blks x).way_next)
  pub prevs : (x : ℕ) → (blk_at r x).way_prev ≡ (blk_at blks x).way_prev

pub record Prev (blks : List CacheBlk) (i : ℕ) (value : Option ℕ) (r : List CacheBlk) : Type 0 where
  pub same : SameLines blks r
  pub prevs : (x : ℕ) → (blk_at r x).way_prev ≡ (if i == x then value else (blk_at blks x).way_prev)
  pub nexts : (x : ℕ) → (blk_at r x).way_next ≡ (blk_at blks x).way_next

pub put_next-Next :
    (blks : List CacheBlk) (i : ℕ) (value : Option ℕ)
    → i < length blks
    → (r : List CacheBlk) × (put_next blks (some i) value ≡ ok r) × Next blks i value r
unfolding put_next
put_next-Next blks i value lt =
    let b = record (blk_at blks i) { way_next = value } in
    (
      set blks i b,
      rw (read_of_lt blks i fresh_blk lt) refl,
      record {
        same = record {
          size = length-set blks i b;
          lines = λ x. blk-kept (λ n. n.line) blks i x b lt refl;
        };
        nexts = λ x. blk-changed (λ n. n.way_next) blks i x b lt;
        prevs = λ x. blk-kept (λ n. n.way_prev) blks i x b lt refl;
      },
    )

pub put_prev-Prev :
    (blks : List CacheBlk) (i : ℕ) (value : Option ℕ)
    → i < length blks
    → (r : List CacheBlk) × (put_prev blks (some i) value ≡ ok r) × Prev blks i value r
unfolding put_prev
put_prev-Prev blks i value lt =
    let b = record (blk_at blks i) { way_prev = value } in
    (
      set blks i b,
      rw (read_of_lt blks i fresh_blk lt) refl,
      record {
        same = record {
          size = length-set blks i b;
          lines = λ x. blk-kept (λ n. n.line) blks i x b lt refl;
        };
        prevs = λ x. blk-changed (λ n. n.way_prev) blks i x b lt;
        nexts = λ x. blk-kept (λ n. n.way_next) blks i x b lt refl;
      },
    )

-- the blocks of an order are the way list of a set
pub record Ways (blks : List CacheBlk) (s : CacheSet) (h : ℕ) (t : List ℕ) : Type 0 where
  pub inside : (x : ℕ) → mem x (h ∷ t) ≡ true → x < length blks
  pub prevs : (x : ℕ) → mem x (h ∷ t) ≡ true → (blk_at blks x).way_prev ≡ before none (h ∷ t) x
  pub nexts : (x : ℕ) → mem x (h ∷ t) ≡ true → (blk_at blks x).way_next ≡ after (h ∷ t) x
  pub distinct : Distinct (h ∷ t)
  pub head : s.way_head ≡ some h
  pub tail : s.way_tail ≡ some (last_of h t)
