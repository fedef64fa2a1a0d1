-- ===== src/Cache/Access/Lru.antt =====
-- cache_access with the policy LRU, in terms of the order of use of a set.
use smt_register_capping.Base.{
  ℕ, ◌+◌, ◌-◌, ◌<◌, ◌≡◌, refl, sym, ap, ◌∙◌, subst, Bool, true, false, ◌&&◌, ◌||◌, not, ◌==◌,
  if◌then◌else◌, List, ◌∷◌, Option, ok, read, read_of_lt, read-lt, length, set, length-set,
  get_or-set_self, arith,
}
use smt_register_capping.Memory.Access.{MemCmd}
use smt_register_capping.Chain.{is_null}
use smt_register_capping.Chain.Order.{mem, without, last_of, mem-last, first-null}
use smt_register_capping.Cache.{
  lru, Line, Cache, CacheBlk, fresh_blk, CacheSet, at_head, update_way_list,
}
use smt_register_capping.Cache.Way.{blk_at, blk-changed, blk-kept, Ways}
use smt_register_capping.Cache.Relink.{Fronted}
use smt_register_capping.Cache.Front.{update_way_list-Fronted, kept-Fronted}
use smt_register_capping.Cache.Access.{
  cache_tag, cache_set, is_hit, put_set, is_write, with_line, Served, hit, miss, fill_blk,
  select_victim, take_tail, larger,
}
use smt_register_capping.Cache.Access.Search.{set-Ways, same_owner_refl}

-- the cache after an access of the set with the order h ∷ t, whose block p now holds the address
pub record Touched (c : Cache) (cmd : MemCmd) (addr : ℕ) (context_id : Option ℕ) (h : ℕ)
    (t : List ℕ) (p : ℕ) (was_dirty : Bool) (c' : Cache) : Type 0 where
  pub set : CacheSet
  pub is_set : read c'.sets (cache_set c addr) ≡ ok set
  pub ways : Ways c'.blocks set p (without p (h ∷ t))
  pub holds : is_hit (cache_tag c addr) context_id (blk_at c'.blocks p) ≡ true
  pub is_dirty : (blk_at c'.blocks p).line.is_dirty ≡ (was_dirty || is_write cmd)
  pub lines : (x : ℕ) → (p == x) ≡ false → (blk_at c'.blocks x).line ≡ (blk_at c.blocks x).line
  pub shape : c' ≡ record c { blocks = c'.blocks; sets = c'.sets; bus_free = c'.bus_free }

read-set :
    (ss : List CacheSet) (i : ℕ) (s s' : CacheSet) → read ss i ≡ ok s → read (set ss i s') i ≡ ok s'
read-set ss i s s' e =
    let lt = read-lt ss i e in
    read_of_lt (set ss i s') i s (omega (arith, lt, length-set ss i s'))
    ∙ ap ok (get_or-set_self ss i s' s lt)

is_hit_refl :
    (tag : ℕ) (context_id : Option ℕ) (b : CacheBlk) (l : Line)
    → l.tag ≡ tag
    → l.is_valid ≡ true
    → l.context_id ≡ context_id
    → is_hit tag context_id (with_line b l) ≡ true
is_hit_refl tag context_id b l e1 e2 e3 =
    let self : (tag == tag) ≡ true = ground arith in
    rw (e1, e2, e3) (rw (self, same_owner_refl context_id) refl)

-- the move of a hit
module _ (blks : List CacheBlk) (s : CacheSet) (h p : ℕ) (t : List ℕ) (w : Ways blks s h t)
    (there : mem p (h ∷ t) ≡ true) where
  hit_move :
      (first : Bool)
      → is_null (blk_at blks p).way_prev ≡ first
      → (r : List CacheBlk × CacheSet) × ((if not first && true
            then update_way_list blks s p at_head
            else ok (blks, s))
          ≡ ok r)
        × Fronted blks h t p r
  hit_move false e = update_way_list-Fronted blks s h p t w there
  hit_move true e =
      let is_first : (p == h) ≡ true = sym (first-null h t p there) ∙ rw (w.prevs p there) at e in
      let same : h ≡ p = ground arith in
      ((blks, s), refl, subst (λ n. Fronted blks h t n (blks, s)) same (kept-Fronted blks s h t w))

module _ {ℓ} {W : Type ℓ}
    (blk_access_fn : W → MemCmd → (baddr bsize : ℕ) → CacheBlk → (now : ℕ) → Option ℕ → ℕ × W)
    (c : Cache) (cmd : MemCmd) (addr : ℕ) (context_id : Option ℕ) (now : ℕ) (s : CacheSet) (h : ℕ)
    (t : List ℕ) (w : Ways c.blocks s h t) (policy : c.policy ≡ lru)
    (is_set : read c.sets (cache_set c addr) ≡ ok s) where
  -- a hit on block p
  pub hit-Touched :
      (p : ℕ) (v : W)
      → mem p (h ∷ t) ≡ true
      → is_hit (cache_tag c addr) context_id (blk_at c.blocks p) ≡ true
      → (c' : Cache) × (hit blk_access_fn c cmd addr now s p v
          ≡ ok (record {
            lat = larger c.hit_latency ((blk_at c.blocks p).line.ready - now);
            repl_addr = 0;
            cache = c';
            below = v;
          }))
        × Touched c cmd addr context_id h t p (blk_at c.blocks p).line.is_dirty c'
        × ((blk_at c'.blocks p).line.ready ≡ (blk_at c.blocks p).line.ready)
  unfolding hit
  hit-Touched p v there match =
      let b = blk_at c.blocks p in
      let l = record b.line { is_dirty = b.line.is_dirty || is_write cmd } in
      let lt = w.inside p there in
      let blks = set c.blocks p (with_line b l) in
      let prev : (blk_at blks p).way_prev ≡ b.way_prev =
        blk-kept (λ n. n.way_prev) c.blocks p p (with_line b l) lt refl in
      let (r, run, f) =
        hit_move blks s h p t (set-Ways c.blocks s h t p l lt w) there (is_null b.way_prev)
          (ap is_null prev) in
      let self : (p == p) ≡ true = ground arith in
      let line : (blk_at r.0 p).line ≡ l =
        f.same.lines p ∙ blk-changed (λ n. n.line) c.blocks p p (with_line b l) lt ∙ rw self refl in
      (
        put_set c (cache_set c addr) r,
        rw (read_of_lt c.blocks p fresh_blk lt) (rw policy (rw run refl)),
        record {
          set = r.1;
          is_set = read-set c.sets (cache_set c addr) s r.1 is_set;
          ways = f.ways;
          holds = rw line match;
          is_dirty = rw line refl;
          lines = λ x apart.
              f.same.lines x
              ∙ blk-changed (λ n. n.line) c.blocks p x (with_line b l) lt
              ∙ rw apart refl;
          shape = refl;
        },
        rw line refl,
      )

  -- the parts of a miss
  victim-last :
      (rand : ℕ) (m : List CacheBlk × CacheSet)
      → update_way_list c.blocks s (last_of h t) at_head ≡ ok m
      → select_victim c.policy c (cache_set c addr) s rand
        ≡ ok (last_of h t, put_set c (cache_set c addr) m)
  unfolding select_victim take_tail
  victim-last rand m run =
      ap (λ q. select_victim q c (cache_set c addr) s rand) policy
      ∙ ap (take_tail c (cache_set c addr) s) w.tail
      ∙ rw run refl

  miss_filled :
      (rand p : ℕ) (c1 : Cache) (b : CacheBlk) (v : W)
      → select_victim c.policy c (cache_set c addr) s rand ≡ ok (p, c1)
      → read c1.blocks p ≡ ok b
      → miss blk_access_fn c cmd addr context_id now s rand v
        ≡ ok (fill_blk blk_access_fn c1 cmd addr context_id now p b v)
  unfolding miss
  miss_filled rand p c1 b v run1 run2 = rw run1 (rw run2 refl)

  -- a miss, which takes the block used least recently
  pub miss-Touched :
      (rand : ℕ) (v : W)
      → (r : Served blk_access_fn) × (miss blk_access_fn c cmd addr context_id now s rand v ≡ ok r)
        × Touched c cmd addr context_id h t (last_of h t) false r.cache
        × ((blk_at r.cache.blocks (last_of h t)).line.ready ≡ now + r.lat)
  unfolding fill_blk
  miss-Touched rand v =
      let p = last_of h t in
      let (m, run, f) = update_way_list-Fronted c.blocks s h p t w (mem-last h t) in
      let c1 = put_set c (cache_set c addr) m in
      let lt : p < length m.0 =
        f.ways.inside p (let self : (p == p) ≡ true = ground arith in rw self refl) in
      let r = fill_blk blk_access_fn c1 cmd addr context_id now p (blk_at m.0 p) v in
      let filled = with_line (blk_at m.0 p) (record {
        tag = cache_tag c addr;
        is_valid = true;
        is_dirty = is_write cmd;
        ready = now + r.lat;
        context_id = context_id;
      }) in
      let self : (p == p) ≡ true = ground arith in
      let line : (blk_at r.cache.blocks p).line ≡ filled.line =
        blk-changed (λ n. n.line) m.0 p p filled lt ∙ rw self refl in
      (
        r,
        miss_filled rand p c1 (blk_at m.0 p) v (victim-last rand m run)
            (read_of_lt m.0 p fresh_blk lt),
        record {
          set = m.1;
          is_set = read-set c.sets (cache_set c addr) s m.1 is_set;
          ways = set-Ways m.0 m.1 p (without p (h ∷ t)) p filled.line lt f.ways;
          holds =
              rw line
                (is_hit_refl (cache_tag c addr) context_id fresh_blk filled.line refl refl refl);
          is_dirty = rw line refl;
          lines =
              λ x apart. blk-changed (λ n. n.line) m.0 p x filled lt ∙ rw apart (f.same.lines x);
          shape = refl;
        },
        rw line refl,
      )
