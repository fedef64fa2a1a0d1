-- ===== src/TwoLevel/History.antt =====
-- What a register of the first level holds after some outcomes of its branches.
use smt_register_capping.Base.{
  ℕ, zero, suc, ◌+◌, ◌-◌, ◌*◌, ◌/◌, ◌%◌, ◌^◌, ◌<◌, ◌≡◌, ◌≢◌, refl, sym, ap, ◌∙◌, Bool, true, false,
  if◌then◌else◌, List, [], ◌∷◌, Outcome, ok, ◌>>=◌, read_of_lt, length, length-set, set, get_or,
  get_or-set_self, get_or-set_ne, take, bit_and, bit_or, arith,
}
use smt_register_capping.Base.Bits.{
  bit_and-mask, bit_or-even, bit_and_le, mod-shift, shift-mod, zero-mod_power,
}
use smt_register_capping.TwoLevel.{TwoLevel, l1_index, update_table}

abbrev digit : Bool → ℕ
digit b = if b then 1 else 0

-- outcomes as a number, the last one as the lowest digit
abbrev code : List Bool → ℕ
code [] = 0
code (b ∷ bs) = code bs * 2 + digit b

-- outcomes in the order of time in front of former ones, which stand with the last one first
abbrev pub history : List Bool → List Bool → List Bool
history [] former = former
history (b ∷ bs) former = history bs (b ∷ former)

digit-small : (b : Bool) → digit b < 2
digit-small true = omega arith
digit-small false = omega arith

-- only the first w digits count
code-take : (w : ℕ) (bs : List Bool) → code bs % 2 ^ w ≡ code (take w bs)
code-take zero bs = omega arith
code-take (suc w) [] = zero-mod_power (suc w)
code-take (suc w) (b ∷ bs) =
    mod-shift (code bs) (digit b) w (digit-small b) ∙ ap (λ n. n * 2 + digit b) (code-take w bs)

abbrev pub register : TwoLevel → ℕ → ℕ
register p i = get_or p.shiftregs i 0

-- one outcome is shifted in
shift_in :
    (x w : ℕ) (b : Bool) (bs : List Bool)
    → x ≡ code bs % 2 ^ w
    → bit_and (bit_or (x * 2) (if b then 1 else 0)) (2 ^ w - 1) ≡ code (b ∷ bs) % 2 ^ w
shift_in x w b bs e =
    bit_and-mask w _
    ∙ ap (λ n. n % 2 ^ w) (bit_or-even (x * 2) (digit b) (omega arith) (digit-small b))
    ∙ ap (λ n. (n * 2 + digit b) % 2 ^ w) e
    ∙ shift-mod (code bs) (digit b) (2 ^ w)

-- a run of update_table for the outcomes of one branch
abbrev pub train : TwoLevel → (baddr : ℕ) → List Bool → Outcome TwoLevel
train p baddr [] = ok p
train p baddr (b ∷ bs) = do p1 ← update_table p baddr b; train p1 baddr bs

abbrev with_registers : List ℕ → TwoLevel → TwoLevel
with_registers regs p = record p { shiftregs = regs }

-- the registers after a run: the one of the branch, and the others
record Trained (p : TwoLevel) (baddr : ℕ) (bs : List Bool) (p' : TwoLevel) : Type 0 where
  pub own : register p' (l1_index p baddr) ≡ code bs % 2 ^ p.shift_width
  pub others : (i : ℕ) → l1_index p baddr ≢ i → register p' i ≡ register p i
  pub shape : p' ≡ with_registers p'.shiftregs p

update_table-Trained :
    (p : TwoLevel) (baddr : ℕ) (b : Bool) (former : List Bool)
    → l1_index p baddr < length p.shiftregs
    → register p (l1_index p baddr) ≡ code former % 2 ^ p.shift_width
    → (p1 : TwoLevel) × (update_table p baddr b ≡ ok p1)
      × Trained p baddr (b ∷ former) p1
      × (length p1.shiftregs ≡ length p.shiftregs)
unfolding update_table
update_table-Trained p baddr b former lt e =
    let i = l1_index p baddr in
    let x = bit_and (bit_or (register p i * 2) (digit b)) (2 ^ p.shift_width - 1) in
    (
      record p { shiftregs = set p.shiftregs i x },
      rw (read_of_lt p.shiftregs i 0 lt) refl,
      record {
        own =
            get_or-set_self p.shiftregs i x 0 lt ∙ shift_in (register p i) p.shift_width b former e;
        others = λ j ne. get_or-set_ne p.shiftregs i j x 0 ne;
        shape = refl;
      },
      length-set p.shiftregs i x,
    )

train-step :
    (p p1 : TwoLevel) (baddr : ℕ) (b : Bool) (bs former : List Bool)
    → update_table p baddr b ≡ ok p1
    → Trained p baddr (b ∷ former) p1
    → ((p' : TwoLevel) × (train p1 baddr bs ≡ ok p')
        × Trained p1 baddr (history bs (b ∷ former)) p')
    → (p' : TwoLevel) × (train p baddr (b ∷ bs) ≡ ok p')
      × Trained p baddr (history bs (b ∷ former)) p'
train-step p p1 baddr b bs former run1 v (p', run2, w) =
    let index : l1_index p1 baddr ≡ l1_index p baddr = ap (λ q. l1_index q baddr) v.shape in
    let width : p1.shift_width ≡ p.shift_width = ap (λ q. q.shift_width) v.shape in
    (
      p',
      rw run1 run2,
      record {
        own =
            ap (register p') (sym index)
            ∙ w.own
            ∙ ap (λ n. code (history bs (b ∷ former)) % 2 ^ n) width;
        others = λ i ne. w.others i (λ e. ne (sym index ∙ e)) ∙ v.others i ne;
        shape = w.shape ∙ ap (with_registers p'.shiftregs) v.shape;
      },
    )

train-Trained_from :
    (p : TwoLevel) (baddr : ℕ) (bs former : List Bool)
    → l1_index p baddr < length p.shiftregs
    → register p (l1_index p baddr) ≡ code former % 2 ^ p.shift_width
    → (p' : TwoLevel) × (train p baddr bs ≡ ok p') × Trained p baddr (history bs former) p'
train-Trained_from p baddr [] former lt e =
    (p, refl, record { own = e; others = λ i ne. refl; shape = refl })
train-Trained_from p baddr (b ∷ bs) former lt e =
    let (p1, run, v, size) = update_table-Trained p baddr b former lt e in
    let index : l1_index p1 baddr ≡ l1_index p baddr = ap (λ q. l1_index q baddr) v.shape in
    let width : p1.shift_width ≡ p.shift_width = ap (λ q. q.shift_width) v.shape in
    train-step p p1 baddr b bs former run v (
      train-Trained_from p1 baddr bs (b ∷ former) (omega (arith, lt, size, index))
        (ap (register p1) index ∙ v.own ∙ ap (λ n. code (b ∷ former) % 2 ^ n) (sym width)))

-- The outcomes of a branch, one update_table after the other, in a predictor whose register for the
-- branch holds the last of some former outcomes: the updates all succeed, and the register then holds
-- the last outcomes, as many as it is wide, the last one as its lowest digit. No other register changes.
pub train-last :
    (p : TwoLevel) (baddr : ℕ) (bs former : List Bool)
    → 0 < p.l1size
    → length p.shiftregs ≡ p.l1size
    → register p (l1_index p baddr) ≡ code (take p.shift_width former)
    → (p' : TwoLevel) × (train p baddr bs ≡ ok p')
      × (register p' (l1_index p baddr) ≡ code (take p.shift_width (history bs former)))
      × ((i : ℕ) → l1_index p baddr ≢ i → register p' i ≡ register p i)
train-last p baddr bs former positive size e =
    let (p', run, v) =
      train-Trained_from p baddr bs former
        (omega (arith, bit_and_le (baddr / 2 ^ 2) (p.l1size - 1), positive, size))
        (e ∙ sym (code-take p.shift_width former)) in
    (p', run, v.own ∙ code-take p.shift_width (history bs former), v.others)
