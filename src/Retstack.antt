-- ===== src/Retstack.antt =====
-- The return address stack of retstack.h and retstack.c. Addresses and sizes are unsigned 64-bit
-- numbers; the counts of pushes and pops are statistics, kept as plain numbers.
mod Tests
pub mod Lifo
use smt_register_capping.Base.{
  ℕ, ◌+◌, ◌-◌, ◌%◌, ◌^◌, Bool, not, ◌==◌, List, [], ◌∷◌, Outcome, ok, fault, ◌>>=◌, ◌>>◌, assert,
  read, length, set, replicate, bit_and, if◌then◌else◌,
}

abbrev pub word : ℕ
word = 2 ^ 64

-- class retstack_t; of a stack entry only the target is used
pub record Retstack : Type 0 where
  pub size : ℕ
  pub tos : ℕ
  pub stack : List ℕ
  pub pops : ℕ
  pub pushes : ℕ

-- retstack_t::retstack_t: `fatal` unless the size is zero or a power of two
unfoldable pub new : ℕ → Outcome Retstack
new size = do
  assert (bit_and size ((size + word - 1) % word) == 0)
  ok (record {
    size = size;
    tos = (size + word - 1) % word;
    stack = replicate size 0;
    pops = 0;
    pushes = 0;
  })

unfoldable recover : Retstack → ℕ → Retstack
recover s stack_recover_idx = record s { tos = stack_recover_idx }

-- retstack_t::TOS
unfoldable pub top : Retstack → ℕ
top s = if not (s.size == 0) then s.tos else 0

unfoldable clear : Retstack → Retstack
clear s = record s { stack = replicate s.size 0; tos = 0 }

pub pop : Retstack → Outcome (ℕ × Retstack)
pop s = do
  target ← read s.stack s.tos
  ok (target, record s { tos = (s.tos + s.size + word - 1) % word % s.size; pops = s.pops + 1 })

-- sizeof(md_inst_t)
abbrev pub inst_size : ℕ
inst_size = 4

-- a division by the size zero is a fault
pub push : Retstack → ℕ → Outcome Retstack
push s baddr = do
  assert (not (s.size == 0))
  let t = (s.tos + 1) % word % s.size
  entry ← read s.stack t
  ok (record s {
    tos = t;
    stack = set s.stack t ((baddr + inst_size) % word);
    pushes = s.pushes + 1;
  })

-- retstack_t::reset
unfoldable reset : Retstack → Retstack
reset s = record s { pushes = 0; pops = 0 }
