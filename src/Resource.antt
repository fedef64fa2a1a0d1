-- ===== src/Resource.antt =====
-- The functional units of resource.h and resource.c: the constructor of res_pool and res_get. A
-- pointer to a template is the index of its unit in resources and its index in that unit's array x,
-- and a row of the table is the part of it before its first NULL, so that nents is its length.
pub mod Rows
pub mod Free
pub mod Reserve
mod Tests
use smt_register_capping.Base.{
  ℕ, zero, suc, ◌+◌, Bool, true, false, not, ltb, leb, ◌==◌, if◌then◌else◌, List, [], ◌∷◌, ◌++◌,
  Option, none, some, Outcome, ok, fault, ◌>>=◌, ◌>>◌, assert, read, length, set, replicate,
}

-- MAX_RES_CLASSES
abbrev pub max_res_classes : ℕ
max_res_classes = 16

-- MAX_INSTS_PER_CLASS
abbrev pub max_insts_per_class : ℕ
max_insts_per_class = 8

-- class res_template
pub record ResTemplate : Type 0 where
  pub rclass : ℕ
  pub oplat : ℕ
  pub issuelat : ℕ

-- class res_desc, of the pools that the constructor is given
pub record ResDesc : Type 0 where
  pub quantity : ℕ
  pub x : List ResTemplate

-- a res_template *, with its unit, which MASTER points to
pub record TemplateLink : Type 0 where
  pub master : ℕ
  pub index : ℕ

-- class res_pool
pub record ResPool : Type 0 where
  pub resources : List (List ResTemplate)
  pub busy : List ℕ
  pub table : List (List TemplateLink)

-- the instance table, with the test of each quantity
pub instances : List ResDesc → Outcome (List (List ResTemplate))
instances [] = ok []
instances (d ∷ ds) = do
  assert (leb d.quantity max_insts_per_class)
  rest ← instances ds
  ok (replicate d.quantity d.x ++ rest)

-- the templates of unit i from the one with index j
enter_unit :
    List (List TemplateLink) → (i j : ℕ) → List ResTemplate → Outcome (List (List TemplateLink))
enter_unit table i j [] = ok table
enter_unit table i j (plate ∷ plates) = if plate.rclass == 0 then ok table else (do
  row ← read table plate.rclass
  assert (ltb (length row) max_insts_per_class)
  let entered = row ++ (record { master = i; index = j } ∷ [])
  enter_unit (set table plate.rclass entered) i (j + 1) plates)

enter_units :
    List (List TemplateLink)
    → (i : ℕ) → List (List ResTemplate)
    → Outcome (List (List TemplateLink))
unfolding enter_unit
enter_units table i [] = ok table
enter_units table i (x ∷ xs) = do entered ← enter_unit table i 0 x; enter_units entered (i + 1) xs

-- res_pool::res_pool
pub new : List ResDesc → Outcome ResPool
unfolding instances enter_units
new descs = do
  resources ← instances descs
  table ← enter_units (replicate max_res_classes []) 0 resources
  ok (record { resources = resources; busy = replicate (length resources) 0; table = table })

-- the loop of res_get over a row
scan_row : List ℕ → List TemplateLink → Outcome (Option TemplateLink)
scan_row busy [] = ok none
scan_row busy (r ∷ rs) = do
  cycles ← read busy r.master
  if cycles == 0 then ok (some r) else scan_row busy rs

abbrev lacks_units : List TemplateLink → Bool
lacks_units [] = true
lacks_units (r ∷ rs) = false

pub res_get : ResPool → (rclass : ℕ) → Outcome (Option TemplateLink)
unfolding scan_row
res_get pool rclass = do
  row ← read pool.table rclass
  assert (not (lacks_units row))
  scan_row pool.busy row

reserve_found : ResPool → Option TemplateLink → Outcome (Option (TemplateLink × ResPool))
reserve_found pool none = ok none
reserve_found pool (some fu) = do
  cycles ← read pool.busy fu.master
  assert (cycles == 0)
  x ← read pool.resources fu.master
  plate ← read x fu.index
  ok (some (fu, record pool { busy = set pool.busy fu.master plate.issuelat }))

-- what selection does to the units for an instruction of a class
pub reserve : ResPool → (rclass : ℕ) → Outcome (Option (TemplateLink × ResPool))
unfolding reserve_found
reserve pool rclass = do found ← res_get pool rclass; reserve_found pool found
