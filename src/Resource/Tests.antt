-- ===== src/Resource/Tests.antt =====
-- Runs of the functional units on a small pool in the form of fu_config of sim-outorder.c.
use smt_register_capping.Base.{
  ℕ, ◌≡◌, refl, true, List, [], ◌∷◌, none, some, ok, fault, if◌then◌else◌, ◌⊎◌, replicate, arith,
}
use smt_register_capping.Resource.{
  ResTemplate, TemplateLink, ResDesc, ResPool, new, instances, enter_unit, enter_units, scan_row,
  res_get, reserve, reserve_found,
}
use smt_register_capping.Resource.Free.{any_serves, first_free, first_link, res_get-first_free}
use smt_register_capping.Resource.Reserve.{Reserved, reserve-Reserved}

abbrev plate : ℕ → ℕ → ℕ → ResTemplate
plate c o i = record { rclass = c; oplat = o; issuelat = i }

abbrev unit_descs : List ResDesc
unit_descs =
    record { quantity = 2; x = plate 1 1 1 ∷ plate 0 0 0 ∷ [] }
    ∷ record { quantity = 1; x = plate 2 3 1 ∷ plate 3 20 19 ∷ plate 0 0 0 ∷ [] }
    ∷ []

abbrev link : ℕ → ℕ → TemplateLink
link u j = record { master = u; index = j }

abbrev rows : List (List TemplateLink)
rows = [] ∷ (link 0 0 ∷ link 1 0 ∷ []) ∷ (link 2 0 ∷ []) ∷ (link 2 1 ∷ []) ∷ replicate 12 []

abbrev units : List (List ResTemplate)
units =
    (plate 1 1 1 ∷ plate 0 0 0 ∷ [])
    ∷ (plate 1 1 1 ∷ plate 0 0 0 ∷ [])
    ∷ (plate 2 3 1 ∷ plate 3 20 19 ∷ plate 0 0 0 ∷ [])
    ∷ []

abbrev fu_pool : ResPool
fu_pool = record { resources = units; busy = 0 ∷ 0 ∷ 0 ∷ []; table = rows }

new_units : new unit_descs ≡ ok fu_pool
unfolding new instances enter_unit enter_units
new_units = refl

-- the divider is the second template of the third unit
divide : reserve fu_pool 3 ≡ ok (some (link 2 1, record fu_pool { busy = 0 ∷ 0 ∷ 19 ∷ [] }))
unfolding reserve reserve_found res_get scan_row
divide = refl

no_unit : res_get fu_pool 4 ≡ fault
unfolding res_get scan_row
no_unit = refl

res_get-first_free_example :
    res_get (record fu_pool { busy = 1 ∷ 0 ∷ 0 ∷ [] }) 1
    ≡ (if any_serves 1 0 units then ok (first_free (1 ∷ 0 ∷ 0 ∷ []) 1 0 units) else fault)
res_get-first_free_example =
    res_get-first_free unit_descs (1 ∷ 0 ∷ 0 ∷ []) 1 new_units refl (omega arith)

divide_served : any_serves 3 0 units ≡ true
unfolding any_serves first_link
divide_served = refl

reserve-Reserved_example :
    ((first_free (0 ∷ 0 ∷ 0 ∷ []) 3 0 units ≡ none) × (reserve fu_pool 3 ≡ ok none))
    ⊎ ((r : TemplateLink) × (pool' : ResPool) × (reserve fu_pool 3 ≡ ok (some (r, pool')))
        × Reserved fu_pool 3 r pool')
reserve-Reserved_example =
    reserve-Reserved unit_descs (0 ∷ 0 ∷ 0 ∷ []) 3 new_units refl (omega arith) divide_served
