-- ===== src/Resource/Free.antt =====
-- res_get against a search of the units themselves, which never looks at the table.
use smt_register_capping.Base.{
  ℕ, ◌+◌, ◌≤◌, ◌<◌, ◌≡◌, refl, ap, ◌∙◌, inl, inr, Bool, true, false, ◌||◌, not, ◌==◌, if◌then◌else◌,
  List, [], ◌∷◌, ◌++◌, Option, none, some, Outcome, ok, fault, length, get_or, Bool-cases,
  read_of_lt, arith,
}
use smt_register_capping.Resource.{
  ResTemplate, TemplateLink, ResDesc, ResPool, new, scan_row, lacks_units, res_get, max_res_classes,
}
use smt_register_capping.Resource.Rows.{links, all_links, new-rows}

-- the first template of unit i with the class, from the one with index j
unfoldable pub first_link : (rclass i j : ℕ) → List ResTemplate → Option TemplateLink
first_link rclass i j [] = none
first_link rclass i j (plate ∷ plates) =
    if plate.rclass == 0
    then none
    else (if plate.rclass == rclass
        then some (record { master = i; index = j })
        else first_link rclass i (j + 1) plates)

abbrev is_link : Option TemplateLink → Bool
is_link none = false
is_link (some r) = true

-- whether a unit can execute the class at all
unfoldable pub any_serves : (rclass i : ℕ) → List (List ResTemplate) → Bool
unfolding first_link
any_serves rclass i [] = false
any_serves rclass i (x ∷ xs) = is_link (first_link rclass i 0 x) || any_serves rclass (i + 1) xs

abbrev or_link : Option TemplateLink → Option TemplateLink → Option TemplateLink
or_link (some r) later = some r
or_link none later = later

-- the first unit, from unit i, that can execute the class and is not busy
unfoldable pub first_free : List ℕ → (rclass i : ℕ) → List (List ResTemplate) → Option TemplateLink
unfolding first_link
first_free busy rclass i [] = none
first_free busy rclass i (x ∷ xs) =
    or_link (if get_or busy i 0 == 0 then first_link rclass i 0 x else none)
      (first_free busy rclass (i + 1) xs)

abbrev then_scan :
    Option TemplateLink → Outcome (Option TemplateLink) → Outcome (Option TemplateLink)
then_scan (some r) rest = ok (some r)
then_scan none rest = rest

-- the templates of one unit in a row
scan_row-links :
    (busy : List ℕ) (rclass i j : ℕ) (x : List ResTemplate) (rest : List TemplateLink)
    → i < length busy
    → scan_row busy (links rclass i j x ++ rest)
      ≡ then_scan
          (if get_or busy i 0 == 0 then first_link rclass i j x else none)
          (scan_row busy rest)
unfolding scan_row links first_link
scan_row-links busy rclass i j [] rest lt = elim (Bool-cases (get_or busy i 0 == 0)) [
  | inl e ↦ rw e refl
  | inr e ↦ rw e refl
]
scan_row-links busy rclass i j (plate ∷ plates) rest lt =
    let later = scan_row-links busy rclass i (j + 1) plates rest lt in
    let here = read_of_lt busy i 0 lt in
    elim (Bool-cases (plate.rclass == 0)) [
      | inl z ↦ elim (Bool-cases (get_or busy i 0 == 0)) [
        | inl e ↦ rw (z, e) refl
        | inr e ↦ rw (z, e) refl
      ]
      | inr z ↦ elim (Bool-cases (plate.rclass == rclass)) [
        | inl same ↦ elim (Bool-cases (get_or busy i 0 == 0)) [
          | inl e ↦ rw (z, same, here, e) refl
          | inr e ↦ rw (z, same, here, e) (rw e at later)
        ]
        | inr other ↦ rw (z, other) later
      ]
    ]

then_scan-or_link :
    (found later : Option TemplateLink) → then_scan found (ok later) ≡ ok (or_link found later)
then_scan-or_link none later = refl
then_scan-or_link (some r) later = refl

scan_row-all_links :
    (busy : List ℕ) (rclass i : ℕ) (xs : List (List ResTemplate))
    → i + length xs ≤ length busy
    → scan_row busy (all_links rclass i xs) ≡ ok (first_free busy rclass i xs)
unfolding scan_row all_links first_free
scan_row-all_links busy rclass i [] le = refl
scan_row-all_links busy rclass i (x ∷ xs) le =
    let later = scan_row-all_links busy rclass (i + 1) xs (omega arith) in
    let unit = if get_or busy i 0 == 0 then first_link rclass i 0 x else none in
    scan_row-links busy rclass i 0 x (all_links rclass (i + 1) xs) (omega arith)
    ∙ ap (then_scan unit) later
    ∙ then_scan-or_link unit (first_free busy rclass (i + 1) xs)

lacks_units-links :
    (rclass i j : ℕ) (x : List ResTemplate) (rest : List TemplateLink)
    → not (lacks_units (links rclass i j x ++ rest))
      ≡ is_link (first_link rclass i j x) || not (lacks_units rest)
unfolding links first_link
lacks_units-links rclass i j [] rest = refl
lacks_units-links rclass i j (plate ∷ plates) rest =
    let later = lacks_units-links rclass i (j + 1) plates rest in
    elim (Bool-cases (plate.rclass == 0)) [
      | inl z ↦ rw z refl
      | inr z ↦ elim (Bool-cases (plate.rclass == rclass)) [
        | inl same ↦ rw (z, same) refl
        | inr other ↦ rw (z, other) later
      ]
    ]

lacks_units-all_links :
    (rclass i : ℕ) (xs : List (List ResTemplate))
    → not (lacks_units (all_links rclass i xs)) ≡ any_serves rclass i xs
unfolding all_links any_serves
lacks_units-all_links rclass i [] = refl
lacks_units-all_links rclass i (x ∷ xs) =
    lacks_units-links rclass i 0 x (all_links rclass (i + 1) xs)
    ∙ ap (λ b. is_link (first_link rclass i 0 x) || b) (lacks_units-all_links rclass (i + 1) xs)

-- On a pool that the constructor made, whichever of its units are busy, res_get aborts for a class
-- below MAX_RES_CLASSES that no unit can execute, and otherwise gives the first unit, in the order of
-- the pool, that can execute the class and is not busy, with the unit's first template of the class,
-- or NULL if each such unit is busy.
pub res_get-first_free :
    (descs : List ResDesc) (busy : List ℕ) (rclass : ℕ) {pool : ResPool}
    → new descs ≡ ok pool
    → length busy ≡ length pool.resources
    → rclass < max_res_classes
    → res_get (record pool { busy = busy }) rclass ≡ (
        if any_serves rclass 0 pool.resources
        then ok (first_free busy rclass 0 pool.resources)
        else fault)
unfolding res_get
res_get-first_free descs busy rclass {pool} made size lt =
    let there = new-rows descs rclass made lt in
    let filled = lacks_units-all_links rclass 0 pool.resources in
    let found = scan_row-all_links busy rclass 0 pool.resources (omega arith) in
    elim (Bool-cases (any_serves rclass 0 pool.resources)) [
      | inl e ↦ rw (there, filled, e) found
      | inr e ↦ rw (there, filled, e) refl
    ]
