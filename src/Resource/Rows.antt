-- ===== src/Resource/Rows.antt =====
-- The rows of the table: which templates of a class each holds, and in which order.
use smt_register_capping.Base.{
  ℕ, zero, suc, ◌+◌, ◌<◌, ◌≡◌, refl, sym, ap, ◌∙◌, subst, inl, inr, false, ltb, ◌==◌, if◌then◌else◌,
  List, [], ◌∷◌, ◌++◌, ok, assert, read, length, set, replicate, get_or, Bool-cases, >>=-elim,
  ok-injective, length-set, length-replicate, read_of_lt, get_or-set_self, get_or-set_ne,
  get_or_of_read, read-lt, arith,
}
use mathlib.Core.List.{append_assoc, append-nil}
use smt_register_capping.Resource.{
  ResTemplate, TemplateLink, ResDesc, ResPool, enter_unit, enter_units, max_insts_per_class,
  max_res_classes, instances, new,
}

-- the templates of unit i with the class, from the one with index j
unfoldable pub links : (rclass i j : ℕ) → List ResTemplate → List TemplateLink
links rclass i j [] = []
links rclass i j (plate ∷ plates) =
    if plate.rclass == 0
    then []
    else (if plate.rclass == rclass
        then (record { master = i; index = j }) ∷ links rclass i (j + 1) plates
        else links rclass i (j + 1) plates)

-- the templates of the units from unit i with the class
unfoldable pub all_links : (rclass i : ℕ) → List (List ResTemplate) → List TemplateLink
unfolding links
all_links rclass i [] = []
all_links rclass i (x ∷ xs) = links rclass i 0 x ++ all_links rclass (i + 1) xs

abbrev row : List (List TemplateLink) → ℕ → List TemplateLink
row table rclass = get_or table rclass []

-- a row with one more pointer, and the other rows
row-enter :
    (table : List (List TemplateLink)) (rclass c : ℕ) (r : TemplateLink)
    → c < length table
    → row (set table c (row table c ++ (r ∷ []))) rclass
      ≡ row table rclass ++ (if c == rclass then r ∷ [] else [])
row-enter table rclass c r lt = elim (Bool-cases (c == rclass)) [
  | inl e ↦
      let same : c ≡ rclass = ground arith in
      rw e (
        subst (λ n. row (set table c (row table c ++ (r ∷ []))) n ≡ row table n ++ (r ∷ [])) same
          (get_or-set_self table c (row table c ++ (r ∷ [])) [] lt))
  | inr e ↦ rw e (
      get_or-set_ne table c rclass (row table c ++ (r ∷ [])) [] (λ h. ground arith)
      ∙ sym (append-nil (row table rclass)))
]

links-plate :
    (rclass i j : ℕ) (plate : ResTemplate) (plates : List ResTemplate)
    → plate.rclass == 0 ≡ false
    → links rclass i j (plate ∷ plates)
      ≡ (if plate.rclass == rclass then (record { master = i; index = j }) ∷ [] else [])
        ++ links rclass i (j + 1) plates
unfolding links
links-plate rclass i j plate plates e = elim (Bool-cases (plate.rclass == rclass)) [
  | inl same ↦ rw (e, same) refl
  | inr other ↦ rw (e, other) refl
]

-- entering a unit appends its templates to the row of each class
enter_unit-row :
    (table : List (List TemplateLink)) (rclass i j : ℕ) (x : List ResTemplate)
    {entered : List (List TemplateLink)}
    → enter_unit table i j x ≡ ok entered
    → row entered rclass ≡ row table rclass ++ links rclass i j x
unfolding enter_unit links
enter_unit-row table rclass i j [] h =
    sym (ap (λ t. row t rclass) (ok-injective h)) ∙ sym (append-nil (row table rclass))
enter_unit-row table rclass i j (plate ∷ plates) h = elim (Bool-cases (plate.rclass == 0)) [
  | inl e ↦ rw e (
      sym (ap (λ t. row t rclass) (ok-injective (rw e at h))) ∙ sym (append-nil (row table rclass)))
  | inr e ↦ >>=-elim (read table plate.rclass) _ (rw e at h) λ old there h1.
      >>=-elim (assert (ltb (length old) max_insts_per_class)) _ h1 λ _ _ h2.
        let r : TemplateLink = record { master = i; index = j } in
        let same = get_or_of_read table plate.rclass [] there in
        let rest = enter_unit-row _ rclass i (j + 1) plates h2 in
        let one = row-enter table rclass plate.rclass r (read-lt table plate.rclass there) in
        rest
        ∙ ap (λ t. t ++ links rclass i (j + 1) plates)
            (ap (λ t. row (set table plate.rclass (t ++ (r ∷ []))) rclass) (sym same) ∙ one)
        ∙ append_assoc (row table rclass) _ (links rclass i (j + 1) plates)
        ∙ ap (λ t. row table rclass ++ t) (sym (links-plate rclass i j plate plates e))
]

enter_units-row :
    (table : List (List TemplateLink)) (rclass i : ℕ) (xs : List (List ResTemplate))
    {entered : List (List TemplateLink)}
    → enter_units table i xs ≡ ok entered
    → row entered rclass ≡ row table rclass ++ all_links rclass i xs
unfolding enter_units all_links
enter_units-row table rclass i [] h =
    sym (ap (λ t. row t rclass) (ok-injective h)) ∙ sym (append-nil (row table rclass))
enter_units-row table rclass i (x ∷ xs) h = >>=-elim (enter_unit table i 0 x) _ h λ one e h1.
    enter_units-row one rclass (i + 1) xs h1
    ∙ ap (λ t. t ++ all_links rclass (i + 1) xs) (enter_unit-row table rclass i 0 x e)
    ∙ append_assoc (row table rclass) (links rclass i 0 x) (all_links rclass (i + 1) xs)

enter_unit-length :
    (table : List (List TemplateLink)) (i j : ℕ) (x : List ResTemplate)
    {entered : List (List TemplateLink)}
    → enter_unit table i j x ≡ ok entered
    → length entered ≡ length table
unfolding enter_unit
enter_unit-length table i j [] h = sym (ap length (ok-injective h))
enter_unit-length table i j (plate ∷ plates) h = elim (Bool-cases (plate.rclass == 0)) [
  | inl e ↦ sym (ap length (ok-injective (rw e at h)))
  | inr e ↦ >>=-elim (read table plate.rclass) _ (rw e at h) λ old there h1.
      >>=-elim (assert (ltb (length old) max_insts_per_class)) _ h1
        λ _ _ h2. enter_unit-length _ i (j + 1) plates h2 ∙ length-set table plate.rclass _
]

enter_units-length :
    (table : List (List TemplateLink)) (i : ℕ) (xs : List (List ResTemplate))
    {entered : List (List TemplateLink)}
    → enter_units table i xs ≡ ok entered
    → length entered ≡ length table
unfolding enter_units
enter_units-length table i [] h = sym (ap length (ok-injective h))
enter_units-length table i (x ∷ xs) h =
    >>=-elim (enter_unit table i 0 x) _ h
      λ one e h1. enter_units-length one (i + 1) xs h1 ∙ enter_unit-length table i 0 x e

row-replicate : (n rclass : ℕ) → row (replicate n []) rclass ≡ []
row-replicate zero rclass = refl
row-replicate (suc n) zero = refl
row-replicate (suc n) (suc rclass) = row-replicate n rclass

-- What the constructor leaves of a pool: its table has a row for each class, with the templates of
-- the class in the order of the units.
pub new-rows :
    (descs : List ResDesc) (rclass : ℕ) {pool : ResPool}
    → new descs ≡ ok pool
    → rclass < max_res_classes
    → read pool.table rclass ≡ ok (all_links rclass 0 pool.resources)
unfolding new
new-rows descs rclass {pool} h lt = >>=-elim (instances descs) _ h λ resources _ h1.
    >>=-elim (enter_units (replicate max_res_classes []) 0 resources) _ h1 λ table e h2.
      let made = ok-injective h2 in
      let size : length table ≡ max_res_classes =
        enter_units-length _ 0 resources e
        ∙ length-replicate {A = List TemplateLink} max_res_classes [] in
      let here : read table rclass ≡ ok (row table rclass) =
        read_of_lt table rclass [] (omega arith) in
      let whole : row table rclass ≡ all_links rclass 0 resources =
        enter_units-row _ rclass 0 resources e
        ∙ ap (λ t. t ++ all_links rclass 0 resources) (row-replicate max_res_classes rclass) in
      subst (λ (p : ResPool). read p.table rclass ≡ ok (all_links rclass 0 p.resources)) made
        (here ∙ ap ok whole)
