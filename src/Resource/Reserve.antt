-- ===== src/Resource/Reserve.antt =====
-- Reserving a unit: the assertion of selection that the unit is not in use.
use smt_register_capping.Base.{
  ℕ, suc, ◌+◌, ◌<◌, ◌≡◌, refl, sym, ◌∙◌, subst, inl, inr, true, ◌==◌, List, [], ◌∷◌, none, some, ok,
  read, length, set, get_or, Bool-cases, Option-cases, read_of_lt, read-lt, ◌⊎◌, arith,
}
use smt_register_capping.Resource.{
  ResTemplate, TemplateLink, ResDesc, ResPool, new, reserve, reserve_found, max_res_classes,
}
use smt_register_capping.Resource.Free.{first_link, first_free, any_serves, res_get-first_free}

-- a pointer leads to a template of the class in its unit
record Leads (rclass i j : ℕ) (x : List ResTemplate) (r : TemplateLink) : Type 0 where
  pub place : ℕ
  pub plate : ResTemplate
  pub master : r.master ≡ i
  pub index : r.index ≡ j + place
  pub stands : read x place ≡ ok plate
  pub serves : plate.rclass ≡ rclass

first_link-Leads :
    (rclass i j : ℕ) (x : List ResTemplate) (r : TemplateLink)
    → first_link rclass i j x ≡ some r
    → Leads rclass i j x r
unfolding first_link
first_link-Leads rclass i j [] r h = cc
first_link-Leads rclass i j (p ∷ ps) r h = elim (Bool-cases (p.rclass == 0)) [
  | inl z ↦ absurd (let e : none ≡ some r = rw z at h in cc)
  | inr z ↦ elim (Bool-cases (p.rclass == rclass)) [
    | inl same ↦
        let e : some (record { master = i; index = j }) ≡ some r = rw (z, same) at h in
        record {
          place = 0;
          plate = p;
          master = cc;
          index = let f : r.index ≡ j = cc in omega arith;
          stands = refl;
          serves = ground arith;
        }
    | inr other ↦
        let l = first_link-Leads rclass i (j + 1) ps r (rw (z, other) at h) in
        record {
          place = suc l.place;
          plate = l.plate;
          master = l.master;
          index = let f = l.index in omega arith;
          stands = l.stands;
          serves = l.serves;
        }
  ]
]

-- a pointer leads to a template of the class in a unit that is not busy
record Free (busy : List ℕ) (rclass i : ℕ) (xs : List (List ResTemplate)) (r : TemplateLink)
    : Type 0 where
  pub place : ℕ
  pub unit : List ResTemplate
  pub plate : ResTemplate
  pub master : r.master ≡ i + place
  pub stands : read xs place ≡ ok unit
  pub template : read unit r.index ≡ ok plate
  pub serves : plate.rclass ≡ rclass
  pub idle : (get_or busy r.master 0 == 0) ≡ true

first_free-Free :
    (busy : List ℕ) (rclass i : ℕ) (xs : List (List ResTemplate)) (r : TemplateLink)
    → first_free busy rclass i xs ≡ some r
    → Free busy rclass i xs r
unfolding first_free
first_free-Free busy rclass i [] r h = cc
first_free-Free busy rclass i (x ∷ xs) r h =
    let later : first_free busy rclass (i + 1) xs ≡ some r → Free busy rclass i (x ∷ xs) r = λ e.
      let f = first_free-Free busy rclass (i + 1) xs r e in
      record {
        place = suc f.place;
        unit = f.unit;
        plate = f.plate;
        master = let m = f.master in omega arith;
        stands = f.stands;
        template = f.template;
        serves = f.serves;
        idle = f.idle;
      } in
    elim (Bool-cases (get_or busy i 0 == 0)) [
      | inr used ↦ later (rw used at h)
      | inl idle ↦ elim (Option-cases (first_link rclass i 0 x)) [
        | inl e ↦ later (rw (idle, e) at h)
        | inr (s, e) ↦
            let found : some s ≡ some r = rw (idle, e) at h in
            let l = first_link-Leads rclass i 0 x r (e ∙ found) in
            let here : r.index ≡ l.place = let f = l.index in omega arith in
            record {
              place = 0;
              unit = x;
              plate = l.plate;
              master = let f = l.master in omega arith;
              stands = refl;
              template = subst (λ n. read x n ≡ ok l.plate) (sym here) l.stands;
              serves = l.serves;
              idle = subst (λ n. (get_or busy n 0 == 0) ≡ true) (sym l.master) idle;
            }
      ]
    ]

-- what a reservation does: the unit it takes was idle, and it is busy for the template's latency
pub record Reserved (pool : ResPool) (rclass : ℕ) (r : TemplateLink) (pool' : ResPool)
    : Type 0 where
  pub unit : List ResTemplate
  pub plate : ResTemplate
  pub stands : read pool.resources r.master ≡ ok unit
  pub template : read unit r.index ≡ ok plate
  pub serves : plate.rclass ≡ rclass
  pub idle : get_or pool.busy r.master 0 ≡ 0
  pub after : pool' ≡ record pool { busy = set pool.busy r.master plate.issuelat }

-- On a pool that the constructor made, whichever of its units are busy, an instruction of a class
-- below MAX_RES_CLASSES that some unit can execute never meets the assertion on the unit's busy
-- counter: either no unit that can execute the class is free and nothing is reserved, or the
-- template found has the class, its unit was not busy, and that unit becomes busy for the issue
-- latency of the template while nothing else in the pool changes.
pub reserve-Reserved :
    (descs : List ResDesc) (busy : List ℕ) (rclass : ℕ) {made : ResPool}
    → new descs ≡ ok made
    → length busy ≡ length made.resources
    → rclass < max_res_classes
    → any_serves rclass 0 made.resources ≡ true
    → ((first_free busy rclass 0 made.resources ≡ none)
        × (reserve (record made { busy = busy }) rclass ≡ ok none))
      ⊎ ((r : TemplateLink) × (pool' : ResPool) × (reserve (record made { busy = busy }) rclass
            ≡ ok (some (r, pool')))
          × Reserved (record made { busy = busy }) rclass r pool')
unfolding reserve reserve_found
reserve-Reserved descs busy rclass {made} is_new size lt served =
    let get = rw served at (res_get-first_free descs busy rclass is_new size lt) in
    elim (Option-cases (first_free busy rclass 0 made.resources)) [
      | inl e ↦ inl (e, rw (get, e) refl)
      | inr (r, e) ↦
          let f = first_free-Free busy rclass 0 made.resources r e in
          let same : f.place ≡ r.master = let g = f.master in omega arith in
          let stands = subst (λ n. read made.resources n ≡ ok f.unit) same f.stands in
          let inside = read-lt made.resources r.master stands in
          let counter = read_of_lt busy r.master 0 (omega arith) in
          inr (
            r,
            _,
            rw (get, e, counter, f.idle, stands, f.template) refl,
            record {
              unit = f.unit;
              plate = f.plate;
              stands = stands;
              template = f.template;
              serves = f.serves;
              idle = let g = f.idle in ground arith;
              after = refl;
            },
          )
    ]
