-- ===== src/Twin/Observations/Complete.antt =====
-- Every observation comes out once (digitalTwinAdapters.js, `orderObservations`).
use wind_solar_ess_agent.Base.{
  ℕ, suc, ◌+◌, ◌≤◌, ◌≡◌, refl, sym, ◌∙◌, ap, subst, some, true, false, none, List, [], ◌∷◌, ◌++◌,
  arith, inl, inr, Bool-cases, if◌then◌else◌, length,
}
use wind_solar_ess_agent.Js.Text.{Text, text_eq, text_eq→eq}
use wind_solar_ess_agent.Twin.Observations.{
  Observation, Visit, has, add, unvisited, visit_roots, order_observations,
}
use wind_solar_ess_agent.Twin.Observations.Visits.{count, visit_from_inv}

count-append :
    (id : Text) (xs ys : List Observation) → count id (xs ++ ys) ≡ count id xs + count id ys
count-append id [] ys = omega arith
count-append id (x ∷ xs) ys = ground (arith, count-append id xs ys)

-- The ordered observations are those whose ids are seen, once each.
abbrev Counts : List Observation → Visit → Type 0
Counts all v =
    (id : Text)
    → (count id v.ordered ≡ (if has id v.seen then 1 else 0))
      × (has id v.seen ≡ true → 1 ≤ count id all)

add-Counts :
    (all : List Observation) (o : Observation) (depth : ℕ) (v : Visit)
    → 1 ≤ count o.observation_id all
    → has o.observation_id v.seen ≡ false
    → Counts all v
    → Counts all (add o depth v)
add-Counts all o depth v here new h id =
    let old = h id in
    let appended = count-append id v.ordered (record o { depth = some depth } ∷ []) in
    elim (Bool-cases (text_eq o.observation_id id)) [
      | inl same ↦
          let e : o.observation_id ≡ id = text_eq→eq o.observation_id id same in
          let new_id : has id v.seen ≡ false = ap (λ (t : Text). has t v.seen) (sym e) ∙ new in
          let here_id : 1 ≤ count id all = subst (λ (t : Text). 1 ≤ count t all) e here in
          (ground (arith, appended, old.0, same, new_id), λ _. here_id)
      | inr other ↦ (ground (arith, appended, old.0, other), ground (arith, old.1, other))
    ]

count-unvisited :
    (id : Text) (seen : List Text) (os : List Observation)
    → count id (unvisited seen os) ≡ (if has id seen then 0 else count id os)
unfolding unvisited
count-unvisited id seen [] = ground arith
count-unvisited id seen (o ∷ os) =
    let rest = count-unvisited id seen os in
    elim (Bool-cases (text_eq o.observation_id id)) [
      | inl same ↦
          let e : has o.observation_id seen ≡ has id seen =
            ap (λ (t : Text). has t seen) (text_eq→eq o.observation_id id same) in
          rw e (ground (arith, rest, same))
      | inr other ↦ ground (arith, rest, other)
    ]

-- Where no two observations have the same id, every id occurs in the ordered list as often as it
-- does in the given one: no observation is lost or shown twice, whatever the parents are, also where
-- they are missing or form a cycle.
pub count-order_observations :
    (os : List Observation)
    → ((id : Text) → count id os ≤ 1)
    → (id : Text) → count id (order_observations os) ≡ count id os
unfolding order_observations
count-order_observations os distinct id =
    let v = visit_roots (suc (length os)) os in
    let counts =
      visit_from_inv os (Counts os) (add-Counts os) (suc (length os)) none 0
        (record { seen = []; ordered = [] }) (λ i. (refl, λ h. cc)) id in
    ground (
      arith,
      count-append id v.ordered (unvisited v.seen os),
      count-unvisited id v.seen os,
      counts.0,
      counts.1,
      distinct id,
    )
