-- ===== src/Twin/Observations/Visits.antt =====
-- What each step of the visit keeps (digitalTwinAdapters.js, `visit` of `orderObservations`).
use wind_solar_ess_agent.Base.{
  ℕ, zero, suc, ◌≤◌, ◌≡◌, false, Option, some, List, [], ◌∷◌, arith, inl, inr, Bool-cases,
  if◌then◌else◌, All,
}
use wind_solar_ess_agent.Js.Text.{Text, text_eq, text_eq_refl}
use wind_solar_ess_agent.Twin.Observations.{
  Observation, Visit, is_parent, children_of, has, add, visit_each, visit_from,
}

-- How many observations have this id.
abbrev pub count : Text → List Observation → ℕ
count id [] = 0
count id (o ∷ observations) =
    let rest = count id observations in if text_eq o.observation_id id then suc rest else rest

-- Observations whose ids occur in `all`.
abbrev pub Within : List Observation → List Observation → Type 0
Within all os = All (λ (o : Observation). 1 ≤ count o.observation_id all) os

pub Within-of_counts :
    (all os : List Observation) → ((id : Text) → count id os ≤ count id all) → Within all os
Within-of_counts all [] h = tt
Within-of_counts all (o ∷ os) h = (
  ground (arith, h o.observation_id, text_eq_refl o.observation_id),
  Within-of_counts all os (λ id. ground (arith, h id)),
)

pub Within-children_of :
    (all os : List Observation) (parent : Option Text)
    → Within all os
    → Within all (children_of parent os)
unfolding children_of
Within-children_of all [] parent h = tt
Within-children_of all (o ∷ os) parent (h, hs) =
    elim (Bool-cases (is_parent o.parent_observation_id parent)) [
      | inl child ↦ rw child (h, Within-children_of all os parent hs)
      | inr other ↦ rw other (Within-children_of all os parent hs)
    ]

module _ {ℓ} (all : List Observation) (P : Visit → Type ℓ)
    (keeps : (o : Observation) (depth : ℕ) (v : Visit)
      → 1 ≤ count o.observation_id all
      → has o.observation_id v.seen ≡ false
      → P v
      → P (add o depth v)) where
  visit_each_inv :
      (visit : Option Text → ℕ → Visit → Visit) (os : List Observation) (depth : ℕ) (v : Visit)
      → ((parent : Option Text) (d : ℕ) (w : Visit) → P w → P (visit parent d w))
      → Within all os
      → P v
      → P (visit_each visit os depth v)
  unfolding visit_each
  visit_each_inv visit [] depth v inner within h = h
  visit_each_inv visit (o ∷ os) depth v inner (here, within) h =
      elim (Bool-cases (has o.observation_id v.seen)) [
        | inl old ↦ rw old (visit_each_inv visit os depth v inner within h)
        | inr new ↦ rw new (
            visit_each_inv visit os depth _ inner within (
              inner (some o.observation_id) (suc depth) (add o depth v)
                (keeps o depth v here new h)))
      ]

  -- What every added observation keeps holds after a visit.
  pub visit_from_inv :
      (fuel : ℕ) (parent : Option Text) (depth : ℕ) (v : Visit)
      → P v
      → P (visit_from fuel all parent depth v)
  unfolding visit_from
  visit_from_inv zero parent depth v h = h
  visit_from_inv (suc fuel) parent depth v h =
      visit_each_inv (visit_from fuel all) (children_of parent all) depth v
        (λ p d w. visit_from_inv fuel p d w)
        (Within-children_of all all parent (Within-of_counts all all (λ id. omega arith))) h
