-- ===== src/Twin/Observations.antt =====
-- digitalTwinAdapters.js, `orderObservations`: the observations of a run as a tree in preorder. Its
-- recursion runs on fuel, one more than the number of observations.
mod Tests
pub mod Visits
pub mod Complete
pub mod Fuel
use wind_solar_ess_agent.Base.{
  ℕ, zero, suc, Bool, true, false, not, ◌||◌, Option, none, some, List, [], ◌∷◌, ◌++◌, any, length,
  if◌then◌else◌,
}
use wind_solar_ess_agent.Js.Text.{Text, text_eq}
use wind_solar_ess_agent.Js.Json.{Fields}

-- An observation. A parent that is missing, `null` or empty is `none`; what the order does not read
-- is kept in `details`.
pub record Observation : Type 0 where
  pub observation_id : Text
  pub parent_observation_id : Option Text
  pub depth : Option ℕ
  pub details : Fields

abbrev pub is_parent : Option Text → Option Text → Bool
is_parent none none = true
is_parent (some a) (some b) = text_eq a b
is_parent _ _ = false

-- `byParent.get(parentId) || []`
unfoldable pub children_of : Option Text → List Observation → List Observation
children_of parent [] = []
children_of parent (o ∷ observations) =
    let rest = children_of parent observations in
    if is_parent o.parent_observation_id parent then o ∷ rest else rest

-- `seen.has(id)`
abbrev pub has : Text → List Text → Bool
has id seen = any (λ s. text_eq s id) seen

-- The two variables that `visit` changes.
pub record Visit : Type 0 where
  pub seen : List Text
  pub ordered : List Observation

abbrev pub add : Observation → ℕ → Visit → Visit
add o depth v = record {
  seen = o.observation_id ∷ v.seen;
  ordered = v.ordered ++ record o { depth = some depth } ∷ [];
}

-- The loop of `visit` over the children of an observation.
unfoldable pub visit_each : (Option Text → ℕ → Visit → Visit) → List Observation → ℕ → Visit → Visit
visit_each visit [] depth v = v
visit_each visit (o ∷ observations) depth v =
    let skipped = visit_each visit observations depth v in
    let entered =
      visit_each visit observations depth
        (visit (some o.observation_id) (suc depth) (add o depth v)) in
    if has o.observation_id v.seen then skipped else entered

unfoldable pub visit_from : ℕ → List Observation → Option Text → ℕ → Visit → Visit
visit_from zero all parent depth v = v
visit_from (suc fuel) all parent depth v =
    visit_each (visit_from fuel all) (children_of parent all) depth v

-- What the last loop pushes.
unfoldable pub unvisited : List Text → List Observation → List Observation
unvisited seen [] = []
unvisited seen (o ∷ observations) =
    let rest = unvisited seen observations in if has o.observation_id seen then rest else o ∷ rest

abbrev pub visit_roots : ℕ → List Observation → Visit
visit_roots fuel observations =
    visit_from fuel observations none 0 (record { seen = []; ordered = [] })

-- `orderObservations`, where each part of it that recurs has this fuel.
abbrev pub order_with : ℕ → List Observation → List Observation
order_with fuel observations =
    let v = visit_roots fuel observations in v.ordered ++ unvisited v.seen observations

-- `orderObservations`
unfoldable pub order_observations : List Observation → List Observation
order_observations observations = order_with (suc (length observations)) observations
