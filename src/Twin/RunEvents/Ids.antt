-- ===== src/Twin/RunEvents/Ids.antt =====
-- The map of observations by their ids that `applyRunEventBatch` of digitalTwinAdapters.js keeps.
use wind_solar_ess_agent.Base.{
  ℕ, ◌≤◌, ◌≡◌, refl, Option, none, some, List, [], ◌∷◌, arith, leb, inl, inr, Bool-cases,
  if◌then◌else◌,
}
use wind_solar_ess_agent.Js.Text.{Text, text_eq, text_eq_iff}
use wind_solar_ess_agent.Twin.Observations.{Observation}
use wind_solar_ess_agent.Twin.Observations.Visits.{count}
use wind_solar_ess_agent.Twin.Events.{
  RunEvent, ObservationPatch, set_observation, upsert, tool_completed, observe, is_type, has_id,
  text_of, member,
}
use wind_solar_ess_agent.Twin.RunEvents.{
  Batch, observation_map, apply_event, apply_events, has_sequence,
}

abbrev pub DistinctIds : List Observation → Type 0
DistinctIds os = (id : Text) → count id os ≤ 1

-- Setting an observation makes it the only one of its id.
count-set_observation :
    (id : Text) (o : Observation) (os : List Observation)
    → DistinctIds os
    → count id (set_observation o os) ≡ (if text_eq o.observation_id id then 1 else count id os)
count-set_observation id o [] h = ground arith
count-set_observation id o (x ∷ os) h =
    let rest = count-set_observation id o os (λ i. ground (arith, h i)) in
    ground (
      arith,
      rest,
      h id,
      text_eq_iff x.observation_id o.observation_id,
      text_eq_iff o.observation_id id,
      text_eq_iff x.observation_id id,
    )

set_observation-DistinctIds :
    (o : Observation) (os : List Observation) → DistinctIds os → DistinctIds (set_observation o os)
set_observation-DistinctIds o os h id = ground (arith, count-set_observation id o os h, h id)

pub count-observation_map :
    (id : Text) (known os : List Observation)
    → DistinctIds known
    → count id (observation_map known os) ≡ (if leb 1 (count id os) then 1 else count id known)
count-observation_map id known [] h = refl
count-observation_map id known (o ∷ os) h = ground (
  arith,
  count-observation_map id (set_observation o known) os (set_observation-DistinctIds o known h),
  count-set_observation id o known h,
)

pub observation_map-DistinctIds :
    (known os : List Observation) → DistinctIds known → DistinctIds (observation_map known os)
observation_map-DistinctIds known os h id =
    ground (arith, count-observation_map id known os h, h id)

upsert-DistinctIds :
    (patch : Option ObservationPatch) (os : List Observation)
    → DistinctIds os
    → DistinctIds (upsert patch os)
upsert-DistinctIds none os h = h
upsert-DistinctIds (some patch) os h = set_observation-DistinctIds _ os h

tool_completed-DistinctIds :
    (id : Option Text) (event : RunEvent) (os : List Observation)
    → DistinctIds os
    → DistinctIds (tool_completed id event os)
tool_completed-DistinctIds none event os h = h
tool_completed-DistinctIds (some id) event os h = set_observation-DistinctIds _ os h

observe-DistinctIds :
    (event : RunEvent) (os : List Observation) → DistinctIds os → DistinctIds (observe event os)
unfolding observe
observe-DistinctIds event os h = elim (Bool-cases (is_type "observation.upsert" event)) [
  | inl upserted ↦ rw upserted (upsert-DistinctIds (has_id event.observation) os h)
  | inr other ↦ rw other (elim (Bool-cases (is_type "tool.completed" event)) [
    | inl tool ↦
        rw tool
          (tool_completed-DistinctIds (text_of (member "observationId" event.payload)) event os h)
    | inr neither ↦ rw neither h
  ])
]

apply_event-DistinctIds :
    (e : ℕ × RunEvent) (b : Batch)
    → DistinctIds b.observations
    → DistinctIds (apply_event e b).observations
unfolding apply_event
apply_event-DistinctIds e b h = elim (Bool-cases (has_sequence e.0 b.seen)) [
  | inl old ↦ rw old h
  | inr new ↦ rw new (observe-DistinctIds e.1 b.observations h)
]

pub apply_events-DistinctIds :
    (es : List (ℕ × RunEvent)) (b : Batch)
    → DistinctIds b.observations
    → DistinctIds (apply_events es b).observations
unfolding apply_events
apply_events-DistinctIds [] b h = h
apply_events-DistinctIds (e ∷ es) b h =
    apply_events-DistinctIds es (apply_event e b) (apply_event-DistinctIds e b h)
