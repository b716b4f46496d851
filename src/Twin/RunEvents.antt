-- ===== src/Twin/RunEvents.antt =====
-- digitalTwinAdapters.js, `applyRunEventBatch`: what a batch of events does to the state of a run.
mod Tests
pub mod Sets
pub mod Ids
pub mod Seen
pub mod Known
use text.Mathlib.Text.{◌==◌ as str_eq}
use wind_solar_ess_agent.Base.{
  ℕ, ◌-◌, Bool, true, false, ◌&&◌, ◌||◌, Option, none, some, List, [], ◌∷◌, ◌++◌, String, any, drop,
  length, ◌==◌, if◌then◌else◌, sort_by,
}
use wind_solar_ess_agent.Js.Text.{Text, codes, text_eq, starts_with, decimal}
use wind_solar_ess_agent.Js.Json.{Json, Fields, end, field, get, truthy}
use wind_solar_ess_agent.Twin.Observations.{Observation, order_observations}
use wind_solar_ess_agent.Twin.Events.{
  RunEvent, RunEventState, set_observation, observe, update_state,
}

-- The variables of the loop: the state, and the set and the map, in the order of insertion.
pub record Batch : Type 0 where
  pub state : RunEventState
  pub seen : List ℕ
  pub observations : List Observation

abbrev pub has_sequence : ℕ → List ℕ → Bool
has_sequence n seen = any (λ m. m == n) seen

-- The body of the loop.
unfoldable pub apply_event : ℕ × RunEvent → Batch → Batch
unfolding observe update_state
apply_event (n, event) b = if has_sequence n b.seen then b else record {
  state = update_state event b.state;
  seen = b.seen ++ n ∷ [];
  observations = observe event b.observations;
}

unfoldable pub apply_events : List (ℕ × RunEvent) → Batch → Batch
unfolding apply_event
apply_events [] b = b
apply_events (e ∷ events) b = apply_events events (apply_event e b)

abbrev pub of_run : Text → RunEvent → List (ℕ × RunEvent) → List (ℕ × RunEvent)
of_run run_id event rest = elim event.run_id [
  | none ↦ rest
  | some id ↦ elim event.event_sequence [
    | none ↦ rest
    | some n ↦ if text_eq id run_id then (n, event) ∷ rest else rest
  ]
]

-- The filter, with the sequence of each event.
abbrev pub select : Text → List RunEvent → List (ℕ × RunEvent)
select run_id [] = []
select run_id (event ∷ events) = of_run run_id event (select run_id events)

abbrev pub sequence_of : ℕ × RunEvent → ℕ
sequence_of e = e.0

abbrev pub last_or_zero : List ℕ → ℕ
last_or_zero [] = 0
last_or_zero (n ∷ []) = n
last_or_zero (n ∷ m ∷ ns) = last_or_zero (m ∷ ns)

-- `[...seen].sort((left, right) => left - right).slice(-500)`
abbrev pub newest : List ℕ → List ℕ
newest seen = let sorted = sort_by (λ n. n) seen in drop (length sorted - 500) sorted

-- `new Set(…)`, with these numbers in it already.
abbrev pub number_set : List ℕ → List ℕ → List ℕ
number_set seen [] = seen
number_set seen (n ∷ ns) = number_set (if has_sequence n seen then seen else seen ++ n ∷ []) ns

-- `new Map(…)` of observations by their ids, with these observations in it already.
abbrev pub observation_map : List Observation → List Observation → List Observation
observation_map known [] = known
observation_map known (o ∷ os) = observation_map (set_observation o known) os

abbrev pub start_batch : RunEventState → Batch
start_batch s = record {
  state = s;
  seen = number_set [] s.seen_sequences;
  observations = observation_map [] s.observations;
}

-- The statements after the loop.
abbrev pub finish_batch : Batch → RunEventState
finish_batch b = record b.state {
  seen_sequences = newest b.seen;
  last_event_id = decimal (last_or_zero (newest b.seen));
  observations = order_observations b.observations;
}

-- `applyRunEventBatch`
unfoldable pub apply_run_event_batch : RunEventState → List RunEvent → RunEventState
unfolding apply_events
apply_run_event_batch current incoming =
    finish_batch
      (apply_events (sort_by sequence_of (select current.run_id incoming)) (start_batch current))
