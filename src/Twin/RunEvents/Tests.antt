-- ===== src/Twin/RunEvents/Tests.antt =====
-- A batch of two events that arrives twice.
use wind_solar_ess_agent.Base.{ℕ, ◌≡◌, refl, none, some, List, [], ◌∷◌, arith}
use wind_solar_ess_agent.Js.Text.{Text, codes, text_eq, starts_with, decimal}
use wind_solar_ess_agent.Twin.Observations.Visits.{count}
use wind_solar_ess_agent.Twin.Events.{RunEvent, RunEventState, update_state}
use wind_solar_ess_agent.Twin.RunEvents.{apply_run_event_batch, apply_events, apply_event}
use wind_solar_ess_agent.Twin.RunEvents.Known.{apply_run_event_batch_again}
use wind_solar_ess_agent.Base.{sort_by}

abbrev event_of : ℕ → Text → RunEvent
event_of sequence type = record {
  run_id = some (codes "r");
  event_sequence = some sequence;
  type = type;
  status = none;
  observation = none;
  payload = none;
  message = none;
  action = none;
  error = none;
  external_observability = none;
}

abbrev batch : List RunEvent
batch = event_of 2 (codes "run.completed") ∷ event_of 1 (codes "run.started") ∷ []

abbrev fresh : RunEventState
fresh = record {
  run_id = codes "r";
  last_event_id = codes "0";
  status = codes "queued";
  message = none;
  error = none;
  external_observability = none;
  observations = [];
  scene_actions = [];
  seen_sequences = [];
}

batch_in_order :
    ((apply_run_event_batch fresh batch).status ≡ codes "completed")
    × ((apply_run_event_batch fresh batch).last_event_id ≡ codes "2")
unfolding apply_run_event_batch apply_events apply_event update_state sort_by text_eq starts_with
    decimal
batch_in_order = (refl, refl)

apply_run_event_batch_again_example :
    let s' = apply_run_event_batch fresh batch in
    let s'' = apply_run_event_batch s' batch in
    (s'' ≡ record s' { observations = s''.observations })
    × ((id : Text) → count id s''.observations ≡ count id s'.observations)
apply_run_event_batch_again_example = apply_run_event_batch_again fresh batch (omega arith)
