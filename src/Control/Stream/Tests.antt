-- ===== src/Control/Stream/Tests.antt =====
-- A short stream of the runtime, whole and broken, and the theorems at it.
use wind_solar_ess_agent.Base.{ℕ, ◌+◌, ◌≡◌, refl, true, List, [], ◌∷◌, length}
use wind_solar_ess_agent.Js.Text.{Text, codes, text_eq}
use wind_solar_ess_agent.Js.Json.{field, end, str, get, string_or, to_string}
use wind_solar_ess_agent.Workbench.Contracts.{AgentStreamEventType, AgentRunState}
use wind_solar_ess_agent.Workbench.Reducer.{
  is_terminal_status, create_agent_run_state, reduce_agent_stream_events,
}
use wind_solar_ess_agent.Workbench.Reducer.Commit.{with_queue}
use wind_solar_ess_agent.Workbench.Reducer.InOrder.{apply_all}
use wind_solar_ess_agent.Control.Contracts.{RuntimeEvent, RuntimeEventType}
use wind_solar_ess_agent.Control.Stream.{
  finished, stream_failed, stream_runtime_events, stream_from, project_agent_event, project_by_type,
  projected,
}
use wind_solar_ess_agent.Control.Stream.Delivery.{
  reduce-stream_runtime_events, reduce-stream_failed,
}

abbrev runtime_event : ℕ → Text → RuntimeEvent
runtime_event n type = record {
  event_id = codes "e";
  event_type = RuntimeEventType.plan_updated;
  session_id = codes "s";
  run_id = codes "r";
  sequence = n;
  occurred_at = codes "now";
  payload = field "event_type" (str type) end;
}

abbrev runtime_events : List RuntimeEvent
runtime_events = runtime_event 1 (codes "RunStart") ∷ runtime_event 2 (codes "SkillLoaded") ∷ []

-- A run that has just begun.
abbrev new_run : AgentRunState
new_run = with_queue (create_agent_run_state (codes "r") (codes "s") (codes "m")) 0 []

unknown_type_is_heartbeat :
    (project_agent_event (runtime_event 2 (codes "SkillLoaded"))).type
    ≡ AgentStreamEventType.heartbeat
unfolding project_agent_event project_by_type projected get string_or to_string text_eq
unknown_type_is_heartbeat = refl

stream_length :
    length
      (stream_runtime_events (codes "s") (codes "r") 0 runtime_events (stream_failed (codes "x")))
    ≡ 3
unfolding stream_runtime_events stream_from text_eq
stream_length = refl

other_session : length (stream_runtime_events (codes "t") (codes "r") 0 runtime_events finished) ≡ 1
unfolding stream_runtime_events stream_from text_eq
other_session = refl

reduce-stream_runtime_events_example :
    reduce_agent_stream_events new_run
      (stream_runtime_events (codes "s") (codes "r") 0 runtime_events finished)
    ≡ with_queue
        (apply_all new_run
          (stream_runtime_events (codes "s") (codes "r") 0 runtime_events finished))
        (0 + length (stream_runtime_events (codes "s") (codes "r") 0 runtime_events finished))
        []
reduce-stream_runtime_events_example =
    reduce-stream_runtime_events (codes "s") (codes "r") new_run runtime_events finished refl
      (refl, (refl, tt))

reduce-stream_failed_example :
    is_terminal_status
      (reduce_agent_stream_events new_run (
        stream_runtime_events
          (codes "s")
          (codes "r")
          0
          runtime_events
          (stream_failed (codes "x")))).status
    ≡ true
reduce-stream_failed_example =
    reduce-stream_failed (codes "s") (codes "r") new_run runtime_events (codes "x") refl
      (refl, (refl, tt))
