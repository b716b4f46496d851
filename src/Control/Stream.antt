-- ===== src/Control/Stream.antt =====
-- The event stream of a run, as the server writes it: runs/[runId]/route.ts. Each event of the
-- runtime becomes an event of the workbench (contracts.ts); what `JSON.stringify` and the browser's
-- `JSON.parse` do to it in between is not modelled.
pub mod Delivery
mod Tests
use wind_solar_ess_agent.Base.{
  ℕ, ◌+◌, Bool, true, false, Option, none, some, List, [], ◌∷◌, ◌++◌, max, String, if◌then◌else◌,
}
use wind_solar_ess_agent.Js.Text.{Text, codes, text_eq}
use wind_solar_ess_agent.Js.Json.{Json, Fields, field, end, str, get, nullish, string_or}
use wind_solar_ess_agent.Workbench.Contracts.{AgentStreamEventType, AgentStreamEvent}
use wind_solar_ess_agent.Workbench.Reducer.{non_empty}
use wind_solar_ess_agent.Control.Contracts.{RuntimeEvent}

-- `{ ...defaults, ...payload }`: the keys of the payload are found first.
pub spread : Fields → Fields → Fields
spread end defaults = defaults
spread (field key value payload) defaults = field key value (spread payload defaults)

-- A key whose value may be `undefined`, which `JSON.stringify` leaves out.
abbrev pub optional_field : String → Option Json → Fields → Fields
optional_field key none fields = fields
optional_field key (some value) fields = field key value fields

-- `value ?? ""`
abbrev pub or_empty : Option Json → Json
or_empty value = elim (nullish value) [ none ↦ str [] | some j ↦ j ]

-- `{ ...common, type, status, observationId, payload }`
pub projected :
    RuntimeEvent → AgentStreamEventType → Option Text → Option Text → Fields → AgentStreamEvent
projected event type status observation_id payload = record {
  event_id = some event.event_id;
  sequence = event.sequence;
  event_sequence = none;
  run_id = some event.run_id;
  conversation_id = some event.session_id;
  message_id = none;
  trace_id = none;
  observation_id = observation_id;
  type = type;
  timestamp = some event.occurred_at;
  payload = payload;
  status = status;
  action = none;
}

abbrev pub planning_payload : Text → Fields → Fields
planning_payload label payload =
    spread payload (field "label" (str label) (field "status" (str (codes "planning")) end))

abbrev pub tool_label : Text → Fields → Text
tool_label before payload = before ++ string_or (codes "工具") (get "tool_id" payload)

abbrev pub observation : Fields → Option Text
observation payload = non_empty (string_or [] (get "observation_id" payload))

-- The chain of conditions on `sourceType`.
pub project_by_type : Text → RuntimeEvent → AgentStreamEvent
unfolding projected spread
project_by_type source_type event =
    if text_eq source_type (codes "RunStart")
    then projected event AgentStreamEventType.run_started none none
        (field "status" (str (codes "queued")) end)
    else if text_eq source_type (codes "IntentClassified")
    then projected event AgentStreamEventType.phase_changed (some (codes "planning")) none
        (planning_payload (codes "已识别查询意图") event.payload)
    else if text_eq source_type (codes "BeforeToolDiscovery")
    then projected event AgentStreamEventType.phase_changed (some (codes "planning")) none
        (planning_payload (codes "Agent 正在规划") event.payload)
    else if text_eq source_type (codes "model.completed")
    then projected event AgentStreamEventType.phase_changed (some (codes "planning")) none
        (planning_payload (codes "Agent 正在规划") event.payload)
    else if text_eq source_type (codes "BeforeToolCall")
    then projected event AgentStreamEventType.tool_started (some (codes "executing")) none (
        spread event.payload (
          field "label" (str (tool_label (codes "调用 ") event.payload)) (
            optional_field "toolLabel" (get "tool_id" event.payload)
              (field "status" (str (codes "executing")) end))))
    else if text_eq source_type (codes "ObservationCaptured")
    then projected event AgentStreamEventType.tool_progress (some (codes "executing"))
        (observation event.payload)
        (spread event.payload
          (field "label" (str (codes "已记录工具观测")) (field "status" (str (codes "executing")) end)))
    else if text_eq source_type (codes "tool.completed")
    then projected event AgentStreamEventType.tool_completed
        (some (string_or (codes "completed") (get "status" event.payload)))
        (observation event.payload)
        (spread event.payload (
          field "label" (str (tool_label [] event.payload ++ codes " 执行完成"))
            (optional_field "toolLabel" (get "tool_id" event.payload) end)))
    else if text_eq source_type (codes "assistant.started")
    then projected event AgentStreamEventType.response_started none none end
    else if text_eq source_type (codes "assistant.delta")
    then projected event AgentStreamEventType.response_delta none none
        (field "delta" (or_empty (get "delta" event.payload)) end)
    else if text_eq source_type (codes "assistant.completed")
    then projected event AgentStreamEventType.response_completed none none (
        field "content" (or_empty (get "content" event.payload))
          (field "reasoningSummary" (or_empty (get "reasoning_summary" event.payload)) end))
    else if text_eq source_type (codes "RunStop")
    then projected event AgentStreamEventType.run_completed none none
        (field "status" (str (codes "completed")) (field "completedAt" (str event.occurred_at) end))
    else if text_eq source_type (codes "RunFailed")
    then projected event AgentStreamEventType.error none none
        (spread event.payload (field "message" (str (codes "Agent 运行失败")) end))
    else if text_eq source_type (codes "Heartbeat")
    then projected event AgentStreamEventType.heartbeat none none end
    else projected event AgentStreamEventType.heartbeat none none (
        field "sourceEventType" (str (elim source_type [ [] ↦ codes "unknown" | c ∷ t ↦ c ∷ t ]))
          end)

pub project_agent_event : RuntimeEvent → AgentStreamEvent
unfolding project_by_type
project_agent_event event = project_by_type (string_or [] (get "event_type" event.payload)) event

-- The event of the `catch` block.
pub stream_error : Text → Text → ℕ → Text → AgentStreamEvent
stream_error session_id run_id sequence message = record {
  event_id = none;
  sequence = sequence;
  event_sequence = none;
  run_id = some run_id;
  conversation_id = some session_id;
  message_id = none;
  trace_id = none;
  observation_id = none;
  type = AgentStreamEventType.error;
  timestamp = none;
  payload = field "message" (str message) end;
  status = none;
  action = none;
}

-- How the runtime's stream ends: by itself, or by an error with its message (that of an `Error`, or
-- `runtime_stream_failed`).
pub data StreamEnding : Type 0 where
  finished : StreamEnding
  stream_failed : Text → StreamEnding

-- The `start` method: the loop over the runtime's events, with the `catch` block at its ends. The
-- result is the list of the events that are enqueued.
pub stream_from : Text → Text → ℕ → List RuntimeEvent → StreamEnding → List AgentStreamEvent
unfolding project_agent_event stream_error
stream_from session_id run_id current [] finished = []
stream_from session_id run_id current [] (stream_failed message) =
    stream_error session_id run_id (current + 1) message ∷ []
stream_from session_id run_id current (event ∷ events) ending =
    let event' = project_agent_event event in
    let rest = stream_from session_id run_id (max current event'.sequence) events ending in
    if text_eq event.session_id session_id
    then event' ∷ rest
    else stream_error session_id run_id (current + 1) (codes "runtime_stream_session_mismatch") ∷ []

-- `streamRuntimeEvents`
pub stream_runtime_events :
    Text → Text → ℕ → List RuntimeEvent → StreamEnding → List AgentStreamEvent
unfolding stream_from
stream_runtime_events session_id run_id after_sequence events ending =
    stream_from session_id run_id after_sequence events ending
