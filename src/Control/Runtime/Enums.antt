-- ===== src/Control/Runtime/Enums.antt =====
-- Enumerations of the runtime (runtime-client.ts): the loader gives a member by its name or by its
-- number, and the client reads both alike.
use wind_solar_ess_agent.Base.{ℕ, ◌≡◌, refl}
use wind_solar_ess_agent.Js.Text.{Text, codes, text_eq}
use wind_solar_ess_agent.Control.Contracts.{RuntimeEventType}
use wind_solar_ess_agent.Control.Runtime.{
  RunStatus, string, number, from_grpc_run_status, from_grpc_event_type,
}

-- The names and the numbers of proto/agent_runtime/v1/runtime.proto.
abbrev pub run_status_name : RunStatus → Text
run_status_name RunStatus.accepted = codes "RUN_STATUS_ACCEPTED"
run_status_name RunStatus.running = codes "RUN_STATUS_RUNNING"
run_status_name RunStatus.waiting = codes "RUN_STATUS_WAITING"
run_status_name RunStatus.completed = codes "RUN_STATUS_COMPLETED"
run_status_name RunStatus.failed = codes "RUN_STATUS_FAILED"
run_status_name RunStatus.cancelled = codes "RUN_STATUS_CANCELLED"

abbrev pub run_status_number : RunStatus → ℕ
run_status_number RunStatus.accepted = 1
run_status_number RunStatus.running = 2
run_status_number RunStatus.waiting = 3
run_status_number RunStatus.completed = 4
run_status_number RunStatus.failed = 5
run_status_number RunStatus.cancelled = 6

abbrev pub event_type_name : RuntimeEventType → Text
event_type_name RuntimeEventType.run_accepted = codes "RUNTIME_EVENT_TYPE_RUN_ACCEPTED"
event_type_name RuntimeEventType.intent_resolved = codes "RUNTIME_EVENT_TYPE_INTENT_RESOLVED"
event_type_name RuntimeEventType.plan_updated = codes "RUNTIME_EVENT_TYPE_PLAN_UPDATED"
event_type_name RuntimeEventType.tool_selected = codes "RUNTIME_EVENT_TYPE_TOOL_SELECTED"
event_type_name RuntimeEventType.tool_completed = codes "RUNTIME_EVENT_TYPE_TOOL_COMPLETED"
event_type_name RuntimeEventType.evidence_updated = codes "RUNTIME_EVENT_TYPE_EVIDENCE_UPDATED"
event_type_name RuntimeEventType.approval_required = codes "RUNTIME_EVENT_TYPE_APPROVAL_REQUIRED"
event_type_name RuntimeEventType.run_completed = codes "RUNTIME_EVENT_TYPE_RUN_COMPLETED"
event_type_name RuntimeEventType.run_failed = codes "RUNTIME_EVENT_TYPE_RUN_FAILED"

abbrev pub event_type_number : RuntimeEventType → ℕ
event_type_number RuntimeEventType.run_accepted = 1
event_type_number RuntimeEventType.intent_resolved = 2
event_type_number RuntimeEventType.plan_updated = 3
event_type_number RuntimeEventType.tool_selected = 4
event_type_number RuntimeEventType.tool_completed = 5
event_type_number RuntimeEventType.evidence_updated = 6
event_type_number RuntimeEventType.approval_required = 7
event_type_number RuntimeEventType.run_completed = 8
event_type_number RuntimeEventType.run_failed = 9

run_status-name : (s : RunStatus) → from_grpc_run_status (string (run_status_name s)) ≡ s
unfolding from_grpc_run_status text_eq
run_status-name RunStatus.accepted = refl
run_status-name RunStatus.running = refl
run_status-name RunStatus.waiting = refl
run_status-name RunStatus.completed = refl
run_status-name RunStatus.failed = refl
run_status-name RunStatus.cancelled = refl

run_status-number : (s : RunStatus) → from_grpc_run_status (number (run_status_number s)) ≡ s
unfolding from_grpc_run_status
run_status-number RunStatus.accepted = refl
run_status-number RunStatus.running = refl
run_status-number RunStatus.waiting = refl
run_status-number RunStatus.completed = refl
run_status-number RunStatus.failed = refl
run_status-number RunStatus.cancelled = refl

event_type-name : (t : RuntimeEventType) → from_grpc_event_type (string (event_type_name t)) ≡ t
unfolding from_grpc_event_type text_eq
event_type-name RuntimeEventType.run_accepted = refl
event_type-name RuntimeEventType.intent_resolved = refl
event_type-name RuntimeEventType.plan_updated = refl
event_type-name RuntimeEventType.tool_selected = refl
event_type-name RuntimeEventType.tool_completed = refl
event_type-name RuntimeEventType.evidence_updated = refl
event_type-name RuntimeEventType.approval_required = refl
event_type-name RuntimeEventType.run_completed = refl
event_type-name RuntimeEventType.run_failed = refl

event_type-number : (t : RuntimeEventType) → from_grpc_event_type (number (event_type_number t)) ≡ t
unfolding from_grpc_event_type
event_type-number RuntimeEventType.run_accepted = refl
event_type-number RuntimeEventType.intent_resolved = refl
event_type-number RuntimeEventType.plan_updated = refl
event_type-number RuntimeEventType.tool_selected = refl
event_type-number RuntimeEventType.tool_completed = refl
event_type-number RuntimeEventType.evidence_updated = refl
event_type-number RuntimeEventType.approval_required = refl
event_type-number RuntimeEventType.run_completed = refl
event_type-number RuntimeEventType.run_failed = refl

-- Every status of a run and every type of an event is read back from its name and from its number
-- in the runtime's protocol.
enumerations_read_back :
    (s : RunStatus) (t : RuntimeEventType)
    → (from_grpc_run_status (string (run_status_name s)) ≡ s)
      × (from_grpc_run_status (number (run_status_number s)) ≡ s)
      × (from_grpc_event_type (string (event_type_name t)) ≡ t)
      × (from_grpc_event_type (number (event_type_number t)) ≡ t)
enumerations_read_back s t =
    (run_status-name s, run_status-number s, event_type-name t, event_type-number t)
