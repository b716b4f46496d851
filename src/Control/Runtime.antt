-- ===== src/Control/Runtime.antt =====
-- runtime-client.ts: the control server's client of the agent runtime. gRPC itself is not modelled: a
-- message is the object that the loader makes of it, and a call is a function or a list of messages.
pub mod Values
pub mod Messages
pub mod Calls
pub mod Enums
mod Tests
use wind_solar_ess_agent.Base.{
  ℕ, ◌+◌, ◌*◌, ◌/◌, ◌-◌, Bool, true, false, ◌&&◌, ◌||◌, Option, none, some, List, [], ◌∷◌, ◌++◌,
  map, String, leb, ltb, ◌==◌, if◌then◌else◌,
}
use wind_solar_ess_agent.Js.Text.{Text, codes, text_eq, trim, split_on}
use wind_solar_ess_agent.Js.Json.{
  Json, Fields, Items, null, bool, num, str, arr, obj, nil, cons, end, field, get, nullish, truthy,
}
use text.Mathlib.Text.{◌==◌ as str_eq}
use wind_solar_ess_agent.Control.Contracts.{
  Environment, ContextSnapshot, ToolReference, SkillReference, PolicySnapshot, ApprovalStatus,
  ApprovalSnapshot, RuntimeEventType, RuntimeEvent, RuntimeTurnRequest,
}

pub data RunStatus : Type 0 where
  accepted running waiting completed failed cancelled : RunStatus

pub record RuntimeRunAcceptance : Type 0 where
  pub run_id : Text
  pub session_id : Text
  pub status : RunStatus

-- A number or a text; an enumeration comes as either.
pub data StringOrNumber : Type 0 where
  string : Text → StringOrNumber
  number : ℕ → StringOrNumber

-- `controlRunStatusByGrpcNumber`
abbrev run_status_by_number : ℕ → Option RunStatus
run_status_by_number n =
    if n == 1
    then some accepted
    else if n == 2
    then some running
    else if n == 3
    then some waiting
    else if n == 4
    then some completed
    else if n == 5
    then some failed
    else if n == 6
    then some cancelled
    else none

-- `controlRunStatusByGrpcStatus`
abbrev run_status_by_name : Text → Option RunStatus
run_status_by_name t =
    if text_eq t (codes "RUN_STATUS_ACCEPTED")
    then some accepted
    else if text_eq t (codes "RUN_STATUS_RUNNING")
    then some running
    else if text_eq t (codes "RUN_STATUS_WAITING")
    then some waiting
    else if text_eq t (codes "RUN_STATUS_COMPLETED")
    then some completed
    else if text_eq t (codes "RUN_STATUS_FAILED")
    then some failed
    else if text_eq t (codes "RUN_STATUS_CANCELLED")
    then some cancelled
    else none

abbrev pub or_default : {A : Type 0} → Option A → A → A
or_default none d = d
or_default (some a) d = a

pub from_grpc_run_status : StringOrNumber → RunStatus
from_grpc_run_status (number n) = or_default (run_status_by_number n) failed
from_grpc_run_status (string t) = or_default (run_status_by_name t) failed

-- `controlEventTypeByGrpcNumber`
abbrev event_type_by_number : ℕ → Option RuntimeEventType
event_type_by_number n =
    if n == 1
    then some RuntimeEventType.run_accepted
    else if n == 2
    then some RuntimeEventType.intent_resolved
    else if n == 3
    then some RuntimeEventType.plan_updated
    else if n == 4
    then some RuntimeEventType.tool_selected
    else if n == 5
    then some RuntimeEventType.tool_completed
    else if n == 6
    then some RuntimeEventType.evidence_updated
    else if n == 7
    then some RuntimeEventType.approval_required
    else if n == 8
    then some RuntimeEventType.run_completed
    else if n == 9
    then some RuntimeEventType.run_failed
    else none

-- `controlEventTypeByGrpcType`
abbrev event_type_by_name : Text → Option RuntimeEventType
event_type_by_name t =
    if text_eq t (codes "RUNTIME_EVENT_TYPE_RUN_ACCEPTED")
    then some RuntimeEventType.run_accepted
    else if text_eq t (codes "RUNTIME_EVENT_TYPE_INTENT_RESOLVED")
    then some RuntimeEventType.intent_resolved
    else if text_eq t (codes "RUNTIME_EVENT_TYPE_PLAN_UPDATED")
    then some RuntimeEventType.plan_updated
    else if text_eq t (codes "RUNTIME_EVENT_TYPE_TOOL_SELECTED")
    then some RuntimeEventType.tool_selected
    else if text_eq t (codes "RUNTIME_EVENT_TYPE_TOOL_COMPLETED")
    then some RuntimeEventType.tool_completed
    else if text_eq t (codes "RUNTIME_EVENT_TYPE_EVIDENCE_UPDATED")
    then some RuntimeEventType.evidence_updated
    else if text_eq t (codes "RUNTIME_EVENT_TYPE_APPROVAL_REQUIRED")
    then some RuntimeEventType.approval_required
    else if text_eq t (codes "RUNTIME_EVENT_TYPE_RUN_COMPLETED")
    then some RuntimeEventType.run_completed
    else if text_eq t (codes "RUNTIME_EVENT_TYPE_RUN_FAILED")
    then some RuntimeEventType.run_failed
    else none

pub from_grpc_event_type : StringOrNumber → RuntimeEventType
from_grpc_event_type (number n) = or_default (event_type_by_number n) RuntimeEventType.plan_updated
from_grpc_event_type (string t) = or_default (event_type_by_name t) RuntimeEventType.plan_updated

-- `protobufValue` and `structToObject`. A call on a value that is found under a key runs over the
-- fields to that key: `struct_at`, `list_at` and `entries_at`.
unfoldable mutual
  pub protobuf_value : Json → Json
  protobuf_value (obj item) =
      if has "nullValue" item
      then null
      else or_default (get "stringValue" item) (
          or_default (get "numberValue" item) (
            or_default (get "boolValue" item)
              (or_default (struct_at item) (or_default (list_at item) (obj item)))))
  protobuf_value value = value

  pub struct_to_object : Json → Json
  struct_to_object (obj candidate) =
      if truthy (get "fields" candidate) then entries_at candidate else obj candidate
  struct_to_object (arr items) = arr items
  struct_to_object _ = obj end

  -- `key in item`
  pub has : String → Fields → Bool
  has key end = false
  has key (field k v item) = str_eq k key || has key item

  -- `structToObject(item.structValue)`, if there is the key.
  pub struct_at : Fields → Option Json
  struct_at end = none
  struct_at (field k v item) =
      if str_eq k "structValue" then some (struct_to_object v) else struct_at item

  -- `(item.listValue.values ?? []).map(protobufValue)`, if there is the key.
  pub list_at : Fields → Option Json
  list_at end = none
  list_at (field k v item) =
      if str_eq k "listValue" then some (arr (list_values v)) else list_at item

  -- The protocol's library gives an object here and below, with a list of values or none. For other
  -- values, at which the source throws or copies what is there, the result is empty.
  pub list_values : Json → Items
  list_values (obj list) = values_at list
  list_values _ = nil

  pub values_at : Fields → Items
  values_at end = nil
  values_at (field k v list) = if str_eq k "values" then items_of v else values_at list

  pub items_of : Json → Items
  items_of (arr items) = protobuf_items items
  items_of _ = nil

  pub protobuf_items : Items → Items
  protobuf_items nil = nil
  protobuf_items (cons v items) = cons (protobuf_value v) (protobuf_items items)

  -- `Object.fromEntries(Object.entries(candidate.fields).map(…))`
  pub entries_at : Fields → Json
  entries_at end = obj end
  entries_at (field k v candidate) =
      if str_eq k "fields" then entries_of v else entries_at candidate

  -- The protocol's library gives an object.
  pub entries_of : Json → Json
  entries_of (obj fields) = obj (protobuf_fields fields)
  entries_of _ = obj end

  pub protobuf_fields : Fields → Fields
  protobuf_fields end = end
  protobuf_fields (field k v fields) = field k (protobuf_value v) (protobuf_fields fields)
