-- ===== src/Control/Runtime/Messages.antt =====
-- The messages of runtime-client.ts, and how they are converted. The time and `toISOString` are
-- arguments.
use wind_solar_ess_agent.Base.{
  ℕ, ◌+◌, ◌*◌, ◌/◌, ◌-◌, Bool, ◌&&◌, Option, none, some, List, [], ◌∷◌, ◌++◌, map, leb, ◌==◌,
  if◌then◌else◌,
}
use wind_solar_ess_agent.Js.Text.{Text, codes, trim, split_on}
use wind_solar_ess_agent.Js.Json.{Json, Fields, str, obj, end, field}
use wind_solar_ess_agent.Control.Contracts.{
  Environment, ToolReference, SkillReference, ApprovalStatus, RuntimeEventType, RuntimeEvent,
  RuntimeTurnRequest, all,
}
use wind_solar_ess_agent.Control.Runtime.{
  RunStatus, StringOrNumber, or_default, from_grpc_run_status, from_grpc_event_type,
  struct_to_object,
}

-- The numbers come as a number or as its digits, which `Number` reads; `none` is a missing field.
pub record GrpcTimestamp : Type 0 where
  pub seconds : Option ℕ
  pub nanos : Option ℕ

pub record GrpcRuntimeEvent : Type 0 where
  pub event_id : Text
  pub event_type : StringOrNumber
  pub session_id : Text
  pub run_id : Text
  pub sequence : Option ℕ
  pub occurred_at : Option GrpcTimestamp
  pub payload : Json

pub record GrpcContext : Type 0 where
  pub selected_asset_id : Text
  pub environment : Text
  pub attributes : List (Text × Text)

pub record GrpcStartTurnRequest : Type 0 where
  pub session_id : Text
  pub text : Text
  pub context : GrpcContext
  pub tool_refs : List (Text × Text)
  pub skill_refs : List (Text × Text)
  pub visible_tool_ids : List Text
  pub workflow_stage : Text
  pub approval_status : Text
  pub approval_id : Text
  pub approval_comment : Text

pub record GrpcStartTurnResponse : Type 0 where
  pub run_id : Text
  pub session_id : Text
  pub status : StringOrNumber

-- `tools` and `skills`
pub record Projection : Type 0 where
  pub id : Text
  pub version : Text
  pub display_name : Text
  pub description : Text

pub record GrpcRuntimeSnapshot : Type 0 where
  pub session_id : Text
  pub run_id : Text
  pub context : Option GrpcContext
  pub tools : Option (List Projection)
  pub skills : Option (List Projection)
  pub run_status : StringOrNumber

-- The environment is the text that the runtime sends, whatever it is.
pub record RuntimeSnapshot : Type 0 where
  pub session_id : Text
  pub run_id : Text
  pub selected_asset_id : Option Text
  pub environment : Option Text
  pub attributes : List (Text × Text)
  pub tools : List Projection
  pub skills : List Projection
  pub run_status : RunStatus

abbrev environment_name : Environment → Text
environment_name Environment.dev = codes "dev"
environment_name Environment.sandbox = codes "sandbox"
environment_name Environment.prod = codes "prod"

abbrev environment_or_empty : Option Environment → Text
environment_or_empty none = []
environment_or_empty (some e) = environment_name e

-- `approvalStatusByControlStatus`
abbrev approval_status_name : ApprovalStatus → Text
approval_status_name ApprovalStatus.not_required = codes "APPROVAL_STATUS_NOT_REQUIRED"
approval_status_name ApprovalStatus.required = codes "APPROVAL_STATUS_REQUIRED"
approval_status_name ApprovalStatus.approved = codes "APPROVAL_STATUS_APPROVED"
approval_status_name ApprovalStatus.rejected = codes "APPROVAL_STATUS_REJECTED"

pub to_grpc_start_turn_request : RuntimeTurnRequest → GrpcStartTurnRequest
to_grpc_start_turn_request request = record {
  session_id = request.session_id;
  text = request.text;
  context = record {
    selected_asset_id = or_default request.context.selected_asset_id [];
    environment = environment_or_empty request.context.environment;
    attributes = or_default request.context.attributes [];
  };
  tool_refs = map (λ (r : ToolReference). (r.tool_id, r.version)) request.tool_refs;
  skill_refs = map (λ (r : SkillReference). (r.skill_id, r.version)) request.skill_refs;
  visible_tool_ids = request.policy.visible_tool_ids;
  workflow_stage = or_default request.policy.workflow_stage [];
  approval_status = approval_status_name request.approval.status;
  approval_id = or_default request.approval.approval_id [];
  approval_comment = or_default request.approval.comment [];
}

-- `response.context?.selectedAssetId || undefined`
abbrev selected_asset : Option GrpcContext → Option Text
selected_asset none = none
selected_asset (some c) = elim c.selected_asset_id [ [] ↦ none | x ∷ t ↦ some (x ∷ t) ]

abbrev context_attributes : Option GrpcContext → List (Text × Text)
context_attributes none = []
context_attributes (some c) = c.attributes

abbrev context_environment : Option GrpcContext → Option Text
context_environment none = none
context_environment (some c) = some c.environment

pub from_grpc_runtime_snapshot : GrpcRuntimeSnapshot → RuntimeSnapshot
unfolding from_grpc_run_status
from_grpc_runtime_snapshot response = record {
  session_id = response.session_id;
  run_id = response.run_id;
  selected_asset_id = selected_asset response.context;
  environment = context_environment response.context;
  attributes = context_attributes response.context;
  tools = or_default response.tools [];
  skills = or_default response.skills [];
  run_status = from_grpc_run_status response.run_status;
}

abbrev is_digits : Text → Bool
is_digits t = all (λ c. leb b'0' c && leb c b'9') t

abbrev digits_value : ℕ → Text → ℕ
digits_value acc [] = acc
digits_value acc (c ∷ t) = digits_value (acc * 10 + (c - b'0')) t

-- `Number(t)`: white space alone is 0. A text that writes a number otherwise than in digits is
-- taken for one that writes none.
unfoldable pub to_number : Text → Option ℕ
to_number t = if is_digits (trim t) then some (digits_value 0 (trim t)) else none

abbrev last_part : List Text → Text
last_part [] = []
last_part (t ∷ []) = t
last_part (t ∷ u ∷ parts) = last_part (u ∷ parts)

pub event_sequence : Text → ℕ
unfolding to_number
event_sequence event_id = or_default (to_number (last_part (split_on b':' event_id))) 0

-- `milliseconds || Date.now()`
abbrev time_or_now : ℕ → ℕ → ℕ
time_or_now now milliseconds = if milliseconds == 0 then now else milliseconds

abbrev milliseconds_of : Option GrpcTimestamp → ℕ
milliseconds_of none = 0
milliseconds_of (some t) = or_default t.seconds 0 * 1000 + or_default t.nanos 0 / 1000000

-- `structToObject` yields an object, or a list, in which none of the keys is found that are read.
abbrev object_fields : Json → Fields
object_fields (obj fs) = fs
object_fields _ = end

module _ (to_iso : ℕ → Text) (now : ℕ) where
  pub timestamp_to_iso : Option GrpcTimestamp → Text
  timestamp_to_iso timestamp = to_iso (time_or_now now (milliseconds_of timestamp))

  pub from_grpc_runtime_event : GrpcRuntimeEvent → RuntimeEvent
  unfolding timestamp_to_iso from_grpc_event_type event_sequence
  from_grpc_runtime_event response = record {
    event_id = response.event_id;
    event_type = from_grpc_event_type response.event_type;
    session_id = response.session_id;
    run_id = response.run_id;
    sequence = or_default response.sequence (event_sequence response.event_id);
    occurred_at = timestamp_to_iso response.occurred_at;
    payload = object_fields (struct_to_object response.payload);
  }

  test_event : Text → ℕ → RuntimeEventType → Fields → RuntimeEvent
  test_event run_id sequence type payload = record {
    event_id = run_id ++ (b':' ∷ (b'0' + sequence) ∷ []);
    event_type = type;
    session_id = codes "test-session";
    run_id = run_id;
    sequence = sequence;
    occurred_at = to_iso now;
    payload = payload;
  }

  -- The two events of `TestRuntimeClient.streamRunEvents`.
  pub test_events : Text → List RuntimeEvent
  unfolding test_event
  test_events run_id =
      test_event run_id 1 RuntimeEventType.run_accepted
        (field "event_type" (str (codes "RunStart")) end)
      ∷ test_event run_id 2 RuntimeEventType.run_completed (
          field "event_type" (str (codes "RunStop")) (field "status" (str (codes "completed")) end))
      ∷ []
