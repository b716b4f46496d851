-- ===== src/Control/Runtime/Calls.antt =====
-- The two clients of runtime-client.ts, and the errors of a call. The transport is a function from a
-- call to what its callback is given.
pub mod Projected
use wind_solar_ess_agent.Base.{
  ℕ, suc, ◌+◌, ◌*◌, ◌/◌, ◌-◌, Bool, true, false, ◌&&◌, ◌||◌, Option, none, some, List, [], ◌∷◌,
  ◌++◌, map, leb, ltb, ◌==◌, if◌then◌else◌, length,
}
use wind_solar_ess_agent.Js.Text.{Text, codes, trim, split_on}
use wind_solar_ess_agent.Js.Json.{Json, Fields, str, obj, end, field}
use wind_solar_ess_agent.Control.Contracts.{
  Environment, ContextSnapshot, ToolReference, SkillReference, PolicySnapshot, ApprovalStatus,
  ApprovalSnapshot, RuntimeEventType, RuntimeEvent, RuntimeTurnRequest, all,
}
use wind_solar_ess_agent.Control.Runtime.{
  RunStatus, RuntimeRunAcceptance, StringOrNumber, string, number, or_default, from_grpc_run_status,
  from_grpc_event_type, struct_to_object,
}
use wind_solar_ess_agent.Control.Runtime.Messages.{
  GrpcStartTurnRequest, GrpcStartTurnResponse, GrpcRuntimeSnapshot, RuntimeSnapshot,
  to_grpc_start_turn_request, from_grpc_runtime_snapshot, to_number,
}

-- `if (event.sequence > afterSequence) yield event`
pub events_after : ℕ → List RuntimeEvent → List RuntimeEvent
events_after after [] = []
events_after after (event ∷ events) =
    if ltb after event.sequence
    then event ∷ events_after after events
    else events_after after events

pub test_start_turn : Text → RuntimeTurnRequest → RuntimeRunAcceptance
test_start_turn uuid request = record {
  run_id = codes "run_" ++ uuid;
  session_id = request.session_id;
  status = RunStatus.running;
}

-- What is read of the error of a call; `none` stands for a field that is missing.
pub record StartError : Type 0 where
  pub code : Option StringOrNumber
  pub details : Option Text
  pub message : Option Text

-- The result of a unary call: the callback has an error, or a response.
pub data CallResult (A : Type 0) : Type 0 where
  rejected : StartError → CallResult A
  resolved : A → CallResult A

abbrev pub map_result : {A B : Type 0} → (A → B) → CallResult A → CallResult B
map_result f (rejected e) = rejected e
map_result f (resolved a) = resolved (f a)

-- `this.metadata()`, where there is a shared secret.
pub call_metadata : Text → Option Text
call_metadata [] = none
call_metadata (c ∷ secret) = some (codes "Bearer " ++ c ∷ secret)

abbrev run_acceptance : GrpcStartTurnResponse → RuntimeRunAcceptance
run_acceptance response = record {
  run_id = response.run_id;
  session_id = response.session_id;
  status = from_grpc_run_status response.status;
}

-- `GrpcRuntimeClient.startTurn`; the transport takes the message and the metadata.
pub grpc_start_turn :
    (GrpcStartTurnRequest → Option Text → CallResult GrpcStartTurnResponse)
    → Text
    → RuntimeTurnRequest
    → CallResult RuntimeRunAcceptance
unfolding call_metadata
grpc_start_turn transport secret request =
    map_result run_acceptance
      (transport (to_grpc_start_turn_request request) (call_metadata secret))

-- `GrpcRuntimeClient.getRuntimeSnapshot`
pub grpc_runtime_snapshot :
    (Text → Text → Option Text → CallResult GrpcRuntimeSnapshot)
    → Text
    → Text
    → Text
    → CallResult RuntimeSnapshot
unfolding call_metadata
grpc_runtime_snapshot transport secret session_id run_id =
    map_result from_grpc_runtime_snapshot (transport session_id run_id (call_metadata secret))

pub record StartErrorProjection : Type 0 where
  pub status : ℕ
  pub code : Text
  pub message : Text

abbrev lower : ℕ → ℕ
lower c = if leb b'A' c && leb c b'Z' then c + 32 else c

abbrev starts_with_ignoring_case : Text → Text → Bool
starts_with_ignoring_case [] t = true
starts_with_ignoring_case (p ∷ ps) [] = false
starts_with_ignoring_case (p ∷ ps) (c ∷ t) = p == lower c && starts_with_ignoring_case ps t

-- A pattern of small ASCII letters, anywhere in the text.
pub contains_ignoring_case : Text → Text → Bool
contains_ignoring_case p [] = starts_with_ignoring_case p []
contains_ignoring_case p (c ∷ t) = starts_with_ignoring_case p (c ∷ t) || contains_ignoring_case p t

-- `/modelprovidererror|model provider|bailian|deepseek/i`
pub names_model_provider : Text → Bool
unfolding contains_ignoring_case
names_model_provider t =
    contains_ignoring_case (codes "modelprovidererror") t
    || contains_ignoring_case (codes "model provider") t
    || contains_ignoring_case (codes "bailian") t
    || contains_ignoring_case (codes "deepseek") t

abbrev numeric_code : Option StringOrNumber → Option ℕ
numeric_code none = none
numeric_code (some (number n)) = some n
numeric_code (some (string t)) = to_number t

-- `[3, 9].includes(numericCode)`
pub is_request_error : Option StringOrNumber → Bool
unfolding to_number
is_request_error code = elim (numeric_code code) [ none ↦ false | some n ↦ n == 3 || n == 9 ]

pub project_runtime_start_error : StartError → StartErrorProjection
unfolding is_request_error names_model_provider
project_runtime_start_error error =
    if is_request_error error.code
    then record {
      status = 400;
      code = codes "runtime_request_invalid";
      message = codes "Agent 请求参数无效，请刷新页面后重试";
    }
    else if names_model_provider (or_default error.details (or_default error.message []))
    then record {
      status = 502;
      code = codes "model_provider_unavailable";
      message = codes "模型服务暂不可用，请稍后重试";
    }
    else record {
      status = 502;
      code = codes "runtime_unavailable";
      message = codes "Agent Runtime 当前不可用，请稍后重试";
    }
