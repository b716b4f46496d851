-- ===== src/Workbench/Gateway/Tests.antt =====
-- The gateway's calls against a server that forgets sessions, and their theorems there.
use wind_solar_ess_agent.Base.{◌+◌, ◌≤◌, ◌≡◌, refl, false, none, some, List, [], length}
use wind_solar_ess_agent.Js.Text.{codes, text_eq, starts_with}
use wind_solar_ess_agent.Js.Storage.{get_item, set_item}
use wind_solar_ess_agent.Control.Contracts.{ApprovalStatus, TurnInput, RuntimeTurnRequest}
use wind_solar_ess_agent.Control.Auth.{authenticate_control_request}
use wind_solar_ess_agent.Control.Auth.Sample.{sample_node}
use wind_solar_ess_agent.Control.Runtime.{RuntimeRunAcceptance, number}
use wind_solar_ess_agent.Control.Runtime.Calls.{StartError, CallResult, rejected}
use wind_solar_ess_agent.Control.Routes.{invalid_json, create_turn}
use wind_solar_ess_agent.Workbench.Gateway.{
  Request, Answer, answered, session_data, session_body, World, gateway_error, gateway_error_of,
  is_stale_session_error, submit_with_stale_session_recovery, continue_with, read_envelope, call,
  ensure_agent_session, submit_agent_turn, recover, clear_agent_session,
}
use wind_solar_ess_agent.Workbench.Gateway.Submission.{turns, submit_bounds}
use wind_solar_ess_agent.Workbench.Gateway.Stale.{failure_response, create_turn-not_stale}

abbrev broken : StartError
broken = record { code = some (number 14); details = some (codes "no runtime"); message = none }

abbrev refuse : RuntimeTurnRequest → CallResult RuntimeRunAcceptance
refuse request = rejected broken

create_turn-not_stale_example :
    is_stale_session_error (
      gateway_error
        (gateway_error_of (failure_response (codes "auth_missing") 401 (codes "auth_missing"))))
    ≡ false
unfolding create_turn authenticate_control_request text_eq starts_with
create_turn-not_stale_example =
    create_turn-not_stale sample_node (some (codes "key")) 5 broken refuse none (codes "s")
      invalid_json 401 (codes "auth_missing") (codes "auth_missing") refl

abbrev question : TurnInput
question = record {
  text = codes "soc?";
  context = record { selected_asset_id = none; environment = none; attributes = none };
  tool_refs = [];
  skill_refs = [];
  policy = record { visible_tool_ids = []; workflow_stage = none };
  approval = record { status = ApprovalStatus.not_required; approval_id = none; comment = none };
}

-- A server that makes a session "s", and knows no session at any turn.
abbrev forgetful : List Request → Request → Answer
forgetful earlier request = elim request.body [
  | some (session_body _ _ _ _ _) ↦ answered (record {
    status = 201;
    envelope = some (record {
      error = none;
      detail = none;
      trace_id = none;
      result = some (session_data (codes "s"));
    });
  })
  | _ ↦ answered (failure_response (codes "gone") 404 (codes "agent_session_not_found"))
]

abbrev empty_world : World
empty_world = record { storage = []; requests = [] }

-- All four requests are sent.
four_requests :
    length
      (submit_with_stale_session_recovery
        (λ t. t)
        (λ t. none)
        forgetful
        (codes "st")
        question
        (codes "token")
        empty_world).0.requests
    ≡ 4
unfolding submit_with_stale_session_recovery recover ensure_agent_session submit_agent_turn call
    continue_with clear_agent_session is_stale_session_error set_item get_item text_eq starts_with
    read_envelope
four_requests = refl

submit_bounds_example :
    let w' =
      (submit_with_stale_session_recovery
        (λ t. t)
        (λ t. none)
        forgetful
        (codes "st")
        question
        (codes "token")
        empty_world).0 in
    (length w'.requests ≤ 0 + 4) × (turns w'.requests ≤ 0 + 2)
submit_bounds_example =
    submit_bounds (λ t. t) (λ t. none) forgetful (codes "st") question (codes "token") empty_world
