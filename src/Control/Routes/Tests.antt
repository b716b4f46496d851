-- ===== src/Control/Routes/Tests.antt =====
-- The handlers at the sample of `Node`, and their theorems there.
use wind_solar_ess_agent.Base.{◌≡◌, refl, none, some, [], ◌∷◌, ◌++◌, arith}
use wind_solar_ess_agent.Js.Text.{
  Text, codes, text_eq, trim, trim_start, is_space, split_on, starts_with,
}
use wind_solar_ess_agent.Control.Contracts.{
  ApprovalStatus, TurnInput, RuntimeTurnRequest, parse_turn_input, to_runtime_turn_request,
}
use wind_solar_ess_agent.Control.Auth.{
  authenticate_control_request, authorize_control_session, timing_safe_equal,
}
use wind_solar_ess_agent.Control.Auth.Sample.{sample_node}
use wind_solar_ess_agent.Control.Runtime.{RuntimeRunAcceptance, number}
use wind_solar_ess_agent.Control.Runtime.Calls.{StartError, CallResult, rejected}
use wind_solar_ess_agent.Control.Routes.{
  invalid_json, shaped, failure, login, users_me, create_turn,
}
use wind_solar_ess_agent.Control.Routes.Login.{users_me-login}
use wind_solar_ess_agent.Control.Routes.Turns.{IsAllowed, create_turn-IsAllowed}

users_me-login_example :
    (token : Text) × (login sample_node
        (some (b'k' ∷ codes "ey"))
        5
        none
        (some (codes "pw"))
        (shaped (record { username = codes " admin "; password = codes "pw" }))
      ≡ some (record { status = 200; code = 0; message = codes "ok"; result = some token }))
    × (users_me sample_node (some (b'k' ∷ codes "ey")) 9 (some (codes "Bearer " ++ token))
        ≡ some (record {
          status = 200;
          code = 0;
          message = codes "ok";
          result = some (record { id = codes "admin"; role = codes "admin" });
        }))
unfolding trim trim_start is_space
users_me-login_example =
    users_me-login sample_node none b'k' b'p' 5 9 (codes "ey") (codes "w") (codes " admin ") refl
      refl (omega arith)

abbrev broken : StartError
broken = record { code = some (number 14); details = some (codes "no runtime"); message = none }

abbrev refuse : RuntimeTurnRequest → CallResult RuntimeRunAcceptance
refuse request = rejected broken

missing_token :
    (create_turn sample_node (some (codes "key")) 5 broken refuse none (codes "s") invalid_json).1
    ≡ failure 401 (codes "auth_missing")
unfolding create_turn authenticate_control_request text_eq starts_with
missing_token = refl

-- The token of the user "a", who is an operator, and a session that is made for this user.
abbrev token : Text
token =
    sample_node.base64url (codes "h")
    ++ b'.'
      ∷ (sample_node.base64url (
            sample_node.payload_json (record {
              sub = some (codes "a");
              exp = some 15;
              role = some (codes "op");
              tenant_id = some (codes "lab");
            }))
          ++ b'.' ∷ codes "sig")

abbrev session_id : Text
session_id = codes "session_" ++ (sample_node.base64url (codes "a") ++ b'~' ∷ codes "f00d.sig")

abbrev question : TurnInput
question = record {
  text = codes " soc? ";
  context = record { selected_asset_id = none; environment = none; attributes = none };
  tool_refs = [];
  skill_refs = [];
  policy = record { visible_tool_ids = []; workflow_stage = none };
  approval = record { status = ApprovalStatus.not_required; approval_id = none; comment = none };
}

abbrev asked : RuntimeTurnRequest
asked = record {
  session_id = session_id;
  text = codes "soc?";
  context = question.context;
  tool_refs = [];
  skill_refs = [];
  policy = question.policy;
  approval = question.approval;
}

runtime_called :
    (create_turn sample_node
      (some (b'k' ∷ codes "ey"))
      5
      broken
      refuse
      (some (codes "Bearer " ++ token))
      session_id
      (shaped question)).0
    ≡ some asked
unfolding sample_node create_turn authenticate_control_request authorize_control_session
    timing_safe_equal parse_turn_input to_runtime_turn_request trim is_space text_eq split_on
    starts_with
runtime_called = refl

create_turn-IsAllowed_example :
    IsAllowed sample_node
      (b'k' ∷ codes "ey")
      5
      (some (codes "Bearer " ++ token))
      session_id
      (shaped question)
      asked
create_turn-IsAllowed_example =
    create_turn-IsAllowed sample_node b'k' (codes "ey") 5 broken refuse
      (some (codes "Bearer " ++ token)) session_id (shaped question) asked runtime_called
