-- ===== src/Control/Auth/Tests.antt =====
-- The theorems on tokens and session ids at a sample of `Node`.
use wind_solar_ess_agent.Base.{◌≡◌, refl, true, some, ◌∷◌, ◌++◌, drop}
use wind_solar_ess_agent.Js.Text.{Text, codes, text_eq, starts_with, split_on, trim}
use wind_solar_ess_agent.Control.Auth.{
  null_value, ControlIdentity, ok, auth_error, thrown, dotted, header_alg,
  create_control_access_token, authenticate_control_request, create_control_session_id,
  authorize_control_session, type_error,
}
use wind_solar_ess_agent.Control.Auth.Token.{authenticate-create_control_access_token}
use wind_solar_ess_agent.Control.Auth.Accepted.{IsSigned, authenticate_control_request-ok}
use wind_solar_ess_agent.Control.Auth.Session.{
  IsOwned, authorize-create_control_session_id, authorize_control_session-ok,
}
use wind_solar_ess_agent.Control.Auth.Sample.{sample_node}

abbrev alice : ControlIdentity
alice = record { user_id = codes "al"; role = codes "op"; tenant_id = codes "lab" }

abbrev mallory : ControlIdentity
mallory = record { user_id = codes "ma"; role = codes "op"; tenant_id = codes "lab" }

abbrev key : Text
key = codes "ey"

-- The token made for Alice at second 5 for 10 seconds.
abbrev token : Text
token =
    dotted
      (dotted (sample_node.base64url (codes "h")) (
        sample_node.base64url (
          sample_node.payload_json (record {
            sub = some (codes "al");
            exp = some 15;
            role = some (codes "op");
            tenant_id = some (codes "lab");
          }))))
      (codes "sig")

token_made : create_control_access_token sample_node alice 10 5 (some (b'k' ∷ key)) ≡ ok token
unfolding sample_node create_control_access_token
token_made = refl

authenticate-create_control_access_token_example :
    authenticate_control_request sample_node (some (b'k' ∷ key)) 9 (some (codes "Bearer " ++ token))
    ≡ ok alice
unfolding sample_node
authenticate-create_control_access_token_example =
    authenticate-create_control_access_token sample_node alice 10 5 9 b'k' key token refl token_made

authenticate_control_request-ok_example :
    (starts_with (codes "Bearer ") (codes "Bearer " ++ token) ≡ true)
    × IsSigned sample_node
        (b'k' ∷ key)
        9
        alice
        (split_on b'.' (trim (drop 7 (codes "Bearer " ++ token))))
unfolding sample_node
authenticate_control_request-ok_example =
    authenticate_control_request-ok sample_node b'k' key 9 (some (codes "Bearer " ++ token)) alice
      authenticate-create_control_access_token_example

abbrev session_id : Text
session_id =
    codes "session_"
    ++ dotted (sample_node.base64url (codes "al") ++ b'~' ∷ codes "f00d") (codes "sig")

session_id_made :
    create_control_session_id sample_node alice (codes "f00d") (some (b'k' ∷ key)) ≡ ok session_id
unfolding sample_node create_control_session_id
session_id_made = refl

authorize-create_control_session_id_example :
    authorize_control_session sample_node (some (b'k' ∷ key)) mallory session_id
    ≡ auth_error 403 (codes "session_forbidden")
unfolding sample_node text_eq
authorize-create_control_session_id_example =
    authorize-create_control_session_id sample_node alice mallory (codes "f00d") b'k' key session_id
      (refl, (refl, (refl, (refl, tt)))) refl session_id_made

alice_passes : authorize_control_session sample_node (some (b'k' ∷ key)) alice session_id ≡ ok tt
unfolding sample_node text_eq
alice_passes =
    authorize-create_control_session_id sample_node alice alice (codes "f00d") b'k' key session_id
      (refl, (refl, (refl, (refl, tt)))) refl session_id_made

authorize_control_session-ok_example : IsOwned sample_node (b'k' ∷ key) (codes "al") session_id
unfolding sample_node
authorize_control_session-ok_example =
    authorize_control_session-ok sample_node b'k' key alice session_id alice_passes

-- A header whose JSON is `null` is read by `header.alg`, which throws.
null_header : header_alg null_value ≡ thrown type_error
unfolding sample_node header_alg
null_header = refl
