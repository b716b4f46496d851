-- ===== src/Workbench/Gateway.antt =====
-- agent-stream-client.ts, the calls of the gateway: the login token, the session of a site, the turn
-- of a message, the snapshot of a run; and the submission that renews a stale session
-- (AgentStreamingWorkbench.tsx). The server is an argument: what it answers to a request after the
-- earlier ones. So are `encodeURIComponent` and the reading of a JSON text in base64.
pub mod Submission
pub mod Stale
mod Tests
use wind_solar_ess_agent.Base.{
  ℕ, Bool, true, false, not, ◌&&◌, ◌||◌, Option, none, some, List, [], ◌∷◌, ◌++◌, map, leb, ◌==◌,
  if◌then◌else◌,
}
use wind_solar_ess_agent.Js.Text.{Text, codes, decimal, includes, split_on}
use wind_solar_ess_agent.Js.Storage.{Storage, get_item, set_item, remove_item}
use wind_solar_ess_agent.Control.Contracts.{TurnInput}
use wind_solar_ess_agent.Workbench.Client.{StreamError, abort_error, failure, closed_early}

-- The data of an envelope, by the request that it answers. Where an object is there, so are its
-- fields, as the types of the source say; other data makes the reading of a field throw.
pub data EnvelopeData : Type 0 where
  session_data : Text → EnvelopeData
  run_data : Text → Text → Text → EnvelopeData
  snapshot_data : Text → Text → Text → EnvelopeData
  other_data : EnvelopeData

pub record EnvelopeError : Type 0 where
  pub message : Option Text
  pub code : Option Text

-- `none` stands for a field that is missing.
pub record Envelope : Type 0 where
  pub error : Option EnvelopeError
  pub detail : Option Text
  pub trace_id : Option Text
  pub result : Option EnvelopeData

-- An answer; its body is `none` where it is no JSON, or `null`.
pub record Response : Type 0 where
  pub status : ℕ
  pub envelope : Option Envelope

pub record GatewayError : Type 0 where
  pub message : Text
  pub code : Option Text
  pub trace_id : Option Text
  pub status : ℕ

-- What the calls throw: a `GatewayError`, or what the stream's loop may throw too.
pub data AgentError : Type 0 where
  gateway_error : GatewayError → AgentError
  other_error : StreamError → AgentError

pub data Result (A : Type 0) : Type 0 where
  returned : A → Result A
  thrown : AgentError → Result A

-- The body of a POST request.
pub data RequestBody : Type 0 where
  session_body : (user_id role site_id environment trusted_site_id : Text) → RequestBody
  turn_body : TurnInput → RequestBody

pub record Request : Type 0 where
  pub path : Text
  pub authorization : Text
  pub body : Option RequestBody

pub data Answer : Type 0 where
  rejected : StreamError → Answer
  answered : Response → Answer

-- What the calls read and change: the storage, and the requests that were sent, the newest first.
pub record World : Type 0 where
  pub storage : Storage
  pub requests : List Request

abbrev pub Action : Type 0 → Type 0
Action A = World → World × Result A

unfoldable pub continue_with : {A B : Type 0} → World × Result A → (A → Action B) → World × Result B
continue_with (w, returned a) next = next a w
continue_with (w, thrown error) next = (w, thrown error)

infixr 20 ◌>>=◌
abbrev pub ◌>>=◌ : {A B : Type 0} → Action A → (A → Action B) → Action B
(action >>= next) w = continue_with (action w) next

abbrev pub finish_with : {A : Type 0} → Result A → Action A
finish_with result w = (w, result)

abbrev pub store : (Storage → Storage) → Action (Unit {0})
store change w = (record w { storage = change w.storage }, returned tt)

abbrev pub or_text : Option Text → Text → Text
or_text none fallback = fallback
or_text (some t) fallback = t

abbrev or_option : Option Text → Option Text → Option Text
or_option none fallback = fallback
or_option (some t) fallback = some t

-- `response.ok`
abbrev pub is_ok : Response → Bool
is_ok response = leb 200 response.status && leb response.status 299

-- `envelope?.error`
abbrev error_of : Option Envelope → Option EnvelopeError
error_of none = none
error_of (some envelope) = envelope.error

abbrev detail_of : Option Envelope → Option Text
detail_of none = none
detail_of (some envelope) = envelope.detail

abbrev trace_of : Option Envelope → Option Text
trace_of none = none
trace_of (some envelope) = envelope.trace_id

abbrev message_of : Option EnvelopeError → Option Text
message_of none = none
message_of (some error) = error.message

abbrev code_of : Option EnvelopeError → Option Text
code_of none = none
code_of (some error) = error.code

abbrev is_given : {A : Type 0} → Option A → Bool
is_given none = false
is_given (some a) = true

-- The error that `readEnvelope` makes of an answer.
pub gateway_error_of : Response → GatewayError
gateway_error_of response = record {
  message =
      or_text (or_option (message_of (error_of response.envelope)) (detail_of response.envelope))
        (codes "Agent Gateway HTTP " ++ decimal response.status);
  code = or_option (code_of (error_of response.envelope)) (detail_of response.envelope);
  trace_id = trace_of response.envelope;
  status = response.status;
}

abbrev read_data : Option Envelope → Result EnvelopeData
read_data none = thrown (other_error (failure (codes "Agent Gateway 返回了无效响应")))
read_data (some envelope) = elim envelope.result [
  | none ↦ thrown (other_error (failure (codes "Agent Gateway 返回了无效响应")))
  | some found ↦ returned found
]

-- `readEnvelope`
pub read_envelope : Response → Result EnvelopeData
unfolding gateway_error_of
read_envelope response =
    if not (is_ok response) || is_given (error_of response.envelope)
    then thrown (gateway_error (gateway_error_of response))
    else read_data response.envelope

-- A field of data of another shape: `undefined` has no fields.
abbrev type_error : AgentError
type_error = other_error (failure (codes "TypeError"))

abbrev token_key : Text
token_key = codes "station.accessToken"

abbrev pub session_key : Text → Text
session_key site_id = codes "digitalTwin.agentSessionId:" ++ site_id

-- A text of the storage that is there and not empty.
abbrev pub present : Option Text → Option Text
present none = none
present (some []) = none
present (some (c ∷ t)) = some (c ∷ t)

abbrev on_token : Option Text → Result Text
on_token none = thrown (other_error (failure (codes "Control 需要有效的登录凭据")))
on_token (some token) = returned token

-- `resolveAgentToken`. The variable `runtimeToken` is empty, since nothing sets it.
pub resolve_agent_token : Action Text
resolve_agent_token w = (w, on_token (present (get_item token_key w.storage)))

-- `clearAgentSession`
pub clear_agent_session : Text → Action (Unit {0})
clear_agent_session site_id = store (remove_item (session_key site_id))

pub record AgentTurnAccepted : Type 0 where
  pub run_id : Text
  pub session_id : Text
  pub message_id : Text
  pub status : Text
  pub stream_url : Text

pub record RunSnapshot : Type 0 where
  pub run_id : Text
  pub session_id : Text
  pub client_message_id : Text
  pub status : Text

-- `isStaleSessionError`; `String(undefined)` is the code that is missing.
pub is_stale_session_error : AgentError → Bool
is_stale_session_error (gateway_error error) =
    error.status == 404
    && includes (codes "agent_session_not_found") (or_text error.code (codes "undefined"))
is_stale_session_error (other_error error) = false

abbrev session_of : EnvelopeData → Result Text
session_of (session_data session_id) = returned session_id
session_of _ = thrown type_error

abbrev swap_base64url : ℕ → ℕ
swap_base64url c = if c == b'-' then b'+' else if c == b'_' then b'/' else c

abbrev second : List Text → Option Text
second (_ ∷ part ∷ _) = some part
second _ = none

module _ (encode_uri_component : Text → Text) (parse_subject : Text → Option (Option Text)) where
  abbrev read_subject : Option Text → Text
  read_subject none = codes "invalid-subject"
  read_subject (some part) = elim (parse_subject (map swap_base64url part)) [
    | none ↦ codes "invalid-subject"
    | some subject ↦ or_text (present subject) (codes "invalid-subject")
  ]

  -- `jwtSubject`. Of the part's JSON only `sub` is read: the outer `none` stands for an exception.
  pub jwt_subject : Text → Text
  jwt_subject token = read_subject (second (split_on b'.' token))

  -- `/api/v1/sessions/${encodeURIComponent(sessionId)}`
  abbrev session_path : Text → Text
  session_path session_id = codes "/api/v1/sessions/" ++ encode_uri_component session_id

  abbrev pub run_path : Text → Text → Text
  run_path session_id run_id =
      session_path session_id ++ (codes "/runs/" ++ encode_uri_component run_id)

  abbrev accepted_of : EnvelopeData → Result AgentTurnAccepted
  accepted_of (run_data run_id session_id status) = returned (record {
    run_id = run_id;
    session_id = session_id;
    message_id = codes "message_" ++ run_id;
    status = status;
    stream_url = run_path session_id run_id;
  })
  accepted_of _ = thrown type_error

  abbrev snapshot_of : EnvelopeData → Result RunSnapshot
  snapshot_of (snapshot_data session_id run_id run_status) = returned (record {
    run_id = run_id;
    session_id = session_id;
    client_message_id = codes "message_" ++ run_id;
    status = run_status;
  })
  snapshot_of _ = thrown type_error

  module _ (server : List Request → Request → Answer) where
    abbrev on_answer : Answer → Result EnvelopeData
    on_answer (rejected error) = thrown (other_error error)
    on_answer (answered response) = read_envelope response

    -- `fetch` and `readEnvelope`.
    pub call : Request → Action EnvelopeData
    call request w =
        (record w { requests = request ∷ w.requests }, on_answer (server w.requests request))

    abbrev create_request : Text → Text → Request
    create_request site_id token = record {
      path = codes "/api/v1/sessions";
      authorization = codes "Bearer " ++ token;
      body =
          some (session_body (jwt_subject token) (codes "operator") site_id (codes "dev") site_id);
    }

    abbrev create_session_at : Text → Text → Action Text
    create_session_at site_id token = do
      found ← call (create_request site_id token)
      session_id ← finish_with (session_of found)
      _ ← store (set_item (session_key site_id) session_id)
      finish_with (returned session_id)

    -- `current`, where it is there, else the new session.
    abbrev pub ensure_from : Option Text → Text → Text → Action Text
    ensure_from none site_id token = create_session_at site_id token
    ensure_from (some session_id) site_id token = finish_with (returned session_id)

    -- `ensureAgentSession`
    pub ensure_agent_session : Text → Text → Action Text
    unfolding jwt_subject call
    ensure_agent_session site_id token w =
        ensure_from (present (get_item (session_key site_id) w.storage)) site_id token w

    -- `submitAgentTurn`
    pub submit_agent_turn : Text → TurnInput → Text → Action AgentTurnAccepted
    unfolding call
    submit_agent_turn session_id request token = do
      found ← call (record {
        path = session_path session_id ++ codes "/turns";
        authorization = codes "Bearer " ++ token;
        body = some (turn_body request);
      })
      finish_with (accepted_of found)

    -- `loadAgentRun`, whose list of events is empty
    pub load_agent_run : Text → Text → Text → Action RunSnapshot
    unfolding call
    load_agent_run run_id session_id token = do
      found ← call (record {
        path = run_path session_id run_id;
        authorization = codes "Bearer " ++ token;
        body = none;
      })
      finish_with (snapshot_of found)

    -- A new session, and the turn in it.
    abbrev pub renew : Text → TurnInput → Text → Action AgentTurnAccepted
    renew station_id request token = do
      _ ← clear_agent_session station_id
      session_id ← ensure_agent_session station_id token
      submit_agent_turn session_id request token

    -- The `catch` block of `submitWithStaleSessionRecovery`.
    pub recover :
        Text
        → TurnInput
        → Text
        → World × Result AgentTurnAccepted
        → World × Result AgentTurnAccepted
    unfolding is_stale_session_error clear_agent_session ensure_agent_session submit_agent_turn
    recover station_id request token (w, returned accepted) = (w, returned accepted)
    recover station_id request token (w, thrown error) =
        let renewed = renew station_id request token w in
        if is_stale_session_error error then renewed else (w, thrown error)

    -- `submitWithStaleSessionRecovery`
    pub submit_with_stale_session_recovery : Text → TurnInput → Text → Action AgentTurnAccepted
    unfolding recover
    submit_with_stale_session_recovery station_id request token = do
      session_id ← ensure_agent_session station_id token
      λ w. recover station_id request token (submit_agent_turn session_id request token w)
