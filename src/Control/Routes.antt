-- ===== src/Control/Routes.antt =====
-- The handlers below app/api/v1 (sessions, turns, runs, login, users/me) with local-control-auth.ts
-- and http-response.ts. The environment, the clock, `randomUUID()`, Node and the runtime's client
-- are arguments.
pub mod Turns
pub mod Failures
pub mod Login
mod Tests
use wind_solar_ess_agent.Base.{
  ℕ, ◌+◌, ◌*◌, ◌≡◌, Bool, true, false, ◌&&◌, ◌||◌, Option, none, some, List, [], ◌∷◌, ◌++◌, max,
  ◌==◌, length, if◌then◌else◌,
}
use wind_solar_ess_agent.Js.Text.{Text, codes, text_eq, trim, starts_with, includes}
use wind_solar_ess_agent.Workbench.Contracts.{AgentStreamEvent}
use wind_solar_ess_agent.Control.Contracts.{
  ContextSnapshot, SessionUser, CreateSessionInput, TurnInput, RuntimeEvent, RuntimeTurnRequest,
  parse_turn_input, parse_session_input, to_runtime_turn_request,
}
use wind_solar_ess_agent.Control.Auth.{
  ControlIdentity, Node, Thrown, AuthResult, ok, auth_error, thrown, ◌>>=◌,
  authenticate_control_request, authorize_control_session, create_control_session_id,
  create_control_access_token,
}
use wind_solar_ess_agent.Control.Runtime.{RuntimeRunAcceptance, or_default}
use wind_solar_ess_agent.Control.Runtime.Messages.{RuntimeSnapshot, to_number}
use wind_solar_ess_agent.Control.Runtime.Calls.{
  StartError, CallResult, rejected, resolved, StartErrorProjection, project_runtime_start_error,
}
use wind_solar_ess_agent.Control.Stream.{StreamEnding, stream_runtime_events}

-- The body of a request: no JSON, JSON of another shape than the handler's schema, or of this shape.
pub data Body (A : Type 0) : Type 0 where
  invalid_json misshapen : Body A
  shaped : A → Body A

-- A response with its status and its data or the code of its error, or an exception that leaves the
-- handler.
pub data Reply (A : Type 0) : Type 0 where
  reply : ℕ → A → Reply A
  failure : ℕ → Text → Reply A
  uncaught : Reply A

-- `controlAuthErrorResponse`, which throws again what is no `ControlAuthError`; and what follows
-- where there is no error.
abbrev pub on_auth : {A B : Type 0} → AuthResult A → (A → Reply B) → Reply B
on_auth (ok a) next = next a
on_auth (auth_error status code) next = failure status code
on_auth (thrown e) next = uncaught

-- What `safeParse` yields: the data, or else `validationErrorResponse`.
abbrev pub on_parsed : {A B : Type 0} → Option A → (A → Reply B) → Reply B
on_parsed none next = failure 422 (codes "validation_error")
on_parsed (some a) next = next a

-- `invalidJsonResponse`, `validationErrorResponse`, and what follows where the schema accepts.
abbrev pub on_body : {A B : Type 0} → Body A → (A → Option A) → (A → Reply B) → Reply B
on_body invalid_json parse next = failure 400 (codes "invalid_json")
on_body misshapen parse next = failure 422 (codes "validation_error")
on_body (shaped a) parse next = on_parsed (parse a) next

pub record Session : Type 0 where
  pub session_id : Text
  pub user : SessionUser
  pub selected_asset_id : Option Text
  pub context : ContextSnapshot

-- `stationResponse`; the data is missing where it is `null`.
pub record StationResponse (A : Type 0) : Type 0 where
  pub status : ℕ
  pub code : ℕ
  pub message : Text
  pub result : Option A

pub record LoginPayload : Type 0 where
  pub username : Text
  pub password : Text

pub record UserData : Type 0 where
  pub id : Text
  pub role : Text

abbrev pub token_lifetime : ℕ
token_lifetime = 28800

-- What the GET handler of a run answers with.
pub data RunReply : Type 0 where
  event_stream : List AgentStreamEvent → RunReply
  snapshot : RuntimeSnapshot → RunReply

-- `Number(text ?? 0)` where that is a number, else 0.
pub sequence_of : Option Text → ℕ
unfolding to_number
sequence_of none = 0
sequence_of (some t) = or_default (to_number t) 0

-- `header?.includes("text/event-stream")`
pub accepts_events : Option Text → Bool
accepts_events none = false
accepts_events (some t) = includes (codes "text/event-stream") t

abbrev pub or_admin : Option Text → Text
or_admin none = codes "admin"
or_admin (some t) = t

abbrev pub start_failure : StartError → Reply RuntimeRunAcceptance
start_failure error = let p = project_runtime_start_error error in failure p.status p.code

abbrev pub run_reply : CallResult RuntimeRunAcceptance → Reply RuntimeRunAcceptance
run_reply (rejected error) = start_failure error
run_reply (resolved run) = reply 202 run

-- `startTurn`, once there is a request; `zod_error` is what `toRuntimeTurnRequest` throws.
pub start_turn :
    StartError
    → (RuntimeTurnRequest → CallResult RuntimeRunAcceptance)
    → Option RuntimeTurnRequest
    → Option RuntimeTurnRequest × Reply RuntimeRunAcceptance
start_turn zod_error start none = (none, start_failure zod_error)
start_turn zod_error start (some request) = (some request, run_reply (start request))

-- POST turns, from the call of the runtime on: what the runtime is asked, if it is, and the response.
pub call_runtime :
    StartError
    → (RuntimeTurnRequest → CallResult RuntimeRunAcceptance)
    → Text
    → Reply TurnInput
    → Option RuntimeTurnRequest × Reply RuntimeRunAcceptance
unfolding start_turn
call_runtime zod_error start session_id (failure status code) = (none, failure status code)
call_runtime zod_error start session_id uncaught = (none, uncaught)
call_runtime zod_error start session_id (reply _ input) =
    start_turn zod_error start (to_runtime_turn_request session_id input)

-- The end of POST auth/login. The outer `none` stands for an exception that leaves the handler.
abbrev pub token_response : AuthResult Text → Option (StationResponse Text)
token_response (ok token) =
    some (record { status = 200; code = 0; message = codes "ok"; result = some token })
token_response (auth_error status code) = none
token_response (thrown e) = none

abbrev pub login_response :
    Option (Option ControlIdentity)
    → (ControlIdentity → AuthResult Text)
    → Option (StationResponse Text)
login_response none create_token = none
login_response (some none) create_token = some (record {
  status = 401;
  code = 1001;
  message = codes "invalid username or password";
  result = none;
})
login_response (some (some identity)) create_token = token_response (create_token identity)

-- GET users/me, after the check of the token.
abbrev pub me_response : AuthResult ControlIdentity → Option (StationResponse UserData)
me_response (ok identity) = some (record {
  status = 200;
  code = 0;
  message = codes "ok";
  result = some (record { id = identity.user_id; role = identity.role });
})
me_response (auth_error status code) = some (record {
  status = status;
  code = 1002;
  message = codes "invalid or expired token";
  result = none;
})
me_response (thrown e) = none

module _ (node : Node) where
  open node use {utf8}

  -- `safeEqual`
  pub safe_equal : Text → Text → Bool
  safe_equal left right =
      length (utf8 left) == length (utf8 right) && text_eq (utf8 left) (utf8 right)

  -- `authenticateLocalControlCredentials`: the outer `none` stands for its exception, the inner one
  -- for its `null`.
  pub authenticate_local_control_credentials :
      Option Text → Option Text → Text → Text → Option (Option ControlIdentity)
  unfolding safe_equal
  authenticate_local_control_credentials env_username none username password = none
  authenticate_local_control_credentials env_username (some []) username password = none
  authenticate_local_control_credentials env_username (some (c ∷ expected)) username password =
      some (
        if safe_equal (trim username) (or_admin env_username) && safe_equal password (c ∷ expected)
        then some (record {
          user_id = or_admin env_username;
          role = codes "admin";
          tenant_id = codes "tenant_lab";
        })
        else none)

  module _ (env : Option Text) (now : ℕ) where
    -- POST auth/login. The outer `none` stands for an exception that leaves the handler.
    pub login : Option Text → Option Text → Body LoginPayload → Option (StationResponse Text)
    unfolding authenticate_local_control_credentials
    login env_username env_password invalid_json =
        some
          (record { status = 400; code = 1000; message = codes "invalid request"; result = none })
    login env_username env_password misshapen = some (record {
      status = 400;
      code = 1000;
      message = codes "username and password are required";
      result = none;
    })
    login env_username env_password (shaped payload) =
        login_response
          (authenticate_local_control_credentials env_username env_password payload.username
            payload.password)
          (λ identity. create_control_access_token node identity token_lifetime now env)

    -- GET users/me
    pub users_me : Option Text → Option (StationResponse UserData)
    users_me authorization = me_response (authenticate_control_request node env now authorization)

    -- POST sessions
    pub create_session : Option Text → Text → Body CreateSessionInput → Reply Session
    create_session authorization uuid body =
        on_auth (authenticate_control_request node env now authorization) (λ identity.
          on_body body parse_session_input (λ input.
            if text_eq input.user.user_id identity.user_id
            then on_auth (create_control_session_id node identity uuid env) (λ session_id.
              reply 201 (record {
                session_id = session_id;
                user = input.user;
                selected_asset_id = input.context.selected_asset_id;
                context = input.context;
              }))
            else failure 403 (codes "user_identity_mismatch")))

    -- Both checks of a request at a session.
    pub authorize_request : Option Text → Text → AuthResult (Unit {0})
    authorize_request authorization session_id =
        authenticate_control_request node env now authorization >>= λ identity.
        authorize_control_session node env identity session_id

    -- POST turns, up to the call of the runtime: an early response, or the input (the status is not
    -- used).
    pub turn_input : Option Text → Text → Body TurnInput → Reply TurnInput
    unfolding authorize_request
    turn_input authorization session_id body =
        on_auth (authorize_request authorization session_id)
          (λ _. on_body body parse_turn_input (λ input. reply 200 input))

    -- POST turns
    unfoldable pub create_turn :
        StartError
        → (RuntimeTurnRequest → CallResult RuntimeRunAcceptance)
        → Option Text
        → Text
        → Body TurnInput
        → Option RuntimeTurnRequest × Reply RuntimeRunAcceptance
    unfolding turn_input call_runtime
    create_turn zod_error start authorization session_id body =
        call_runtime zod_error start session_id (turn_input authorization session_id body)

    -- GET runs/[runId]
    pub get_run :
        (Text → ℕ → List RuntimeEvent × StreamEnding)
        → (Text → Text → CallResult RuntimeSnapshot)
        → Option Text
        → Text
        → Text
        → Option Text
        → Option Text
        → Option Text
        → Reply RunReply
    unfolding authorize_request sequence_of accepts_events
    get_run stream get_snapshot authorization session_id run_id accept query last_event_id =
        on_auth (authorize_request authorization session_id) (λ _.
          if accepts_events accept
          then (let after = max (sequence_of query) (sequence_of last_event_id) in
              let (events, ending) = stream run_id after in
              reply 200
                (event_stream (stream_runtime_events session_id run_id after events ending)))
          else elim (get_snapshot session_id run_id) [
            | rejected error ↦ uncaught
            | resolved s ↦ reply 200 (snapshot s)
          ])
