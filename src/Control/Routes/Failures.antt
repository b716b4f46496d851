-- ===== src/Control/Routes/Failures.antt =====
-- The errors that a turn can be answered with (turns/route.ts).
use wind_solar_ess_agent.Base.{
  ℕ, ◌≡◌, refl, subst, true, Option, none, some, List, [], ◌∷◌, ◌==◌, ◌&&◌, any,
}
use wind_solar_ess_agent.Js.Text.{Text, codes, text_eq}
use wind_solar_ess_agent.Control.Contracts.{
  TurnInput, RuntimeTurnRequest, parse_turn_input, to_runtime_turn_request,
}
use wind_solar_ess_agent.Control.Auth.{
  Node, Thrown, AuthResult, ok, auth_error, thrown, authenticate_control_request,
}
use wind_solar_ess_agent.Control.Auth.Failures.{
  Fails, bind-Fails, authenticate-Fails, authorize-Fails,
}
use wind_solar_ess_agent.Control.Runtime.{RuntimeRunAcceptance}
use wind_solar_ess_agent.Control.Runtime.Calls.{
  StartError, CallResult, rejected, resolved, project_runtime_start_error,
}
use wind_solar_ess_agent.Control.Runtime.Calls.Projected.{project_runtime_start_error_cases}
use wind_solar_ess_agent.Control.Routes.{
  Body, invalid_json, misshapen, shaped, Reply, reply, failure, uncaught, on_auth, on_parsed,
  on_body, run_reply, authorize_request, turn_input, start_turn, call_runtime, create_turn,
}

-- The statuses and codes that the program's documents name for a turn.
abbrev pub turn_failures : List (ℕ × Text)
turn_failures =
    (401, codes "auth_missing")
    ∷ (401, codes "auth_invalid")
    ∷ (401, codes "auth_expired")
    ∷ (404, codes "session_not_found")
    ∷ (403, codes "session_forbidden")
    ∷ (400, codes "invalid_json")
    ∷ (422, codes "validation_error")
    ∷ (400, codes "runtime_request_invalid")
    ∷ (502, codes "model_provider_unavailable")
    ∷ (502, codes "runtime_unavailable")
    ∷ []

abbrev pub IsTurnFailure : ℕ → Text → Type 0
IsTurnFailure status code =
    any (λ (p : ℕ × Text). p.0 == status && text_eq p.1 code) turn_failures ≡ true

-- How a turn may end: with this status, with a failure among those of the list, or with an exception
-- for which there is this reason.
abbrev pub IsTurnEnd : {A : Type 0} → ℕ → Type 0 → Reply A → Type 0
IsTurnEnd n Reason (reply status a) = status ≡ n
IsTurnEnd n Reason (failure status code) = IsTurnFailure status code
IsTurnEnd n Reason uncaught = Reason

module _ (Reason : Type 0) where
  on_auth-IsTurnEnd :
      {A B : Type 0} (n : ℕ) (r : AuthResult A) (next : A → Reply B)
      → Fails IsTurnFailure r
      → ((e : Thrown) → r ≡ thrown e → Reason)
      → ((a : A) → IsTurnEnd n Reason (next a))
      → IsTurnEnd n Reason (on_auth r next)
  on_auth-IsTurnEnd n (ok a) next h x k = k a
  on_auth-IsTurnEnd n (auth_error s c) next h x k = h s c refl
  on_auth-IsTurnEnd n (thrown e) next h x k = x e refl

  on_parsed-IsTurnEnd :
      {A B : Type 0} (n : ℕ) (o : Option A) (next : A → Reply B)
      → ((a : A) → IsTurnEnd n Reason (next a))
      → IsTurnEnd n Reason (on_parsed o next)
  unfolding text_eq
  on_parsed-IsTurnEnd n none next k = refl
  on_parsed-IsTurnEnd n (some a) next k = k a

  on_body-IsTurnEnd :
      {A B : Type 0} (n : ℕ) (body : Body A) (parse : A → Option A) (next : A → Reply B)
      → ((a : A) → IsTurnEnd n Reason (next a))
      → IsTurnEnd n Reason (on_body body parse next)
  unfolding text_eq
  on_body-IsTurnEnd n invalid_json parse next k = refl
  on_body-IsTurnEnd n misshapen parse next k = refl
  on_body-IsTurnEnd n (shaped a) parse next k = on_parsed-IsTurnEnd n (parse a) next k

  project-IsTurnFailure :
      (e : StartError)
      → IsTurnFailure (project_runtime_start_error e).status (project_runtime_start_error e).code
  unfolding text_eq
  project-IsTurnFailure e = project_runtime_start_error_cases IsTurnFailure e refl refl refl

  run_reply-IsTurnEnd : (r : CallResult RuntimeRunAcceptance) → IsTurnEnd 202 Reason (run_reply r)
  run_reply-IsTurnEnd (rejected e) = project-IsTurnFailure e
  run_reply-IsTurnEnd (resolved run) = refl

  start_turn-IsTurnEnd :
      (zod_error : StartError) (start : RuntimeTurnRequest → CallResult RuntimeRunAcceptance)
      (o : Option RuntimeTurnRequest)
      → IsTurnEnd 202 Reason (start_turn zod_error start o).1
  unfolding start_turn
  start_turn-IsTurnEnd zod_error start none = project-IsTurnFailure zod_error
  start_turn-IsTurnEnd zod_error start (some request) = run_reply-IsTurnEnd (start request)

  call_runtime-IsTurnEnd :
      (zod_error : StartError) (start : RuntimeTurnRequest → CallResult RuntimeRunAcceptance)
      (session_id : Text) (r : Reply TurnInput)
      → IsTurnEnd 200 Reason r
      → IsTurnEnd 202 Reason (call_runtime zod_error start session_id r).1
  unfolding call_runtime
  call_runtime-IsTurnEnd zod_error start session_id (failure s c) h = h
  call_runtime-IsTurnEnd zod_error start session_id uncaught h = h
  call_runtime-IsTurnEnd zod_error start session_id (reply n input) h =
      start_turn-IsTurnEnd zod_error start (to_runtime_turn_request session_id input)

-- The check of the token or of the session throws what is none of its own errors.
abbrev pub CheckThrows : Node → Option Text → ℕ → Option Text → Text → Type 0
CheckThrows node env now authorization session_id =
    (e : Thrown) × (authorize_request node env now authorization session_id ≡ thrown e)

turn_input-IsTurnEnd :
    (node : Node) (env : Option Text) (now : ℕ) (authorization : Option Text) (session_id : Text)
    (body : Body TurnInput)
    → IsTurnEnd 200
        (CheckThrows node env now authorization session_id)
        (turn_input node env now authorization session_id body)
unfolding turn_input text_eq
turn_input-IsTurnEnd node env now authorization session_id body =
    let Reason = CheckThrows node env now authorization session_id in
    on_auth-IsTurnEnd Reason 200 (authorize_request node env now authorization session_id) _
      (unfold authorize_request in
        bind-Fails IsTurnFailure (authenticate_control_request node env now authorization) _
          (authenticate-Fails IsTurnFailure refl refl node env now authorization refl)
          (λ identity. authorize-Fails IsTurnFailure node env identity session_id refl refl))
      (λ e throws. (e, throws))
      (λ _. on_body-IsTurnEnd Reason 200 body parse_turn_input _ (λ input. refl))

pub create_turn-IsTurnEnd :
    (node : Node) (env : Option Text) (now : ℕ) (zod_error : StartError)
    (start : RuntimeTurnRequest → CallResult RuntimeRunAcceptance) (authorization : Option Text)
    (session_id : Text) (body : Body TurnInput)
    → IsTurnEnd 202
        (CheckThrows node env now authorization session_id)
        (create_turn node env now zod_error start authorization session_id body).1
unfolding create_turn
create_turn-IsTurnEnd node env now zod_error start authorization session_id body =
    call_runtime-IsTurnEnd (CheckThrows node env now authorization session_id) zod_error start
      session_id _ (turn_input-IsTurnEnd node env now authorization session_id body)

-- A failure is one of the list.
pub create_turn-IsTurnFailure :
    (node : Node) (env : Option Text) (now : ℕ) (zod_error : StartError)
    (start : RuntimeTurnRequest → CallResult RuntimeRunAcceptance) (authorization : Option Text)
    (session_id : Text) (body : Body TurnInput) (status : ℕ) (code : Text)
    → (create_turn node env now zod_error start authorization session_id body).1
      ≡ failure status code
    → IsTurnFailure status code
create_turn-IsTurnFailure node env now zod_error start authorization session_id body status code e =
    subst (IsTurnEnd 202 (CheckThrows node env now authorization session_id)) e
      (create_turn-IsTurnEnd node env now zod_error start authorization session_id body)
