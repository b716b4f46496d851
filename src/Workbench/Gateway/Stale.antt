-- ===== src/Workbench/Gateway/Stale.antt =====
-- Which failures of the turns route (turns/route.ts) the workbench takes for a stale session
-- (`isStaleSessionError`).
use wind_solar_ess_agent.Base.{
  ℕ, ◌≡◌, refl, sym, ◌∙◌, Bool, true, false, ◌&&◌, Option, none, some, List, [], ◌∷◌, arith, ◌==◌,
  any, All, inl, inr, Bool-cases,
}
use wind_solar_ess_agent.Js.Text.{Text, text_eq, text_eq→eq, starts_with}
use wind_solar_ess_agent.Control.Contracts.{TurnInput, RuntimeTurnRequest}
use wind_solar_ess_agent.Control.Auth.{Node}
use wind_solar_ess_agent.Control.Runtime.{RuntimeRunAcceptance}
use wind_solar_ess_agent.Control.Runtime.Calls.{StartError, CallResult}
use wind_solar_ess_agent.Control.Routes.{Body, failure, create_turn}
use wind_solar_ess_agent.Control.Routes.Failures.{turn_failures, create_turn-IsTurnFailure}
use wind_solar_ess_agent.Workbench.Gateway.{
  Response, gateway_error, gateway_error_of, is_stale_session_error,
}

-- The response that the route makes of a failure, with the message that it gives.
abbrev pub failure_response : Text → ℕ → Text → Response
failure_response message status code = record {
  status = status;
  envelope = some (record {
    error = some (record { message = some message; code = some code });
    detail = none;
    trace_id = none;
    result = none;
  });
}

abbrev pub is_stale : Text → ℕ → Text → Bool
is_stale message status code =
    is_stale_session_error (gateway_error (gateway_error_of (failure_response message status code)))

-- What holds of every pair of the list holds of a pair that is found there.
found_holds :
    (f : ℕ → Text → Bool) (status : ℕ) (code : Text) (pairs : List (ℕ × Text))
    → All (λ (p : ℕ × Text). f p.0 p.1 ≡ false) pairs
    → any (λ (p : ℕ × Text). p.0 == status && text_eq p.1 code) pairs ≡ true
    → f status code ≡ false
found_holds f status code [] all h = cc
found_holds f status code ((s, c) ∷ pairs) (k, all) h =
    elim (Bool-cases (s == status && text_eq c code)) [
      | inl here ↦
          let same_status : s ≡ status = ground arith in
          let same_code : c ≡ code = text_eq→eq c code (ground arith) in
          sym (λ i. f (same_status i) (same_code i)) ∙ k
      | inr there ↦ found_holds f status code pairs all (ground arith)
    ]

turn_failures-not_stale :
    (message : Text) → All (λ (p : ℕ × Text). is_stale message p.0 p.1 ≡ false) turn_failures
unfolding is_stale_session_error gateway_error_of starts_with
turn_failures-not_stale message =
    (refl, (refl, (refl, (refl, (refl, (refl, (refl, (refl, (refl, (refl, tt))))))))))

-- The workbench takes none of the failures of the turns route for a stale session, neither an
-- unknown session nor one of another user: the code that it looks for is not among theirs.
pub create_turn-not_stale :
    (node : Node) (env : Option Text) (now : ℕ) (zod_error : StartError)
    (start : RuntimeTurnRequest → CallResult RuntimeRunAcceptance) (authorization : Option Text)
    (session_id : Text) (body : Body TurnInput) (status : ℕ) (code message : Text)
    → (create_turn node env now zod_error start authorization session_id body).1
      ≡ failure status code
    → is_stale_session_error
        (gateway_error (gateway_error_of (failure_response message status code)))
      ≡ false
create_turn-not_stale node env now zod_error start authorization session_id body status code message
      h =
    found_holds (is_stale message) status code turn_failures (turn_failures-not_stale message) (
      create_turn-IsTurnFailure node env now zod_error start authorization session_id body status
        code h)
