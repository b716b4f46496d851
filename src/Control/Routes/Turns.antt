-- ===== src/Control/Routes/Turns.antt =====
-- Turns (sessions/[sessionId]/turns/route.ts): when the runtime is called, and what a request that
-- fails is answered with.
use wind_solar_ess_agent.Base.{
  ℕ, ◌≡◌, refl, sym, subst, ◌∙◌, ap, true, Option, none, some, [], ◌∷◌, drop,
}
use wind_solar_ess_agent.Js.Text.{Text, split_on, trim}
use wind_solar_ess_agent.Control.Contracts.{
  TurnInput, RuntimeTurnRequest, is_turn_input, parse_turn_input, to_runtime_turn_request,
}
use wind_solar_ess_agent.Control.Contracts.Parsed.{
  parse_turn_input-some, to_runtime_turn_request-some,
}
use wind_solar_ess_agent.Control.Auth.{
  ControlIdentity, Node, AuthResult, ok, auth_error, thrown, or_else, authenticate_control_request,
}
use wind_solar_ess_agent.Control.Auth.Signed.{bind-ok}
use wind_solar_ess_agent.Control.Auth.Accepted.{IsSigned, authenticate_control_request-ok}
use wind_solar_ess_agent.Control.Auth.Session.{IsOwned, authorize_control_session-ok}
use wind_solar_ess_agent.Control.Runtime.{RuntimeRunAcceptance}
use wind_solar_ess_agent.Control.Runtime.Calls.{StartError, CallResult}
use wind_solar_ess_agent.Control.Routes.{
  Body, invalid_json, misshapen, shaped, Reply, reply, failure, uncaught, on_auth, on_parsed,
  on_body, authorize_request, turn_input, start_turn, call_runtime, create_turn,
}

on_auth-reply :
    {A B : Type 0} (r : AuthResult A) (next : A → Reply B) (n : ℕ) (b : B)
    → on_auth r next ≡ reply n b
    → (a : A) × (r ≡ ok a) × (next a ≡ reply n b)
on_auth-reply (ok a) next n b h = (a, refl, h)
on_auth-reply (auth_error status code) next n b h = cc
on_auth-reply (thrown e) next n b h = cc

-- The body has the shape of the schema, and the schema accepts it.
on_body-reply :
    {A B : Type 0} (body : Body A) (parse : A → Option A) (next : A → Reply B) (n : ℕ) (b : B)
    → on_body body parse next ≡ reply n b
    → (a a' : A) × (body ≡ shaped a) × (parse a ≡ some a') × (next a' ≡ reply n b)
on_body-reply invalid_json parse next n b h = cc
on_body-reply misshapen parse next n b h = cc
on_body-reply {A} {B} (shaped a) parse next n b h = go (parse a) refl h
  where
    go :
        (o : Option A)
        → parse a ≡ o
        → on_parsed o next ≡ reply n b
        → (a₁ a' : A) × (shaped a ≡ shaped a₁) × (parse a₁ ≡ some a') × (next a' ≡ reply n b)
    go none e h' = cc
    go (some a') e h' = (a, a', refl, e, h')

start_turn-called :
    (zod_error : StartError) (start : RuntimeTurnRequest → CallResult RuntimeRunAcceptance)
    (o : Option RuntimeTurnRequest) (request : RuntimeTurnRequest)
    → (start_turn zod_error start o).0 ≡ some request
    → o ≡ some request
unfolding start_turn
start_turn-called zod_error start none request h = h
start_turn-called zod_error start (some r) request h = h

call_runtime-called :
    (zod_error : StartError) (start : RuntimeTurnRequest → CallResult RuntimeRunAcceptance)
    (session_id : Text) (r : Reply TurnInput) (request : RuntimeTurnRequest)
    → (call_runtime zod_error start session_id r).0 ≡ some request
    → (n : ℕ) × (input : TurnInput) × (r ≡ reply n input)
      × (to_runtime_turn_request session_id input ≡ some request)
unfolding call_runtime
call_runtime-called zod_error start session_id (failure status code) request h = cc
call_runtime-called zod_error start session_id uncaught request h = cc
call_runtime-called zod_error start session_id (reply n input) request h =
    (n, input, refl, start_turn-called zod_error start _ request h)

module _ (node : Node) where
  -- What stands behind a request to the runtime: a token signed with the secret, a session that is
  -- signed for the token's user, and an input of the caller that the schema accepts, its text
  -- trimmed.
  pub record IsAllowed (secret : Text) (now : ℕ) (authorization : Option Text) (session_id : Text)
      (body : Body TurnInput) (request : RuntimeTurnRequest) : Type 0 where
    pub identity : ControlIdentity
    pub token :
        IsSigned node secret now identity (split_on b'.' (trim (drop 7 (or_else authorization []))))
    pub session : IsOwned node secret identity.user_id session_id
    pub input : TurnInput
    pub sent : body ≡ shaped input
    pub valid : is_turn_input (record input { text = trim input.text }) ≡ true
    pub session_id_kept : request.session_id ≡ session_id
    pub text_kept : request.text ≡ trim input.text

  -- The runtime is called for a turn only if the caller's token is signed and current, the session is
  -- one that was made for the token's user, and the body is an input that the schema accepts; the
  -- runtime is then asked for this session and the trimmed text. The secret is set and not empty.
  pub create_turn-IsAllowed :
      (c : ℕ) (secret : Text) (now : ℕ) (zod_error : StartError)
      (start : RuntimeTurnRequest → CallResult RuntimeRunAcceptance) (authorization : Option Text)
      (session_id : Text) (body : Body TurnInput) (request : RuntimeTurnRequest)
      → (create_turn node (some (c ∷ secret)) now zod_error start authorization session_id body).0
        ≡ some request
      → IsAllowed (c ∷ secret) now authorization session_id body request
  unfolding create_turn turn_input authorize_request
  create_turn-IsAllowed c secret now zod_error start authorization session_id body request h =
      let env = some (c ∷ secret) in
      let (n, input, at_input, asked) =
        call_runtime-called zod_error start session_id
          (turn_input node env now authorization session_id body) request h in
      let (done, at_auth, e1) =
        on_auth-reply (authorize_request node env now authorization session_id) _ n input
          at_input in
      let (sent, parsed, at_body, at_parse, e2) =
        on_body-reply body parse_turn_input _ n input e1 in
      let (identity, at_identity, owned) =
        bind-ok (authenticate_control_request node env now authorization) _ done at_auth in
      let (same, valid) = parse_turn_input-some sent parsed at_parse in
      let same_input : parsed ≡ input = cc in
      let (id_kept, text_kept, _) = to_runtime_turn_request-some session_id input request asked in
      record {
        identity = identity;
        token =
            (authenticate_control_request-ok node c secret now authorization identity
              at_identity).1;
        session = authorize_control_session-ok node c secret identity session_id owned;
        input = sent;
        sent = at_body;
        valid = subst (λ (t : TurnInput). is_turn_input t ≡ true) same valid;
        session_id_kept = id_kept;
        text_kept = text_kept ∙ ap TurnInput.text (sym same_input ∙ same);
      }
