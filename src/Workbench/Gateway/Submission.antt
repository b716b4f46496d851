-- ===== src/Workbench/Gateway/Submission.antt =====
-- The requests that a submission sends (agent-stream-client.ts, and
-- `submitWithStaleSessionRecovery` of AgentStreamingWorkbench.tsx).
use wind_solar_ess_agent.Base.{
  ℕ, ◌+◌, ◌≤◌, Option, none, some, List, [], ◌∷◌, arith, inl, inr, Bool-cases, length,
}
use wind_solar_ess_agent.Js.Text.{Text}
use wind_solar_ess_agent.Control.Contracts.{TurnInput}
use wind_solar_ess_agent.Workbench.Gateway.{
  RequestBody, turn_body, Request, Answer, World, Result, returned, thrown, Action, continue_with,
  AgentTurnAccepted, is_stale_session_error, clear_agent_session, call, ensure_from,
  ensure_agent_session, submit_agent_turn, renew, recover, submit_with_stale_session_recovery,
}

abbrev is_turn : Option RequestBody → ℕ
is_turn (some (turn_body _)) = 1
is_turn _ = 0

-- The number of turns among the requests.
abbrev pub turns : List Request → ℕ
turns [] = 0
turns (request ∷ requests) = is_turn request.body + turns requests

-- The requests of `w'` are those of `w`, and at most `k` more of which at most `t` are turns.
abbrev Sends : ℕ → ℕ → World → World → Type 0
Sends k t w w' =
    (length w'.requests ≤ length w.requests + k) × (turns w'.requests ≤ turns w.requests + t)

abbrev SendsAtMost : {A : Type 0} → ℕ → ℕ → Action A → Type 0
SendsAtMost k t action = (w : World) → Sends k t w (action w).0

continue_with-Sends :
    {A B : Type 0} (j k s t : ℕ) (w : World) (r : World × Result A) (next : A → Action B)
    → Sends j s w r.0
    → ((a : A) → SendsAtMost k t (next a))
    → Sends (j + k) (s + t) w (continue_with r next).0
unfolding continue_with
continue_with-Sends j k s t w (w', returned a) next h all =
    (omega (arith, h.0, (all a w').0), omega (arith, h.1, (all a w').1))
continue_with-Sends j k s t w (w', thrown e) next h all = (omega (arith, h.0), omega (arith, h.1))

module _ (encode : Text → Text) (parse : Text → Option (Option Text))
    (server : List Request → Request → Answer) where
  ensure_from-Sends :
      (o : Option Text) (site_id token : Text)
      → SendsAtMost 1 0 (ensure_from encode parse server o site_id token)
  unfolding call
  ensure_from-Sends (some session_id) site_id token w = (omega arith, omega arith)
  ensure_from-Sends none site_id token w =
      continue_with-Sends 1 0 0 0 w _ _ (omega arith, omega arith)
        (λ found. λ w'.
          continue_with-Sends 0 0 0 0 w' _ _ (omega arith, omega arith)
            (λ session_id. λ w''.
              continue_with-Sends 0 0 0 0 w'' _ _ (omega arith, omega arith)
                (λ u w3. (omega arith, omega arith))))

  ensure-Sends :
      (site_id token : Text)
      → SendsAtMost 1 0 (ensure_agent_session encode parse server site_id token)
  unfolding ensure_agent_session
  ensure-Sends site_id token w = ensure_from-Sends _ site_id token w

  submit-Sends :
      (session_id : Text) (request : TurnInput) (token : Text)
      → SendsAtMost 1 1 (submit_agent_turn encode parse server session_id request token)
  unfolding submit_agent_turn call
  submit-Sends session_id request token w =
      continue_with-Sends 1 0 1 0 w _ _ (omega arith, omega arith)
        (λ found w'. (omega arith, omega arith))

  renew-Sends :
      (station_id : Text) (request : TurnInput) (token : Text)
      → SendsAtMost 2 1 (renew encode parse server station_id request token)
  unfolding clear_agent_session continue_with
  renew-Sends station_id request token w =
      continue_with-Sends 1 1 0 1 w _ _ (ensure-Sends station_id token _)
        (λ session_id. submit-Sends session_id request token)

  recover-Sends :
      (station_id : Text) (request : TurnInput) (token : Text) (w : World)
      (r : World × Result AgentTurnAccepted)
      → Sends 1 1 w r.0
      → Sends 3 2 w (recover encode parse server station_id request token r).0
  unfolding recover
  recover-Sends station_id request token w (w', returned accepted) h =
      (omega (arith, h.0), omega (arith, h.1))
  recover-Sends station_id request token w (w', thrown error) h =
      let more = renew-Sends station_id request token w' in
      elim (Bool-cases (is_stale_session_error error)) [
        | inl stale ↦ rw stale (omega (arith, h.0, more.0), omega (arith, h.1, more.1))
        | inr other ↦ rw other (omega (arith, h.0), omega (arith, h.1))
      ]

  -- Whatever the server answers, a submission sends at most four requests, at most two of them
  -- turns: a session that goes stale again is not renewed again.
  pub submit_bounds :
      (station_id : Text) (request : TurnInput) (token : Text) (w : World)
      → let w' =
          (submit_with_stale_session_recovery encode parse server station_id request token w).0 in
        (length w'.requests ≤ length w.requests + 4) × (turns w'.requests ≤ turns w.requests + 2)
  unfolding submit_with_stale_session_recovery
  submit_bounds station_id request token w =
      continue_with-Sends 1 3 0 2 w _ _ (ensure-Sends station_id token w) (λ session_id. λ w'.
        recover-Sends station_id request token w'
          (submit_agent_turn encode parse server session_id request token w')
          (submit-Sends session_id request token w'))
