-- ===== src/Control/Stream/Delivery.antt =====
-- The server's stream (runs/[runId]/route.ts) and the browser's reducer (stream-reducer.ts) together.
use wind_solar_ess_agent.Base.{
  ℕ, ◌+◌, ◌≡◌, refl, ◌∙◌, ap, true, List, [], ◌∷◌, max, arith, length, Bool-cases, inl, inr,
}
use wind_solar_ess_agent.Js.Text.{Text, text_eq}
use wind_solar_ess_agent.Workbench.Contracts.{AgentRunState}
use wind_solar_ess_agent.Workbench.Reducer.{
  is_terminal_status, apply_agent_stream_event, reduce_agent_stream_events,
}
use wind_solar_ess_agent.Workbench.Reducer.Commit.{with_queue}
use wind_solar_ess_agent.Workbench.Reducer.InOrder.{
  IsNumbered, apply_all, reduce-IsNumbered, apply-error,
}
use wind_solar_ess_agent.Control.Contracts.{RuntimeEvent}
use wind_solar_ess_agent.Control.Stream.{
  projected, project_by_type, project_agent_event, stream_error, StreamEnding, finished,
  stream_failed, stream_from, stream_runtime_events,
}

-- The runtime numbers its events one by one from the number behind `n`.
abbrev pub IsSequenced : ℕ → List RuntimeEvent → Type 0
IsSequenced n [] = Unit
IsSequenced n (e ∷ es) = (e.sequence ≡ n + 1) × IsSequenced (n + 1) es

-- Every event of the runtime keeps its number, also those that the browser does not show.
sequence-project_by_type :
    (t : Text) (e : RuntimeEvent) → (project_by_type t e).sequence ≡ e.sequence
unfolding project_by_type projected
sequence-project_by_type t e = ground arith

sequence-project_agent_event : (e : RuntimeEvent) → (project_agent_event e).sequence ≡ e.sequence
unfolding project_agent_event
sequence-project_agent_event e = sequence-project_by_type _ e

stream_from-IsNumbered :
    (session_id run_id : Text) (n : ℕ) (events : List RuntimeEvent) (ending : StreamEnding)
    → IsSequenced n events
    → IsNumbered n (stream_from session_id run_id n events ending)
unfolding stream_from stream_error
stream_from-IsNumbered session_id run_id n [] finished h = tt
stream_from-IsNumbered session_id run_id n [] (stream_failed message) h = (refl, tt)
stream_from-IsNumbered session_id run_id n (e ∷ es) ending (p, h) =
    let at_next : (project_agent_event e).sequence ≡ n + 1 = sequence-project_agent_event e ∙ p in
    let cursor : max n (project_agent_event e).sequence ≡ n + 1 = omega (arith, at_next) in
    elim (Bool-cases (text_eq e.session_id session_id)) [
      | inl same ↦
          rw (same, cursor) (at_next, stream_from-IsNumbered session_id run_id (n + 1) es ending h)
      | inr other ↦ rw other (refl, tt)
    ]

-- A state in which nothing waits, written with its cursor and an empty table.
nothing_waits : (s : AgentRunState) → s.pending_events ≡ [] → s ≡ with_queue s s.last_sequence []
nothing_waits s h = ap (with_queue s s.last_sequence) h

module _ (session_id run_id : Text) where
  -- The browser has a run whose events up to its cursor are applied, with nothing waiting, and the
  -- runtime numbers its events one by one from the next number. Then what the server streams from
  -- the cursor on, whichever way the stream ends, is applied in its order, event by event: the
  -- cursor moves by the number of events streamed, and none of them is left waiting.
  pub reduce-stream_runtime_events :
      (s : AgentRunState) (events : List RuntimeEvent) (ending : StreamEnding)
      → s.pending_events ≡ []
      → IsSequenced s.last_sequence events
      → reduce_agent_stream_events s
          (stream_runtime_events session_id run_id s.last_sequence events ending)
        ≡ with_queue
            (apply_all s (stream_runtime_events session_id run_id s.last_sequence events ending))
            (s.last_sequence
              + length (stream_runtime_events session_id run_id s.last_sequence events ending))
            []
  unfolding stream_runtime_events
  reduce-stream_runtime_events s events ending h numbered =
      let streamed = stream_from session_id run_id s.last_sequence events ending in
      ap (λ (r : AgentRunState). reduce_agent_stream_events r streamed) (nothing_waits s h)
      ∙ reduce-IsNumbered s s.last_sequence streamed
          (stream_from-IsNumbered session_id run_id s.last_sequence events ending numbered)

  apply_all-stream_failed :
      (s : AgentRunState) (n : ℕ) (events : List RuntimeEvent) (message : Text)
      → is_terminal_status
          (apply_all s (stream_from session_id run_id n events (stream_failed message))).status
        ≡ true
  unfolding stream_from stream_error
  apply_all-stream_failed s n [] message = apply-error s _ refl
  apply_all-stream_failed s n (e ∷ es) message =
      elim (Bool-cases (text_eq e.session_id session_id)) [
        | inl same ↦ rw same (
            apply_all-stream_failed (apply_agent_stream_event s (project_agent_event e))
              (max n (project_agent_event e).sequence) es message)
        | inr other ↦ rw other (apply-error s _ refl)
      ]

  -- The browser has a run with nothing waiting, and the runtime numbers its events one by one from
  -- the number behind the cursor. When the runtime's stream fails, be it at once or after some
  -- events, the browser's run has a terminal status once it has taken in what the server streams.
  pub reduce-stream_failed :
      (s : AgentRunState) (events : List RuntimeEvent) (message : Text)
      → s.pending_events ≡ []
      → IsSequenced s.last_sequence events
      → is_terminal_status
          (reduce_agent_stream_events s (
            stream_runtime_events session_id run_id s.last_sequence events
              (stream_failed message))).status
        ≡ true
  unfolding stream_runtime_events
  reduce-stream_failed s events message h numbered =
      rw (reduce-stream_runtime_events s events (stream_failed message) h numbered)
        (apply_all-stream_failed s s.last_sequence events message)
