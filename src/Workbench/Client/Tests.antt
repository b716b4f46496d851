-- ===== src/Workbench/Client/Tests.antt =====
-- `streamAgentRun` on the situations of agent-stream-client.test.ts, and its theorems at such inputs.
use wind_solar_ess_agent.Base.{ℕ, ◌≤◌, ◌≡◌, ◌≢◌, refl, true, false, none, List, [], ◌∷◌, arith, any}
use wind_solar_ess_agent.Js.Text.{codes}
use wind_solar_ess_agent.Js.Json.{Fields}
use wind_solar_ess_agent.Workbench.Contracts.{AgentStreamEventType, AgentStreamEvent}
use wind_solar_ess_agent.Workbench.Client.{
  StreamError, closed, Connection, refused, opened, Attempt, ConnectionState, state_changed,
  requested, delivered, delayed, returned, thrown, waiting, is_terminal_event, max_sequence,
  start_stream,
}
use wind_solar_ess_agent.Workbench.Client.Resume.{
  delivered_events, Resumes, start_stream-Resumes, start_stream-returned,
}
use wind_solar_ess_agent.Workbench.Client.Attempts.{
  requests, total_delay, start_stream_bounds, start_stream_ends,
}

abbrev event_of : ℕ → AgentStreamEventType → AgentStreamEvent
event_of sequence type = record {
  event_id = none;
  sequence = sequence;
  event_sequence = none;
  run_id = none;
  conversation_id = none;
  message_id = none;
  trace_id = none;
  observation_id = none;
  type = type;
  timestamp = none;
  payload = Fields.end;
  status = none;
  action = none;
}

abbrev started : AgentStreamEvent
started = event_of 4 AgentStreamEventType.run_started

abbrev ended : AgentStreamEvent
ended = event_of 5 AgentStreamEventType.run_completed

abbrev attempt_of : Connection → Attempt
attempt_of c = record {
  aborted_before = false;
  connection = c;
  aborted_at_error = false;
  aborted_in_delay = false;
}

-- The first connection closes before the end of the run; the second brings the end.
abbrev script : List Attempt
script =
    attempt_of (opened ((started ∷ []) ∷ []) (closed []))
    ∷ attempt_of (opened ([] ∷ []) (closed (ended ∷ [])))
    ∷ []

abbrev down : Attempt
down = attempt_of (refused (StreamError.failure (codes "Failed to fetch")))

abbrev outage : List Attempt
outage = down ∷ down ∷ down ∷ down ∷ down ∷ down ∷ []

reconnects : start_stream 0 script ≡ (
  state_changed ConnectionState.connecting
      ∷ requested 0
      ∷ state_changed ConnectionState.connected
      ∷ delivered (started ∷ [])
      ∷ state_changed ConnectionState.reconnecting
      ∷ delayed 250
      ∷ state_changed ConnectionState.reconnecting
      ∷ requested 4
      ∷ state_changed ConnectionState.connected
      ∷ delivered (ended ∷ [])
      ∷ [],
  returned 5,
)
unfolding start_stream
reconnects = refl

gives_up :
    (total_delay (start_stream 0 outage).0 ≡ 7750)
    × ((start_stream 0 outage).1 ≡ thrown (StreamError.failure (codes "Failed to fetch")))
unfolding start_stream
gives_up = (refl, refl)

start_stream-Resumes_example : Resumes 0 (start_stream 0 script).0
start_stream-Resumes_example = start_stream-Resumes 0 script

start_stream-returned_example :
    (◌≡◌ {A = ℕ} 5 (max_sequence 0 (delivered_events (start_stream 0 script).0)))
    × (any is_terminal_event (delivered_events (start_stream 0 script).0) ≡ true)
start_stream-returned_example = start_stream-returned 0 5 script (unfold start_stream in refl)

start_stream_bounds_example :
    (requests (start_stream 0 outage).0 ≤ 6) × (total_delay (start_stream 0 outage).0 ≤ 7750)
start_stream_bounds_example = start_stream_bounds 0 outage

start_stream_ends_example : (start_stream 0 outage).1 ≢ waiting
start_stream_ends_example = start_stream_ends 0 outage (omega arith)
