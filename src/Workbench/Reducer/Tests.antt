-- ===== src/Workbench/Reducer/Tests.antt =====
-- The reducer on the inputs of agent-stream-reducer.test.ts, and its theorems at such inputs.
use wind_solar_ess_agent.Base.{
  ℕ, ◌≤◌, ◌≡◌, refl, true, none, List, [], ◌∷◌, arith, any, ◌==◌, ◌++◌, if◌then◌else◌, All,
}
use wind_solar_ess_agent.Js.Text.{Text, codes}
use wind_solar_ess_agent.Js.Json.{Json, Fields, get, string_or}
use wind_solar_ess_agent.Workbench.Contracts.{
  AgentRunStatus, AgentStreamEventType, AgentStreamEvent, AgentRunState,
}
use wind_solar_ess_agent.Workbench.Reducer.{
  apply_typed, apply_agent_stream_event, enqueue, enqueue_all, commit_next, commit_pending,
  commit_ready, create_agent_run_state, reduce_agent_stream_events,
}
use wind_solar_ess_agent.Workbench.Reducer.Commit.{with_queue}
use wind_solar_ess_agent.Workbench.Reducer.Batches.{reduce_idempotent, reduce-append}
use wind_solar_ess_agent.Workbench.Reducer.Valid.{IsValid}
use wind_solar_ess_agent.Workbench.Reducer.Replay.{replay, reduce-replays, reduce_complete}
use wind_solar_ess_agent.Workbench.Reducer.Terminal.{Ended, reduce-Ended}

abbrev event_of : ℕ → AgentStreamEventType → Fields → AgentStreamEvent
event_of sequence type payload = record {
  event_id = none;
  sequence = sequence;
  event_sequence = none;
  run_id = none;
  conversation_id = none;
  message_id = none;
  trace_id = none;
  observation_id = none;
  type = type;
  timestamp = none;
  payload = payload;
  status = none;
  action = none;
}

abbrev delta_of : ℕ → Text → AgentStreamEvent
delta_of n t =
    event_of n AgentStreamEventType.response_delta (Fields.field "delta" (Json.str t) Fields.end)

abbrev step_of : ℕ → Text → AgentStreamEvent
step_of n id =
    event_of n AgentStreamEventType.tool_started (Fields.field "stepId" (Json.str id) Fields.end)

-- A run of three events: its start, a text, its end.
abbrev log : ℕ → AgentStreamEvent
log n =
    if n == 1
    then event_of n AgentStreamEventType.run_started Fields.end
    else if n == 2
    then delta_of n (codes "系统")
    else event_of n AgentStreamEventType.run_completed Fields.end

abbrev fresh : AgentRunState
fresh = create_agent_run_state (codes "run-1") (codes "session-1") (codes "message-1")

abbrev shuffled : List AgentStreamEvent
shuffled = log 3 ∷ log 2 ∷ log 3 ∷ log 1 ∷ log 2 ∷ []

abbrev cancelled : AgentRunState
cancelled = record {
  run_id = [];
  conversation_id = [];
  message_id = [];
  status = AgentRunStatus.cancelled;
  last_sequence = 0;
  received_text = [];
  response_completed = true;
  reasoning_summary = [];
  execution = record { current_label = []; events = [] };
  pending_events = [];
  error_message = [];
  completed_at = none;
}

abbrev late : List AgentStreamEvent
late = delta_of 1 (codes "迟到内容") ∷ step_of 2 (codes "a") ∷ step_of 3 (codes "a") ∷ []

buffers_out_of_order :
    ((reduce_agent_stream_events fresh (log 2 ∷ [])).received_text ≡ [])
    × ((reduce_agent_stream_events
          (reduce_agent_stream_events fresh (log 2 ∷ []))
          (log 1 ∷ [])).received_text
        ≡ codes "系统")
unfolding reduce_agent_stream_events enqueue_all enqueue commit_ready commit_pending commit_next
    apply_agent_stream_event apply_typed create_agent_run_state get string_or
buffers_out_of_order = (refl, refl)

reduce-append_example :
    reduce_agent_stream_events fresh (shuffled ++ late)
    ≡ reduce_agent_stream_events (reduce_agent_stream_events fresh shuffled) late
reduce-append_example = reduce-append fresh shuffled late

reduce_idempotent_example :
    reduce_agent_stream_events (reduce_agent_stream_events fresh shuffled) shuffled
    ≡ reduce_agent_stream_events fresh shuffled
reduce_idempotent_example = reduce_idempotent fresh shuffled

fresh-IsValid : IsValid fresh
unfolding create_agent_run_state
fresh-IsValid = record { ahead = tt; filed = tt; distinct = tt }

shuffled-IsLogged : All (λ e. (e ≡ log e.sequence) × (e.sequence ≤ 3)) shuffled
shuffled-IsLogged = (
  (refl, omega arith),
  ((refl, omega arith), ((refl, omega arith), ((refl, omega arith), ((refl, omega arith), tt)))),
)

shuffled_occurs :
    (k : ℕ) → 1 ≤ k → k ≤ 3 → any (λ (e : AgentStreamEvent). e.sequence == k) shuffled ≡ true
shuffled_occurs k h j = ground arith

reduce-replays_example :
    with_queue (reduce_agent_stream_events fresh shuffled) 0 []
    ≡ replay log (reduce_agent_stream_events fresh shuffled).last_sequence fresh
reduce-replays_example =
    reduce-replays log 3 (codes "run-1") (codes "session-1") (codes "message-1") shuffled
      shuffled-IsLogged

reduce_complete_example :
    reduce_agent_stream_events fresh shuffled ≡ with_queue (replay log 3 fresh) 3 []
reduce_complete_example =
    reduce_complete log 3 (codes "run-1") (codes "session-1") (codes "message-1") shuffled
      shuffled-IsLogged shuffled_occurs

reduce-Ended_example : Ended cancelled (reduce_agent_stream_events cancelled late)
reduce-Ended_example = reduce-Ended cancelled late refl
