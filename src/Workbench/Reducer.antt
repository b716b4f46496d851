-- ===== src/Workbench/Reducer.antt =====
-- stream-reducer.ts: the reducer that turns the events of a run, in whatever order they arrive, into
-- the state of the run. Children: what the pending table keeps (Pending), the loop that commits
-- events (Commit), batches one after the other (Batches), the events that a run knows (Known), the
-- run as a replay of its log (Replay), ends of runs (Terminal), the execution steps (Steps).
pub mod Pending
pub mod Commit
pub mod Batches
pub mod Known
pub mod Valid
pub mod Replay
pub mod InOrder
pub mod Terminal
pub mod Steps
mod Tests
use wind_solar_ess_agent.Base.{
  ℕ, zero, suc, ◌+◌, Bool, true, false, ◌&&◌, ◌||◌, not, Option, none, some, List, [], ◌∷◌, ◌++◌,
  leb, ◌==◌, if◌then◌else◌, length,
}
use wind_solar_ess_agent.Js.Text.{Text, codes, text_eq, decimal}
use wind_solar_ess_agent.Js.Json.{Json, Fields, get, nullish, truthy, string_or, to_string}
use wind_solar_ess_agent.Workbench.Contracts.{
  AgentRunStatus, AgentStreamEventType, AgentStreamEvent, AgentExecutionEvent, AgentExecutionState,
  AgentRunState,
}

-- `TERMINAL_STATUSES.has(status)`
abbrev pub is_terminal_status : AgentRunStatus → Bool
is_terminal_status AgentRunStatus.completed = true
is_terminal_status AgentRunStatus.cancelled = true
is_terminal_status AgentRunStatus.error = true
is_terminal_status AgentRunStatus.failed = true
is_terminal_status _ = false

-- `status !== "completed"`
abbrev pub is_completed_status : AgentRunStatus → Bool
is_completed_status AgentRunStatus.completed = true
is_completed_status _ = false

-- The name of an event type in the messages.
abbrev pub type_name : AgentStreamEventType → Text
type_name AgentStreamEventType.run_started = codes "run.started"
type_name AgentStreamEventType.phase_changed = codes "phase.changed"
type_name AgentStreamEventType.reasoning_summary = codes "reasoning.summary"
type_name AgentStreamEventType.workflow_started = codes "workflow.started"
type_name AgentStreamEventType.workflow_step_started = codes "workflow.step.started"
type_name AgentStreamEventType.workflow_step_completed = codes "workflow.step.completed"
type_name AgentStreamEventType.workflow_completed = codes "workflow.completed"
type_name AgentStreamEventType.tool_started = codes "tool.started"
type_name AgentStreamEventType.tool_progress = codes "tool.progress"
type_name AgentStreamEventType.tool_completed = codes "tool.completed"
type_name AgentStreamEventType.response_started = codes "response.started"
type_name AgentStreamEventType.response_delta = codes "response.delta"
type_name AgentStreamEventType.response_completed = codes "response.completed"
type_name AgentStreamEventType.run_completed = codes "run.completed"
type_name AgentStreamEventType.run_cancelled = codes "run.cancelled"
type_name AgentStreamEventType.error = codes "error"
type_name AgentStreamEventType.heartbeat = codes "heartbeat"
type_name AgentStreamEventType.scene_action = codes "scene.action"

unfoldable pub create_agent_run_state : Text → Text → Text → AgentRunState
create_agent_run_state run_id conversation_id message_id = record {
  run_id = run_id;
  conversation_id = conversation_id;
  message_id = message_id;
  status = AgentRunStatus.queued;
  last_sequence = 0;
  received_text = [];
  response_completed = false;
  reasoning_summary = [];
  execution = record { current_label = codes "任务已创建"; events = [] };
  pending_events = [];
  error_message = [];
  completed_at = none;
}

-- `a ?? b` on optional texts.
abbrev pub or_text : Option Text → Text → Text
or_text none fallback = fallback
or_text (some t) fallback = t

-- `a ?? b` where both sides may be missing.
abbrev first_text : Option Text → Option Text → Option Text
first_text none other = other
first_text (some t) other = some t

-- `text || undefined`
abbrev pub non_empty : Text → Option Text
non_empty [] = none
non_empty (c ∷ t) = some (c ∷ t)

-- `v ? String(v) : undefined`
abbrev string_if_truthy : Option Json → Option Text
string_if_truthy none = none
string_if_truthy (some v) = if truthy (some v) then some (to_string v) else none

-- `typeof v === "number" ? v : undefined`
abbrev number_only : Option Json → Option ℕ
number_only (some (Json.num n)) = some n
number_only _ = none

pub project_execution_event : AgentStreamEvent → AgentExecutionEvent
project_execution_event event = record {
  id =
      or_text event.event_id
        (or_text event.run_id (codes "run") ++ (codes ":" ++ decimal event.sequence));
  sequence = event.sequence;
  step_id =
      string_or
        (or_text event.event_id (type_name event.type ++ (codes ":" ++ decimal event.sequence)))
        (get "stepId" event.payload);
  type = event.type;
  label = string_or (codes "Agent 正在处理") (get "label" event.payload);
  summary = string_or [] (get "summary" event.payload);
  status = string_or (or_text event.status (codes "running")) (get "status" event.payload);
  timestamp = event.timestamp;
  completed_at = string_if_truthy (get "completedAt" event.payload);
  duration_ms = number_only (get "durationMs" event.payload);
  tool_label = string_if_truthy (get "toolLabel" event.payload);
}

-- `{ ...current, ...incoming, id, timestamp }`
merge_execution_event : AgentExecutionEvent → AgentExecutionEvent → AgentExecutionEvent
merge_execution_event current incoming = record incoming {
  id = current.id;
  timestamp = first_text current.timestamp incoming.timestamp;
}

-- `findIndex` and the two cases on its result, in one pass over the steps.
pub upsert_execution_event :
    List AgentExecutionEvent → AgentExecutionEvent → List AgentExecutionEvent
unfolding merge_execution_event
upsert_execution_event [] incoming = incoming ∷ []
upsert_execution_event (current ∷ rest) incoming =
    if text_eq current.step_id incoming.step_id
    then merge_execution_event current incoming ∷ rest
    else current ∷ upsert_execution_event rest incoming

status_from_execution : Text → AgentRunStatus → AgentRunStatus
status_from_execution status current =
    if is_terminal_status current
    then current
    else if text_eq status (codes "planning")
    then AgentRunStatus.planning
    else if text_eq status (codes "waiting_approval")
    then AgentRunStatus.waiting_approval
    else AgentRunStatus.executing

-- The branch for `EXECUTION_TYPES`, by the type of the event.
pub apply_execution : AgentStreamEventType → AgentRunState → AgentStreamEvent → AgentRunState
unfolding project_execution_event upsert_execution_event status_from_execution
apply_execution type state event =
    let step = project_execution_event event in
    record state {
      status =
          status_from_execution
            (or_text event.status (string_or (codes "executing") (get "status" event.payload)))
            state.status;
      reasoning_summary = elim type [
        | AgentStreamEventType.reasoning_summary ↦
            string_or state.reasoning_summary (get "summary" event.payload)
        | _ ↦ state.reasoning_summary
      ];
      execution = record {
        current_label = elim type [
          | AgentStreamEventType.tool_progress ↦ state.execution.current_label
          | _ ↦ step.label
        ];
        events = upsert_execution_event state.execution.events step;
      };
    }

-- `String(payload.completedAt ?? event.timestamp ?? "") || undefined`
completion_time : AgentStreamEvent → Option Text
completion_time event =
    non_empty (string_or (or_text event.timestamp []) (get "completedAt" event.payload))

-- The body of `applyAgentStreamEvent`, whose conditions tell the types of events apart.
pub apply_typed : AgentStreamEventType → AgentRunState → AgentStreamEvent → AgentRunState
unfolding completion_time
apply_typed AgentStreamEventType.response_delta state event =
    if is_terminal_status state.status then state else record state {
      status = AgentRunStatus.streaming;
      received_text = state.received_text ++ string_or [] (get "delta" event.payload);
    }
apply_typed AgentStreamEventType.response_started state event =
    if is_terminal_status state.status
    then state
    else record state { status = AgentRunStatus.streaming }
apply_typed AgentStreamEventType.response_completed state event =
    if is_terminal_status state.status && not (is_completed_status state.status)
    then state
    else record state {
      response_completed = true;
      received_text = string_or state.received_text (get "content" event.payload);
      reasoning_summary = string_or state.reasoning_summary (get "reasoningSummary" event.payload);
    }
apply_typed AgentStreamEventType.run_completed state event =
    if is_terminal_status state.status then state else record state {
      status = AgentRunStatus.completed;
      response_completed = true;
      completed_at = completion_time event;
    }
apply_typed AgentStreamEventType.run_cancelled state event =
    if is_terminal_status state.status then state else record state {
      status = AgentRunStatus.cancelled;
      response_completed = true;
      completed_at = completion_time event;
    }
apply_typed AgentStreamEventType.error state event =
    if is_terminal_status state.status then state else record state {
      status = AgentRunStatus.error;
      response_completed = true;
      completed_at = non_empty (or_text event.timestamp []);
      error_message = string_or (codes "Agent 任务执行失败") (get "message" event.payload);
    }
apply_typed AgentStreamEventType.run_started state event =
    if is_terminal_status state.status
    then state
    else record state { status = AgentRunStatus.queued }
apply_typed AgentStreamEventType.heartbeat state event = state
apply_typed AgentStreamEventType.scene_action state event = state
apply_typed type state event = apply_execution type state event

pub apply_agent_stream_event : AgentRunState → AgentStreamEvent → AgentRunState
apply_agent_stream_event state event = apply_typed event.type state event

-- `pendingEvents[sequence]`
pub pending_event : ℕ → List (ℕ × AgentStreamEvent) → Option AgentStreamEvent
pending_event n [] = none
pending_event n ((k, e) ∷ rest) = if k == n then some e else pending_event n rest

-- `delete pendingEvents[sequence]`
pub delete_pending : ℕ → List (ℕ × AgentStreamEvent) → List (ℕ × AgentStreamEvent)
delete_pending n [] = []
delete_pending n ((k, e) ∷ rest) =
    let kept = delete_pending n rest in if k == n then kept else (k, e) ∷ kept

abbrev pub is_some : Option AgentStreamEvent → Bool
is_some none = false
is_some (some e) = true

-- One round of the first loop: an event that was committed or waits already is skipped.
pub enqueue : AgentRunState → AgentStreamEvent → AgentRunState
unfolding pending_event
enqueue next event =
    if leb event.sequence next.last_sequence
      || is_some (pending_event event.sequence next.pending_events)
    then next
    else record next { pending_events = (event.sequence, event) ∷ next.pending_events }

pub enqueue_all : AgentRunState → List AgentStreamEvent → AgentRunState
enqueue_all next [] = next
enqueue_all next (event ∷ incoming) = enqueue_all (enqueue next event) incoming

-- The body of the second loop, for the event that is next in sequence.
pub commit_next : AgentRunState → AgentStreamEvent → AgentRunState
unfolding delete_pending
commit_next next event =
    let sequence = next.last_sequence + 1 in
    let rest = record next { pending_events = delete_pending sequence next.pending_events } in
    record (apply_agent_stream_event rest event) { last_sequence = sequence }

-- The second loop, on fuel.
pub commit_pending : ℕ → AgentRunState → AgentRunState
commit_pending zero next = next
commit_pending (suc fuel) next = elim (pending_event (next.last_sequence + 1) next.pending_events) [
  | none ↦ next
  | some event ↦ commit_pending fuel (commit_next next event)
]

-- Each round takes an entry out of the table, so its length is fuel enough.
pub commit_ready : AgentRunState → AgentRunState
commit_ready next = commit_pending (length next.pending_events) next

pub reduce_agent_stream_events : AgentRunState → List AgentStreamEvent → AgentRunState
reduce_agent_stream_events state incoming = commit_ready (enqueue_all state incoming)
