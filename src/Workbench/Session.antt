-- ===== src/Workbench/Session.antt =====
-- AgentStreamingWorkbench.tsx: what the workbench's effects, timers and handlers do to the store, to
-- the queue of events and to the storage. A part of `runMessage` or of `resume` between two waits is
-- a function of the state; the clock, `randomUUID()` and the answers of the gateway are arguments.
mod Tests
pub mod Delivery
pub mod Timers
use wind_solar_ess_agent.Base.{
  ℕ, Bool, true, false, not, ◌&&◌, ◌||◌, Option, none, some, List, [], ◌∷◌, ◌++◌, map, any,
  if◌then◌else◌,
}
use wind_solar_ess_agent.Js.Text.{Text, codes, text_eq, trim}
use wind_solar_ess_agent.Js.Storage.{Storage, get_item, set_item, remove_item}
use wind_solar_ess_agent.Workbench.Contracts.{
  AgentRunStatus, AgentStreamEventType, SceneAction, AgentStreamEvent, AgentRunState,
}
use wind_solar_ess_agent.Workbench.Reducer.{
  is_terminal_status, create_agent_run_state, reduce_agent_stream_events,
}
use wind_solar_ess_agent.Workbench.Buffer.{
  Drained, drain_streaming_text, should_release_active_message,
}
use wind_solar_ess_agent.Workbench.Store.{
  assistant, user, AgentWorkbenchMessage, AgentWorkbenchStore, set_draft, append_messages,
  update_message, set_active_message_id,
}
use wind_solar_ess_agent.Workbench.Client.{
  StreamError, abort_error, failure, closed_early, ConnectionState, reconnecting,
}
use wind_solar_ess_agent.Workbench.Gateway.{
  AgentError, gateway_error, other_error, AgentTurnAccepted, RunSnapshot,
}

-- The state of the component: the store, what its references hold, `sessionStorage`, and the calls
-- of `onLocate`, the newest first. A scheduled flush is a timer that runs `flush_events`.
pub record Workbench : Type 0 where
  pub store : AgentWorkbenchStore
  pub error : Text
  pub active_run_id : Text
  pub pending_events : List AgentStreamEvent
  pub flush_scheduled : Bool
  pub storage : Storage
  pub located : List Text

-- `activeRunKey`
pub active_run_key : Text → Text
active_run_key station_id = codes "digitalTwin.activeRunId:" ++ station_id

-- `errorMessage`; the message of an `AbortError` is the one that this program gives it.
pub error_message : AgentError → Text
error_message (gateway_error error) = error.message
error_message (other_error abort_error) = codes "Aborted"
error_message (other_error (failure message)) = message
error_message (other_error closed_early) = codes "Agent SSE closed before a terminal event"

abbrev pub is_empty : {A : Type 0} → List A → Bool
is_empty [] = true
is_empty (_ ∷ _) = false

abbrev pub on_store : (AgentWorkbenchStore → AgentWorkbenchStore) → Workbench → Workbench
on_store change w = record w { store = change w.store }

abbrev pub on_run : (AgentRunState → AgentRunState) → AgentWorkbenchMessage → AgentWorkbenchMessage
on_run change message = elim message.run [
  | none ↦ message
  | some run ↦ record message { run = some (change run) }
]

-- The update of a message by a tick of the timer.
unfoldable pub tick_message : AgentWorkbenchMessage → AgentWorkbenchMessage
tick_message message = elim message.run [
  | none ↦ message
  | some run ↦ record message {
    displayed_text = (drain_streaming_text run.received_text message.displayed_text).displayed_text;
  }
]

-- What the update assigns to `drained`.
abbrev drained_of : AgentWorkbenchMessage → Bool → Bool
drained_of message drained = elim message.run [
  | none ↦ drained
  | some run ↦
      should_release_active_message run.status run.response_completed
        (drain_streaming_text run.received_text message.displayed_text).pending_length
]

-- The variable `drained` after the updates.
unfoldable pub drained : Text → List AgentWorkbenchMessage → Bool → Bool
drained message_id [] last = last
drained message_id (message ∷ messages) last =
    let this = drained message_id messages (drained_of message last) in
    let other = drained message_id messages last in
    if text_eq message.id message_id then this else other

-- A tick of the timer that runs while there is an active message.
unfoldable pub tick : Workbench → Workbench
unfolding tick_message drained
tick w =
    let active = w.store.active_message_id in
    let updated = update_message active tick_message w.store in
    if is_empty active then w else record w {
      store =
          if drained active w.store.messages false
          then set_active_message_id [] updated
          else updated;
    }

abbrev is_highlight : Option Text → Bool
is_highlight none = false
is_highlight (some command) = text_eq command (codes "highlight_asset")

abbrev is_scene_action : AgentStreamEventType → Bool
is_scene_action AgentStreamEventType.scene_action = true
is_scene_action _ = false

-- The asset of an event that `flushEvents` locates.
abbrev target_of : SceneAction → Option Text
target_of action = elim action.asset_id [
  | none ↦ none
  | some [] ↦ none
  | some (c ∷ t) ↦ if is_highlight action.command then some (c ∷ t) else none
]

abbrev asset_of : AgentStreamEvent → Option Text
asset_of event = elim event.action [
  | none ↦ none
  | some action ↦ if is_scene_action event.type then target_of action else none
]

abbrev prepend : Option Text → List Text → List Text
prepend none ts = ts
prepend (some t) ts = t ∷ ts

-- The loop of `flushEvents` over the events.
pub locate_all : List AgentStreamEvent → List Text → List Text
locate_all [] located = located
locate_all (event ∷ events) located = locate_all events (prepend (asset_of event) located)

-- `flushEvents`
unfoldable pub flush_events : Workbench → Workbench
unfolding locate_all
flush_events w =
    let events = w.pending_events in
    let active = w.store.active_message_id in
    let taken = record w { flush_scheduled = false; pending_events = [] } in
    if is_empty events || is_empty active then taken else record taken {
      located = locate_all events w.located;
      store = update_message active (on_run (λ run. reduce_agent_stream_events run events)) w.store;
    }

-- `queueEvents`
unfoldable pub queue_events : List AgentStreamEvent → Workbench → Workbench
queue_events events w = record w {
  pending_events = w.pending_events ++ events;
  flush_scheduled = true;
}

abbrev pub with_status : AgentRunStatus → AgentRunState → AgentRunState
with_status status run = record run { status = status }

-- `onConnectionState` of `runMessage`
pub connection_changed : Text → ConnectionState → Workbench → Workbench
connection_changed assistant_id reconnecting w =
    on_store
      (update_message assistant_id (
        on_run (λ run.
          if is_terminal_status run.status
          then run
          else with_status AgentRunStatus.reconnecting run)))
      w
connection_changed assistant_id _ w = w

-- `onConnectionState` of `resume`
pub resumed_connection_changed : Text → ConnectionState → Workbench → Workbench
resumed_connection_changed assistant_id reconnecting w =
    on_store (update_message assistant_id (on_run (with_status AgentRunStatus.reconnecting))) w
resumed_connection_changed assistant_id _ w = w

-- The `finally` blocks.
abbrev pub finally : Workbench → Workbench
finally w = record w { active_run_id = [] }

abbrev user_message : Text → Text → Text → AgentWorkbenchMessage
user_message input client_message_id now = record {
  id = codes "user_" ++ client_message_id;
  role = user;
  content = input;
  displayed_text = input;
  created_at = now;
  run = none;
  elapsed_ms = none;
}

abbrev assistant_message : Text → Text → Option AgentRunState → AgentWorkbenchMessage
assistant_message id now run = record {
  id = id;
  role = assistant;
  content = [];
  displayed_text = [];
  created_at = now;
  run = run;
  elapsed_ms = none;
}

-- `runMessage` up to its `try` block: `none` where it returns at once, else the id of the
-- assistant's message and the state.
pub begin_message : Text → Text → Text → Workbench → Option (Text × Workbench)
begin_message raw_input client_message_id now w =
    let input = trim raw_input in
    let assistant_id = codes "assistant_" ++ client_message_id in
    let messages =
      user_message input client_message_id now ∷ assistant_message assistant_id now none ∷ [] in
    let store =
      set_draft [] (set_active_message_id assistant_id (append_messages messages w.store)) in
    if is_empty input || not (is_empty w.store.active_message_id)
    then none
    else some (assistant_id, record w { store = store; error = [] })

-- What `runMessage` does once the turn is accepted, before it reads the stream.
pub turn_accepted : Text → Text → AgentTurnAccepted → Workbench → Workbench
unfolding active_run_key
turn_accepted station_id assistant_id accepted w =
    let run = create_agent_run_state accepted.run_id accepted.session_id accepted.message_id in
    record w {
      active_run_id = accepted.run_id;
      storage = set_item (active_run_key station_id) accepted.run_id w.storage;
      store = update_message assistant_id (λ message. record message { run = some run }) w.store;
    }

-- The end of the `try` blocks of `runMessage` and `resume`, after the stream, and `finally`.
pub stream_ended : Text → Workbench → Workbench
unfolding active_run_key flush_events
stream_ended station_id w =
    let flushed = flush_events w in
    finally (record flushed { storage = remove_item (active_run_key station_id) flushed.storage })

abbrev is_abort : AgentError → Bool
is_abort (gateway_error error) = false
is_abort (other_error abort_error) = true
is_abort (other_error _) = false

abbrev pub stopped_text : Bool → Text
stopped_text true = codes "已停止生成。"
stopped_text false = codes "本次分析未完成。"

abbrev text_or : Text → Text → Text
text_or [] fallback = fallback
text_or (c ∷ t) fallback = c ∷ t

-- The run of a message whose request ended by an error.
pub fail_run : AgentError → AgentRunState → AgentRunState
unfolding error_message
fail_run error run = record run {
  status = if is_abort error then AgentRunStatus.cancelled else AgentRunStatus.error;
  response_completed = true;
  received_text = text_or run.received_text (stopped_text (is_abort error));
  error_message = if is_abort error then [] else error_message error;
}

-- Whether the first message with this id has a run.
pub has_run : Text → List AgentWorkbenchMessage → Bool
has_run message_id [] = false
has_run message_id (message ∷ messages) =
    let rest = has_run message_id messages in
    if text_eq message.id message_id
    then (elim message.run [ none ↦ false | some _ ↦ true ])
    else rest

-- The `catch` block of `runMessage`, and `finally`.
pub request_failed : Text → Text → AgentError → Workbench → Workbench
unfolding active_run_key error_message flush_events fail_run has_run
request_failed station_id assistant_id error w =
    let flushed = flush_events w in
    let failed = update_message assistant_id (on_run (fail_run error)) flushed.store in
    let shown = set_active_message_id [] (
      update_message assistant_id
        (λ message. record message { displayed_text = stopped_text (is_abort error) }) failed) in
    finally (record flushed {
      store = if has_run assistant_id failed.messages then failed else shown;
      error = if is_abort error then flushed.error else error_message error;
      storage = remove_item (active_run_key station_id) flushed.storage;
    })

abbrev pub stop_message : Text → AgentWorkbenchMessage → AgentWorkbenchMessage
stop_message completed_at message = elim message.run [
  | none ↦ message
  | some run ↦ record message {
    displayed_text = text_or run.received_text message.displayed_text;
    run = some (record run {
      status = AgentRunStatus.cancelled;
      response_completed = true;
      completed_at = some completed_at;
    });
  }
]

-- `stopRun`. The stream of the run then ends by an `AbortError`.
pub stop_run : Text → Text → Workbench → Workbench
unfolding active_run_key
stop_run station_id completed_at w =
    let active = w.store.active_message_id in
    let stopped =
      set_active_message_id [] (update_message active (stop_message completed_at) w.store) in
    record w {
      store = if is_empty active then w.store else stopped;
      storage =
          if is_empty w.active_run_id
          then w.storage
          else remove_item (active_run_key station_id) w.storage;
    }

-- `resume` once the snapshot is there, before it reads the stream: whether there is a stream to
-- read, and the state. The snapshot has no events (`loadAgentRun`).
pub resume_run : Text → Text → Text → RunSnapshot → Workbench → Bool × Workbench
unfolding active_run_key
resume_run station_id run_id now snapshot w =
    let assistant_id = codes "assistant_recovered_" ++ run_id in
    let run =
      reduce_agent_stream_events
        (create_agent_run_state run_id snapshot.session_id snapshot.client_message_id) [] in
    let known = any (λ message. text_eq message.id assistant_id) w.store.messages in
    let store =
      if known
      then w.store
      else append_messages (assistant_message assistant_id now (some run) ∷ []) w.store in
    let active = record w { store = set_active_message_id assistant_id store } in
    if is_terminal_status run.status
    then (
      false,
      finally (record active { storage = remove_item (active_run_key station_id) active.storage }),
    )
    else (true, record active { active_run_id = run_id })

-- The `catch` block of `resume`, and `finally`.
pub resume_failed : AgentError → Workbench → Workbench
unfolding error_message
resume_failed error w = finally (record w {
  error = if is_abort error then w.error else codes "恢复 Agent 运行失败：" ++ error_message error;
})
