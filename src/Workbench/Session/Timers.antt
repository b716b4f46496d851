-- ===== src/Workbench/Session/Timers.antt =====
-- What holds of the workbench (AgentStreamingWorkbench.tsx) after any sequence of its operations:
-- events that wait have a timer, and the active message is a message of the store.
use wind_solar_ess_agent.Base.{
  ◌≡◌, refl, ◌∙◌, ap, Bool, true, false, not, ◌||◌, Option, none, some, List, [], ◌∷◌, ◌++◌, map,
  any, any-append, inl, inr, Bool-cases, Option-cases, arith,
}
use wind_solar_ess_agent.Js.Text.{Text, codes, text_eq, text_eq_refl, trim}
use wind_solar_ess_agent.Workbench.Contracts.{AgentStreamEvent, AgentRunState}
use wind_solar_ess_agent.Workbench.Reducer.{
  is_terminal_status, create_agent_run_state, reduce_agent_stream_events,
}
use wind_solar_ess_agent.Workbench.Store.{
  AgentWorkbenchMessage, AgentWorkbenchStore, new_store, set_station, update_one, update_message,
  set_active_message_id, append_messages, set_draft,
}
use wind_solar_ess_agent.Workbench.Store.Updates.{KeepsId, id-update_one}
use wind_solar_ess_agent.Workbench.Client.{ConnectionState, connecting, connected, reconnecting}
use wind_solar_ess_agent.Workbench.Gateway.{AgentError, AgentTurnAccepted, RunSnapshot}
use wind_solar_ess_agent.Workbench.Session.{
  Workbench, is_empty, on_run, on_store, tick_message, drained, tick, flush_events, queue_events,
  has_run, fail_run, connection_changed, resumed_connection_changed, begin_message, turn_accepted,
  stream_ended, request_failed, stop_message, stop_run, resume_run, resume_failed,
}

-- The operations, with what the clock, `randomUUID()` and the gateway yield.
pub data Operation : Type 0 where
  choose_station : (now station_id : Text) → Operation
  begin : (raw_input client_message_id now : Text) → Operation
  accept : (station_id assistant_id : Text) → AgentTurnAccepted → Operation
  arrive : List AgentStreamEvent → Operation
  flush ticked : Operation
  change_connection : Text → ConnectionState → Operation
  change_resumed_connection : Text → ConnectionState → Operation
  end_stream : Text → Operation
  fail : (station_id assistant_id : Text) → AgentError → Operation
  stop : (station_id completed_at : Text) → Operation
  resume : (station_id run_id now : Text) → RunSnapshot → Operation
  fail_resume : AgentError → Operation

abbrev on_begun : Option (Text × Workbench) → Workbench → Workbench
on_begun none w = w
on_begun (some (id, begun)) w = begun

abbrev pub operate : Operation → Workbench → Workbench
operate (choose_station now station_id) w = on_store (set_station now station_id) w
operate (begin raw_input client_message_id now) w =
    on_begun (begin_message raw_input client_message_id now w) w
operate (accept station_id assistant_id accepted) w =
    turn_accepted station_id assistant_id accepted w
operate (arrive events) w = queue_events events w
operate flush w = flush_events w
operate ticked w = tick w
operate (change_connection assistant_id state) w = connection_changed assistant_id state w
operate (change_resumed_connection assistant_id state) w =
    resumed_connection_changed assistant_id state w
operate (end_stream station_id) w = stream_ended station_id w
operate (fail station_id assistant_id error) w = request_failed station_id assistant_id error w
operate (stop station_id completed_at) w = stop_run station_id completed_at w
operate (resume station_id run_id now snapshot) w = (resume_run station_id run_id now snapshot w).1
operate (fail_resume error) w = resume_failed error w

abbrev pub operate_all : List Operation → Workbench → Workbench
operate_all [] w = w
operate_all (operation ∷ operations) w = operate_all operations (operate operation w)

-- The workbench when it is opened.
abbrev pub new_workbench : Text → Workbench
new_workbench now = record {
  store = new_store now;
  error = [];
  active_run_id = [];
  pending_events = [];
  flush_scheduled = false;
  storage = [];
  located = [];
}

abbrev pub is_known : Text → List AgentWorkbenchMessage → Bool
is_known id messages = any (λ message. text_eq message.id id) messages

-- Events wait only while a flush is scheduled.
abbrev pub IsScheduled : Workbench → Type 0
IsScheduled w = (w.flush_scheduled || is_empty w.pending_events) ≡ true

-- There is no active message, or it is a message of the store.
abbrev pub IsActiveKnown : AgentWorkbenchStore → Type 0
IsActiveKnown s = (is_empty s.active_message_id || is_known s.active_message_id s.messages) ≡ true

is_known-update :
    (id a : Text) (f : AgentWorkbenchMessage → AgentWorkbenchMessage)
    (ms : List AgentWorkbenchMessage)
    → KeepsId f
    → is_known id (map (update_one a f) ms) ≡ is_known id ms
is_known-update id a f [] keeps = refl
is_known-update id a f (m ∷ ms) keeps =
    λ i. text_eq (id-update_one a f m keeps i) id || is_known-update id a f ms keeps i

update_message-IsActiveKnown :
    (a : Text) (f : AgentWorkbenchMessage → AgentWorkbenchMessage) (s : AgentWorkbenchStore)
    → KeepsId f
    → IsActiveKnown s
    → IsActiveKnown (update_message a f s)
unfolding update_message
update_message-IsActiveKnown a f s keeps h =
    rw (is_known-update s.active_message_id a f s.messages keeps) h

on_run-KeepsId : (f : AgentRunState → AgentRunState) → KeepsId (on_run f)
on_run-KeepsId f m = elim (Option-cases m.run) [
  | inl missing ↦ rw missing refl
  | inr (run, there) ↦ rw there refl
]

tick_message-KeepsId : KeepsId tick_message
unfolding tick_message
tick_message-KeepsId m = elim (Option-cases m.run) [
  | inl missing ↦ rw missing refl
  | inr (run, there) ↦ rw there refl
]

stop_message-KeepsId : (completed_at : Text) → KeepsId (stop_message completed_at)
stop_message-KeepsId completed_at m = elim (Option-cases m.run) [
  | inl missing ↦ rw missing refl
  | inr (run, there) ↦ rw there refl
]

-- Both.
abbrev pub IsWellFormed : Workbench → Type 0
IsWellFormed w = IsScheduled w × IsActiveKnown w.store

flush_events-IsWellFormed : (w : Workbench) → IsWellFormed w → IsWellFormed (flush_events w)
unfolding flush_events
flush_events-IsWellFormed w (s, h) =
    elim (Bool-cases (is_empty w.pending_events || is_empty w.store.active_message_id)) [
      | inl none_taken ↦ rw none_taken (refl, h)
      | inr taken ↦ rw taken (
        refl,
        update_message-IsActiveKnown w.store.active_message_id _ w.store (on_run-KeepsId _) h,
      )
    ]

tick-IsWellFormed : (w : Workbench) → IsWellFormed w → IsWellFormed (tick w)
unfolding tick set_active_message_id
tick-IsWellFormed w (s, h) =
    let active = w.store.active_message_id in
    elim (Bool-cases (is_empty active)) [
      | inl idle ↦ rw idle (s, h)
      | inr busy ↦ rw busy (elim (Bool-cases (drained active w.store.messages false)) [
        | inl released ↦ rw released (s, refl)
        | inr kept ↦
            rw kept
              (s, update_message-IsActiveKnown active tick_message w.store tick_message-KeepsId h)
      ])
    ]

set_station-IsActiveKnown :
    (now station_id : Text) (s : AgentWorkbenchStore)
    → IsActiveKnown s
    → IsActiveKnown (set_station now station_id s)
unfolding set_station
set_station-IsActiveKnown now station_id s h = elim (Bool-cases (text_eq s.station_id station_id)) [
  | inl same ↦ rw same h
  | inr other ↦ rw other refl
]

begin_message-IsWellFormed :
    (raw_input client_message_id now : Text) (w : Workbench)
    → IsWellFormed w
    → IsWellFormed (on_begun (begin_message raw_input client_message_id now w) w)
unfolding begin_message set_draft set_active_message_id append_messages
begin_message-IsWellFormed raw_input client_message_id now w (s, h) =
    let assistant_id = codes "assistant_" ++ client_message_id in
    elim (Bool-cases (is_empty (trim raw_input) || not (is_empty w.store.active_message_id))) [
      | inl refused ↦ rw refused (s, h)
      | inr begun ↦ rw begun (
        s,
        rw (any-append (λ message. text_eq message.id assistant_id) w.store.messages _)
            (rw (text_eq_refl assistant_id) (ground arith)),
      )
    ]

connection_changed-IsWellFormed :
    (assistant_id : Text) (state : ConnectionState) (w : Workbench)
    → IsWellFormed w
    → IsWellFormed (connection_changed assistant_id state w)
unfolding connection_changed
connection_changed-IsWellFormed assistant_id reconnecting w (s, h) =
    (s, update_message-IsActiveKnown assistant_id _ w.store (on_run-KeepsId _) h)
connection_changed-IsWellFormed assistant_id connecting w h = h
connection_changed-IsWellFormed assistant_id connected w h = h

resumed_connection_changed-IsWellFormed :
    (assistant_id : Text) (state : ConnectionState) (w : Workbench)
    → IsWellFormed w
    → IsWellFormed (resumed_connection_changed assistant_id state w)
unfolding resumed_connection_changed
resumed_connection_changed-IsWellFormed assistant_id reconnecting w (s, h) =
    (s, update_message-IsActiveKnown assistant_id _ w.store (on_run-KeepsId _) h)
resumed_connection_changed-IsWellFormed assistant_id connecting w h = h
resumed_connection_changed-IsWellFormed assistant_id connected w h = h

request_failed-IsWellFormed :
    (station_id assistant_id : Text) (error : AgentError) (w : Workbench)
    → IsWellFormed w
    → IsWellFormed (request_failed station_id assistant_id error w)
unfolding request_failed set_active_message_id
request_failed-IsWellFormed station_id assistant_id error w h =
    let flushed = flush_events w in
    let (s, k) = flush_events-IsWellFormed w h in
    let failed = update_message assistant_id (on_run (fail_run error)) flushed.store in
    elim (Bool-cases (has_run assistant_id failed.messages)) [
      | inl there ↦
          rw there
            (s, update_message-IsActiveKnown assistant_id _ flushed.store (on_run-KeepsId _) k)
      | inr missing ↦ rw missing (s, refl)
    ]

stop_run-IsWellFormed :
    (station_id completed_at : Text) (w : Workbench)
    → IsWellFormed w
    → IsWellFormed (stop_run station_id completed_at w)
unfolding stop_run set_active_message_id
stop_run-IsWellFormed station_id completed_at w (s, h) =
    elim (Bool-cases (is_empty w.store.active_message_id)) [
      | inl idle ↦ rw idle (s, h)
      | inr busy ↦ rw busy (s, refl)
    ]

resume_run-IsWellFormed :
    (station_id run_id now : Text) (snapshot : RunSnapshot) (w : Workbench)
    → IsWellFormed w
    → IsWellFormed (resume_run station_id run_id now snapshot w).1
unfolding resume_run set_active_message_id append_messages
resume_run-IsWellFormed station_id run_id now snapshot w (s, h) =
    let assistant_id = codes "assistant_recovered_" ++ run_id in
    let run =
      reduce_agent_stream_events
        (create_agent_run_state run_id snapshot.session_id snapshot.client_message_id) [] in
    let appended : (m : AgentWorkbenchMessage)
        → m.id ≡ assistant_id
        → is_known assistant_id (w.store.messages ++ m ∷ []) ≡ true =
      λ m e.
        any-append (λ message. text_eq message.id assistant_id) w.store.messages (m ∷ [])
        ∙ rw (ap (λ t. text_eq t assistant_id) e ∙ text_eq_refl assistant_id) (ground arith) in
    elim (Bool-cases (is_known assistant_id w.store.messages)) [
      | inl known ↦ elim (Bool-cases (is_terminal_status run.status)) [
        | inl ended ↦ rw known (rw ended (s, known))
        | inr running ↦ rw known (rw running (s, known))
      ]
      | inr new ↦ elim (Bool-cases (is_terminal_status run.status)) [
        | inl ended ↦ rw new (rw ended (s, appended _ refl))
        | inr running ↦ rw new (rw running (s, appended _ refl))
      ]
    ]

-- Every operation keeps both.
operate-IsWellFormed :
    (operation : Operation) (w : Workbench) → IsWellFormed w → IsWellFormed (operate operation w)
unfolding turn_accepted stream_ended queue_events resume_failed
operate-IsWellFormed (choose_station now station_id) w (s, h) =
    (s, set_station-IsActiveKnown now station_id w.store h)
operate-IsWellFormed (begin raw_input id now) w h = begin_message-IsWellFormed raw_input id now w h
operate-IsWellFormed (accept station_id assistant_id accepted) w (s, h) =
    (s, update_message-IsActiveKnown assistant_id _ w.store (λ m. refl) h)
operate-IsWellFormed (arrive events) w (s, h) = (refl, h)
operate-IsWellFormed flush w h = flush_events-IsWellFormed w h
operate-IsWellFormed ticked w h = tick-IsWellFormed w h
operate-IsWellFormed (change_connection id state) w h = connection_changed-IsWellFormed id state w h
operate-IsWellFormed (change_resumed_connection id state) w h =
    resumed_connection_changed-IsWellFormed id state w h
operate-IsWellFormed (end_stream station_id) w h = flush_events-IsWellFormed w h
operate-IsWellFormed (fail station_id assistant_id error) w h =
    request_failed-IsWellFormed station_id assistant_id error w h
operate-IsWellFormed (stop station_id completed_at) w h =
    stop_run-IsWellFormed station_id completed_at w h
operate-IsWellFormed (resume station_id run_id now snapshot) w h =
    resume_run-IsWellFormed station_id run_id now snapshot w h
operate-IsWellFormed (fail_resume error) w h = h

operate_all-IsWellFormed :
    (operations : List Operation) (w : Workbench)
    → IsWellFormed w
    → IsWellFormed (operate_all operations w)
operate_all-IsWellFormed [] w h = h
operate_all-IsWellFormed (operation ∷ operations) w h =
    operate_all-IsWellFormed operations (operate operation w) (operate-IsWellFormed operation w h)

-- After any sequence of operations from the opening of the workbench on, in any order and with any
-- answers of the gateway, events wait only while a flush is scheduled, and the active message, if
-- there is one, is a message of the store.
pub operate_all_new :
    (operations : List Operation) (now : Text)
    → IsWellFormed (operate_all operations (new_workbench now))
unfolding new_store
operate_all_new operations now =
    operate_all-IsWellFormed operations (new_workbench now) (refl, refl)
