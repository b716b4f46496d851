-- ===== src/Workbench/Session/Tests.antt =====
-- The workbench at a first message, and its theorems there.
use wind_solar_ess_agent.Base.{ℕ, ◌≡◌, refl, false, none, some, List, [], ◌∷◌, map}
use wind_solar_ess_agent.Js.Text.{Text, codes, text_eq, trim, trim_start, is_space, starts_with}
use wind_solar_ess_agent.Js.Json.{Json, Fields}
use wind_solar_ess_agent.Workbench.Contracts.{AgentStreamEventType, AgentStreamEvent}
use wind_solar_ess_agent.Workbench.Reducer.{create_agent_run_state}
use wind_solar_ess_agent.Workbench.Store.{
  assistant, new_store, update_one, update_message, set_active_message_id, set_draft,
  append_messages,
}
use wind_solar_ess_agent.Workbench.Buffer.{drain_streaming_text, should_release_active_message}
use wind_solar_ess_agent.Workbench.Client.{abort_error}
use wind_solar_ess_agent.Workbench.Gateway.{AgentTurnAccepted, other_error}
use wind_solar_ess_agent.Workbench.Session.{
  Workbench, tick, drained, flush_events, queue_events, begin_message, turn_accepted,
  request_failed, stop_run, has_run, fail_run,
}
use wind_solar_ess_agent.Workbench.Session.Delivery.{
  Step, arrive, flush, ticked, run_steps, runs, deliver_to, run_steps-delivers,
}
use wind_solar_ess_agent.Workbench.Session.Timers.{
  Operation, operate_all, new_workbench, IsWellFormed, operate_all_new,
}

abbrev accepted : AgentTurnAccepted
accepted = record {
  run_id = codes "r";
  session_id = codes "s";
  message_id = codes "m";
  status = codes "queued";
  stream_url = codes "/u";
}

abbrev opened : Workbench
opened =
    operate_all
      (Operation.begin (codes "hi") (codes "1") (codes "t")
        ∷ Operation.accept (codes "st") (codes "assistant_1") accepted
        ∷ [])
      (new_workbench (codes "t"))

-- What the messages show.
abbrev shown : Workbench → List Text
shown w = map (λ message. message.displayed_text) w.store.messages

-- Where the user stops a run before any of its text has arrived, the assistant's message shows
-- nothing, and no timer reveals the text "已停止生成。" that its run then holds.
stopped_before_text :
    let stopped =
      operate_all
        (Operation.stop (codes "st") (codes "t")
          ∷ Operation.fail (codes "st") (codes "assistant_1") (other_error abort_error)
          ∷ Operation.ticked
          ∷ [])
        opened in
    (shown stopped ≡ codes "您好，我已载入当前场站上下文。请选择设备或直接发起运行分析。" ∷ codes "hi" ∷ [] ∷ [])
    × (stopped.store.active_message_id ≡ [])
unfolding begin_message turn_accepted stop_run request_failed flush_events has_run fail_run tick
    new_store update_message update_one set_active_message_id set_draft append_messages trim
    trim_start is_space text_eq create_agent_run_state
stopped_before_text = (refl, refl)

operate_all_new_example : IsWellFormed (
    operate_all
      (Operation.begin (codes "hi") (codes "1") (codes "t")
        ∷ Operation.ticked
        ∷ Operation.stop (codes "st") (codes "t")
        ∷ [])
      (new_workbench (codes "t")))
operate_all_new_example =
    operate_all_new
      (Operation.begin (codes "hi") (codes "1") (codes "t")
        ∷ Operation.ticked
        ∷ Operation.stop (codes "st") (codes "t")
        ∷ [])
      (codes "t")

abbrev delta_of : ℕ → Text → AgentStreamEvent
delta_of sequence t = record {
  event_id = none;
  sequence = sequence;
  event_sequence = none;
  run_id = none;
  conversation_id = none;
  message_id = none;
  trace_id = none;
  observation_id = none;
  type = AgentStreamEventType.response_delta;
  timestamp = none;
  payload = Fields.field "delta" (Json.str t) Fields.end;
  status = none;
  action = none;
}

abbrev steps : List Step
steps =
    arrive (delta_of 1 (codes "a") ∷ [])
    ∷ ticked
    ∷ flush
    ∷ arrive (delta_of 3 (codes "c") ∷ [])
    ∷ arrive (delta_of 2 (codes "b") ∷ [])
    ∷ []

-- A workbench whose message "a" is active and has a run.
abbrev reading : Workbench
reading = record {
  store = record {
    station_id = codes "st";
    draft = [];
    messages =
        record {
          id = codes "a";
          role = assistant;
          content = [];
          displayed_text = [];
          created_at = codes "t";
          run = some (create_agent_run_state (codes "r") (codes "s") (codes "m"));
          elapsed_ms = none;
        }
        ∷ [];
    active_message_id = codes "a";
  };
  error = [];
  active_run_id = codes "r";
  pending_events = [];
  flush_scheduled = false;
  storage = [];
  located = [];
}

run_steps-delivers_example :
    runs (flush_events (run_steps steps reading))
    ≡ map
        (deliver_to
          (codes "a")
          (delta_of 1 (codes "a") ∷ delta_of 3 (codes "c") ∷ delta_of 2 (codes "b") ∷ []))
        (runs reading)
unfolding tick flush_events queue_events drained update_message text_eq create_agent_run_state
    should_release_active_message drain_streaming_text starts_with set_active_message_id
run_steps-delivers_example = run_steps-delivers steps reading refl
