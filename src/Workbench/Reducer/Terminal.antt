-- ===== src/Workbench/Reducer/Terminal.antt =====
-- The end of a run in stream-reducer.ts: what late events may still change.
use wind_solar_ess_agent.Base.{ℕ, ◌≡◌, refl, ◌∙◌, inl, inr, true, false, List, arith, Bool-cases}
use wind_solar_ess_agent.Js.Text.{Text}
use wind_solar_ess_agent.Workbench.Contracts.{
  AgentRunStatus, AgentStreamEventType, AgentStreamEvent, AgentRunState,
}
use wind_solar_ess_agent.Workbench.Reducer.{
  is_terminal_status, is_completed_status, status_from_execution, apply_execution, apply_typed,
  apply_agent_stream_event, reduce_agent_stream_events,
}
use wind_solar_ess_agent.Workbench.Reducer.Commit.{with_queue, commit_next_lem, reduce_inv}
use wind_solar_ess_agent.Workbench.Reducer.Pending.{Table}
use wind_solar_ess_agent.Workbench.Reducer.Batches.{enqueue_table, enqueue_lem}
use wind_solar_ess_agent.Workbench.Reducer.Valid.{AnyEvent, All-AnyEvent}

-- What an ended run `s` and a later state `r` of it have in common.
pub record Ended (s r : AgentRunState) : Type 0 where
  pub status : r.status ≡ s.status
  pub completed_at : r.completed_at ≡ s.completed_at
  pub error_message : r.error_message ≡ s.error_message
  pub text : is_completed_status s.status ≡ false → r.received_text ≡ s.received_text
  pub response : is_completed_status s.status ≡ false → r.response_completed ≡ s.response_completed

Ended-refl : (s : AgentRunState) → Ended s s
Ended-refl s = record {
  status = refl;
  completed_at = refl;
  error_message = refl;
  text = λ _. refl;
  response = λ _. refl;
}

status_from_execution-terminal :
    (t : Text) (current : AgentRunStatus)
    → is_terminal_status current ≡ true
    → status_from_execution t current ≡ current
unfolding status_from_execution
status_from_execution-terminal t current h = rw h

apply_typed-Ended :
    (t : AgentStreamEventType) (s : AgentRunState) (e : AgentStreamEvent)
    → is_terminal_status s.status ≡ true
    → Ended s (apply_typed t s e)
unfolding apply_typed
apply_typed-Ended AgentStreamEventType.response_delta s e h = rw h (Ended-refl s)
apply_typed-Ended AgentStreamEventType.response_started s e h = rw h (Ended-refl s)
apply_typed-Ended AgentStreamEventType.response_completed s e h =
    elim (Bool-cases (is_completed_status s.status)) [
      | inl ok ↦
          rw (h, ok)
            (record {
              status = refl;
              completed_at = refl;
              error_message = refl;
              text = λ failed. cc;
              response = λ failed. cc;
            })
      | inr failed ↦ rw (h, failed) (Ended-refl s)
    ]
apply_typed-Ended AgentStreamEventType.run_completed s e h = rw h (Ended-refl s)
apply_typed-Ended AgentStreamEventType.run_cancelled s e h = rw h (Ended-refl s)
apply_typed-Ended AgentStreamEventType.error s e h = rw h (Ended-refl s)
apply_typed-Ended AgentStreamEventType.run_started s e h = rw h (Ended-refl s)
apply_typed-Ended AgentStreamEventType.heartbeat s e h = Ended-refl s
apply_typed-Ended AgentStreamEventType.scene_action s e h = Ended-refl s
apply_typed-Ended t s e h =
    unfold apply_execution in
    record {
      status = status_from_execution-terminal _ s.status h;
      completed_at = refl;
      error_message = refl;
      text = λ _. refl;
      response = λ _. refl;
    }

Ended-trans : {s r q : AgentRunState} → Ended s r → Ended r q → Ended s q
Ended-trans v w = record {
  status = w.status ∙ v.status;
  completed_at = w.completed_at ∙ v.completed_at;
  error_message = w.error_message ∙ v.error_message;
  text = λ failed. w.text (rw v.status failed) ∙ v.text failed;
  response = λ failed. w.response (rw v.status failed) ∙ v.response failed;
}

Ended-with_queue :
    {s r : AgentRunState} (last : ℕ) (table : Table) → Ended s r → Ended s (with_queue r last table)
Ended-with_queue last table v = record {
  status = v.status;
  completed_at = v.completed_at;
  error_message = v.error_message;
  text = v.text;
  response = v.response;
}

apply-Ended :
    (s : AgentRunState) (e : AgentStreamEvent)
    → is_terminal_status s.status ≡ true
    → Ended s (apply_agent_stream_event s e)
unfolding apply_agent_stream_event
apply-Ended s e h = apply_typed-Ended e.type s e h

-- Whatever arrives after the end of a run, its status, its completion time and its error message
-- stay; if it did not end as completed, so do its text and the flag that the response is complete.
pub reduce-Ended :
    (s : AgentRunState) (incoming : List AgentStreamEvent)
    → is_terminal_status s.status ≡ true
    → Ended s (reduce_agent_stream_events s incoming)
reduce-Ended s incoming h =
    reduce_inv (Ended s) AnyEvent
      (λ r e _ v.
        rw (enqueue_lem r e)
          (Ended-with_queue r.last_sequence (enqueue_table r.last_sequence r.pending_events e) v))
      (λ r e _ v.
        rw (commit_next_lem r e)
          (Ended-with_queue _ _ (Ended-trans v (apply-Ended r e (rw v.status h)))))
      s incoming (All-AnyEvent incoming) (Ended-refl s)

-- An ended run has a complete response: the condition under which the workbench lets go of it.
abbrev pub IsSettled : AgentRunState → Type 0
IsSettled s = is_terminal_status s.status ≡ true → s.response_completed ≡ true

status_from_execution-running :
    (t : Text) (current : AgentRunStatus)
    → is_terminal_status (status_from_execution t current) ≡ true
    → is_terminal_status current ≡ true
unfolding status_from_execution
status_from_execution-running t current h = ground arith

apply_typed-IsSettled :
    (t : AgentStreamEventType) (s : AgentRunState) (e : AgentStreamEvent)
    → IsSettled s
    → IsSettled (apply_typed t s e)
unfolding apply_typed
apply_typed-IsSettled AgentStreamEventType.response_delta s e v = ground arith
apply_typed-IsSettled AgentStreamEventType.response_started s e v = ground arith
apply_typed-IsSettled AgentStreamEventType.response_completed s e v = ground arith
apply_typed-IsSettled AgentStreamEventType.run_completed s e v = ground arith
apply_typed-IsSettled AgentStreamEventType.run_cancelled s e v = ground arith
apply_typed-IsSettled AgentStreamEventType.error s e v = ground arith
apply_typed-IsSettled AgentStreamEventType.run_started s e v = ground arith
apply_typed-IsSettled AgentStreamEventType.heartbeat s e v = v
apply_typed-IsSettled AgentStreamEventType.scene_action s e v = v
apply_typed-IsSettled t s e v =
    unfold apply_execution in λ h. v (status_from_execution-running _ s.status h)

-- The reducer keeps it so that every ended run has a complete response.
reduce-IsSettled :
    (s : AgentRunState) (incoming : List AgentStreamEvent)
    → IsSettled s
    → IsSettled (reduce_agent_stream_events s incoming)
reduce-IsSettled s incoming v =
    reduce_inv IsSettled AnyEvent (λ r e _ w. rw (enqueue_lem r e) w)
      (λ r e _ w.
        rw (commit_next_lem r e)
          (unfold apply_agent_stream_event in apply_typed-IsSettled e.type r e w))
      s incoming (All-AnyEvent incoming) v
