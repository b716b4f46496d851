-- ===== src/Workbench/Reducer/Steps.antt =====
-- The execution steps of a run (`upsertExecutionEvent` of stream-reducer.ts).
use wind_solar_ess_agent.Base.{
  ℕ, ◌≡◌, refl, sym, ◌∙◌, ap, inl, inr, Bool, false, List, [], ◌∷◌, ◌++◌, arith, map, if◌then◌else◌,
  Bool-cases, any, append-nil, append_assoc,
}
use wind_solar_ess_agent.Js.Text.{Text, text_eq, text_eq→eq, text_eq-false_sym}
use wind_solar_ess_agent.Workbench.Contracts.{
  AgentStreamEventType, AgentStreamEvent, AgentExecutionEvent, AgentRunState,
}
use wind_solar_ess_agent.Workbench.Reducer.{
  upsert_execution_event, project_execution_event, apply_execution, apply_typed,
  apply_agent_stream_event, commit_next, reduce_agent_stream_events,
}
use wind_solar_ess_agent.Workbench.Reducer.Commit.{with_queue, commit_next_lem, reduce_inv}
use wind_solar_ess_agent.Workbench.Reducer.Pending.{Table}
use wind_solar_ess_agent.Workbench.Reducer.Batches.{enqueue_lem}
use wind_solar_ess_agent.Workbench.Reducer.Valid.{AnyEvent, All-AnyEvent}

-- A step of this id is in the list.
abbrev has_step : Text → List AgentExecutionEvent → Bool
has_step id steps = any (λ step. text_eq step.step_id id) steps

-- No two steps have one id.
abbrev pub DistinctSteps : List AgentExecutionEvent → Type 0
DistinctSteps [] = Unit
DistinctSteps (step ∷ steps) = (has_step step.step_id steps ≡ false) × DistinctSteps steps

has_step-upsert :
    (id : Text) (steps : List AgentExecutionEvent) (e : AgentExecutionEvent)
    → text_eq e.step_id id ≡ false
    → has_step id (upsert_execution_event steps e) ≡ has_step id steps
unfolding upsert_execution_event
has_step-upsert id [] e h = rw h
has_step-upsert id (step ∷ steps) e h = elim (Bool-cases (text_eq step.step_id e.step_id)) [
  | inl same ↦ let at_e : step.step_id ≡ e.step_id = text_eq→eq _ _ same in rw same (rw at_e (rw h))
  | inr other ↦ rw other (rw (has_step-upsert id steps e h))
]

upsert-DistinctSteps :
    (steps : List AgentExecutionEvent) (e : AgentExecutionEvent)
    → DistinctSteps steps
    → DistinctSteps (upsert_execution_event steps e)
unfolding upsert_execution_event
upsert-DistinctSteps [] e d = (refl, tt)
upsert-DistinctSteps (step ∷ steps) e (new, d) =
    elim (Bool-cases (text_eq step.step_id e.step_id)) [
      | inl same ↦ rw same (rw (text_eq→eq _ _ same) at new, d)
      | inr other ↦
          let other' : text_eq e.step_id step.step_id ≡ false = text_eq-false_sym _ _ other in
          rw other
            (has_step-upsert step.step_id steps e other' ∙ new, upsert-DistinctSteps steps e d)
    ]

-- The ids of the steps, in their order.
abbrev pub step_ids : List AgentExecutionEvent → List Text
step_ids steps = map (λ step. step.step_id) steps

-- An upsert keeps the order of the steps, and adds the id at the end if it is new.
step_ids-upsert :
    (steps : List AgentExecutionEvent) (e : AgentExecutionEvent)
    → step_ids (upsert_execution_event steps e)
      ≡ step_ids steps ++ (if has_step e.step_id steps then [] else e.step_id ∷ [])
unfolding upsert_execution_event
step_ids-upsert [] e = refl
step_ids-upsert (step ∷ steps) e = elim (Bool-cases (text_eq step.step_id e.step_id)) [
  | inl same ↦ rw same (rw (append-nil, text_eq→eq _ _ same))
  | inr other ↦ rw other (ap (step.step_id ∷◌) (step_ids-upsert steps e))
]

-- The steps of a state after an event: as they were, or with an upsert.
data Stepped (s : AgentRunState) : AgentRunState → Type 0 where
  same : {r : AgentRunState} → r.execution.events ≡ s.execution.events → Stepped s r
  upserted :
      {r : AgentRunState} (e : AgentExecutionEvent)
      → r.execution.events ≡ upsert_execution_event s.execution.events e
      → Stepped s r

apply_typed-Stepped :
    (t : AgentStreamEventType) (s : AgentRunState) (e : AgentStreamEvent)
    → Stepped s (apply_typed t s e)
unfolding apply_typed
apply_typed-Stepped AgentStreamEventType.response_delta s e = same (ground arith)
apply_typed-Stepped AgentStreamEventType.response_started s e = same (ground arith)
apply_typed-Stepped AgentStreamEventType.response_completed s e = same (ground arith)
apply_typed-Stepped AgentStreamEventType.run_completed s e = same (ground arith)
apply_typed-Stepped AgentStreamEventType.run_cancelled s e = same (ground arith)
apply_typed-Stepped AgentStreamEventType.error s e = same (ground arith)
apply_typed-Stepped AgentStreamEventType.run_started s e = same (ground arith)
apply_typed-Stepped AgentStreamEventType.heartbeat s e = same refl
apply_typed-Stepped AgentStreamEventType.scene_action s e = same refl
apply_typed-Stepped t s e = unfold apply_execution in upserted (project_execution_event e) refl

Stepped-with_queue :
    {s r : AgentRunState} (last : ℕ) (table : Table)
    → Stepped s r
    → Stepped s (with_queue r last table)
Stepped-with_queue last table (same p) = same p
Stepped-with_queue last table (upserted e p) = upserted e p

apply-Stepped :
    (s : AgentRunState) (e : AgentStreamEvent) → Stepped s (apply_agent_stream_event s e)
unfolding apply_agent_stream_event
apply-Stepped s e = apply_typed-Stepped e.type s e

-- What a commit does to the steps.
commit_next-Stepped : (s : AgentRunState) (e : AgentStreamEvent) → Stepped s (commit_next s e)
commit_next-Stepped s e = rw (commit_next_lem s e) (Stepped-with_queue _ _ (apply-Stepped s e))

DistinctSteps-Stepped :
    {s r : AgentRunState}
    → Stepped s r
    → DistinctSteps s.execution.events
    → DistinctSteps r.execution.events
DistinctSteps-Stepped (same p) d = rw p d
DistinctSteps-Stepped (upserted e p) d = rw p (upsert-DistinctSteps _ e d)

-- The reducer keeps the ids of the execution steps distinct.
reduce-DistinctSteps :
    (s : AgentRunState) (incoming : List AgentStreamEvent)
    → DistinctSteps s.execution.events
    → DistinctSteps (reduce_agent_stream_events s incoming).execution.events
reduce-DistinctSteps s incoming d =
    reduce_inv (λ r. DistinctSteps r.execution.events) AnyEvent (λ r e _ h. rw (enqueue_lem r e) h)
      (λ r e _ h. DistinctSteps-Stepped (commit_next-Stepped r e) h) s incoming
      (All-AnyEvent incoming) d

-- The steps of `r` are those of `s`, in their order, and perhaps more behind them.
abbrev pub ExtendsSteps : AgentRunState → AgentRunState → Type 0
ExtendsSteps s r =
    (added : List Text) × (step_ids r.execution.events ≡ step_ids s.execution.events ++ added)

ExtendsSteps-Stepped :
    (q : AgentRunState) {s r : AgentRunState} → Stepped s r → ExtendsSteps q s → ExtendsSteps q r
ExtendsSteps-Stepped q (same p) (added, h) = (added, ap step_ids p ∙ h)
ExtendsSteps-Stepped q {s} (upserted e p) (added, h) =
    let more = if has_step e.step_id s.execution.events then [] else e.step_id ∷ [] in
    (
      added ++ more,
      ap step_ids p
          ∙ step_ids-upsert s.execution.events e
          ∙ ap (λ (ids : List Text). ids ++ more) h
          ∙ append_assoc (step_ids q.execution.events) added more,
    )

-- The steps that are shown are never reordered nor removed: later steps come behind them.
reduce-ExtendsSteps :
    (s : AgentRunState) (incoming : List AgentStreamEvent)
    → ExtendsSteps s (reduce_agent_stream_events s incoming)
reduce-ExtendsSteps s incoming =
    reduce_inv (ExtendsSteps s) AnyEvent (λ r e _ h. rw (enqueue_lem r e) h)
      (λ r e _ h. ExtendsSteps-Stepped s (commit_next-Stepped r e) h) s incoming
      (All-AnyEvent incoming) ([], sym (append-nil _))
