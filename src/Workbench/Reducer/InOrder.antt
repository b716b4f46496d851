-- ===== src/Workbench/Reducer/InOrder.antt =====
-- Events that arrive in order (stream-reducer.ts): each is applied at once.
use wind_solar_ess_agent.Base.{
  ℕ, ◌+◌, ◌≡◌, refl, ◌∙◌, ap, true, false, List, [], ◌∷◌, arith, ◌==◌, leb, length, Bool-cases, inl,
  inr,
}
use wind_solar_ess_agent.Workbench.Contracts.{AgentStreamEventType, AgentStreamEvent, AgentRunState}
use wind_solar_ess_agent.Workbench.Reducer.{
  is_terminal_status, pending_event, delete_pending, apply_typed, apply_agent_stream_event, enqueue,
  enqueue_all, commit_pending, commit_ready, reduce_agent_stream_events,
}
use wind_solar_ess_agent.Workbench.Reducer.Commit.{with_queue, commit_next_lem, apply-with_queue}
use wind_solar_ess_agent.Workbench.Reducer.Batches.{reduce-append}

-- The events are numbered one by one from the number behind `n`.
abbrev pub IsNumbered : ℕ → List AgentStreamEvent → Type 0
IsNumbered n [] = Unit
IsNumbered n (e ∷ es) = (e.sequence ≡ n + 1) × IsNumbered (n + 1) es

enqueue-next :
    (s : AgentRunState) (last : ℕ) (e : AgentStreamEvent)
    → e.sequence ≡ last + 1
    → enqueue (with_queue s last []) e ≡ with_queue s last ((e.sequence, e) ∷ [])
unfolding enqueue pending_event
enqueue-next s last e h = let fresh : leb e.sequence last ≡ false = ground arith in rw fresh

delete_pending-next :
    (k n : ℕ) (e : AgentStreamEvent) → (k == n) ≡ true → delete_pending n ((k, e) ∷ []) ≡ []
unfolding delete_pending
delete_pending-next k n e h = rw h

reduce-none :
    (s : AgentRunState) (last : ℕ)
    → reduce_agent_stream_events (with_queue s last []) [] ≡ with_queue s last []
unfolding reduce_agent_stream_events enqueue_all commit_ready commit_pending
reduce-none s last = refl

commit_ready-next :
    (s : AgentRunState) (last : ℕ) (e : AgentStreamEvent)
    → e.sequence ≡ last + 1
    → commit_ready (with_queue s last ((e.sequence, e) ∷ []))
      ≡ with_queue (apply_agent_stream_event s e) (last + 1) []
unfolding commit_ready commit_pending pending_event
commit_ready-next s last e h =
    let same : (e.sequence == last + 1) ≡ true = ground arith in
    let table = (e.sequence, e) ∷ [] in
    rw (commit_ready, commit_pending, same)
      (commit_next_lem (with_queue s last table) e
        ∙ ap (λ (r : AgentRunState). with_queue r (last + 1) (delete_pending (last + 1) table))
            (apply-with_queue s e last table)
        ∙ ap (with_queue (apply_agent_stream_event s e) (last + 1))
            (delete_pending-next (e.sequence) (last + 1) e same))

reduce-next :
    (s : AgentRunState) (last : ℕ) (e : AgentStreamEvent)
    → e.sequence ≡ last + 1
    → reduce_agent_stream_events (with_queue s last []) (e ∷ [])
      ≡ with_queue (apply_agent_stream_event s e) (last + 1) []
unfolding reduce_agent_stream_events enqueue_all
reduce-next s last e h = ap commit_ready (enqueue-next s last e h) ∙ commit_ready-next s last e h

-- The events, applied one after the other.
abbrev pub apply_all : AgentRunState → List AgentStreamEvent → AgentRunState
apply_all s [] = s
apply_all s (e ∷ es) = apply_all (apply_agent_stream_event s e) es

-- If nothing waits, and the events are numbered one by one from the number behind the cursor, then
-- each is applied, the cursor stands at the last, and nothing waits.
pub reduce-IsNumbered :
    (s : AgentRunState) (last : ℕ) (es : List AgentStreamEvent)
    → IsNumbered last es
    → reduce_agent_stream_events (with_queue s last []) es
      ≡ with_queue (apply_all s es) (last + length es) []
reduce-IsNumbered s last [] h = reduce-none s last ∙ ap (λ n. with_queue s n []) (omega arith)
reduce-IsNumbered s last (e ∷ es) (p, h) =
    reduce-append (with_queue s last []) (e ∷ []) es
    ∙ ap (λ (r : AgentRunState). reduce_agent_stream_events r es) (reduce-next s last e p)
    ∙ reduce-IsNumbered (apply_agent_stream_event s e) (last + 1) es h
    ∙ ap (λ n. with_queue (apply_all (apply_agent_stream_event s e) es) n []) (omega arith)

-- An error ends a run.
pub apply-error :
    (s : AgentRunState) (e : AgentStreamEvent)
    → e.type ≡ AgentStreamEventType.error
    → is_terminal_status (apply_agent_stream_event s e).status ≡ true
unfolding apply_agent_stream_event apply_typed
apply-error s e h = rw h (elim (Bool-cases (is_terminal_status s.status)) [
  | inl ended ↦ rw ended ended
  | inr running ↦ rw running refl
])
