-- ===== src/Workbench/Reducer/Commit.antt =====
-- The two loops of `reduceAgentStreamEvents`: the second one ends by its own test, and it does not
-- matter how the network cuts the events into batches.
use wind_solar_ess_agent.Base.{
  ℕ, zero, suc, ◌+◌, ◌≤◌, ◌<◌, ◌≡◌, refl, sym, ◌∙◌, ap, inl, inr, Option, none, some, List, [], ◌∷◌,
  arith, length, Option-cases, All,
}
use wind_solar_ess_agent.Workbench.Contracts.{AgentStreamEventType, AgentStreamEvent, AgentRunState}
use wind_solar_ess_agent.Workbench.Reducer.{
  pending_event, delete_pending, apply_execution, apply_typed, apply_agent_stream_event, enqueue,
  enqueue_all, commit_next, commit_pending, commit_ready, reduce_agent_stream_events,
}
use wind_solar_ess_agent.Workbench.Reducer.Pending.{Table, length-delete_pending}

-- The state with another cursor and table.
abbrev pub with_queue : AgentRunState → ℕ → Table → AgentRunState
with_queue s last table = record s { last_sequence = last; pending_events = table }

-- An event is applied without a look at the cursor and the table, and leaves them as they are.
apply_typed-with_queue :
    (t : AgentStreamEventType) (s : AgentRunState) (e : AgentStreamEvent) (last : ℕ) (table : Table)
    → apply_typed t (with_queue s last table) e ≡ with_queue (apply_typed t s e) last table
unfolding apply_typed apply_execution
apply_typed-with_queue AgentStreamEventType.response_delta s e last table = ground arith
apply_typed-with_queue AgentStreamEventType.response_started s e last table = ground arith
apply_typed-with_queue AgentStreamEventType.response_completed s e last table = ground arith
apply_typed-with_queue AgentStreamEventType.run_completed s e last table = ground arith
apply_typed-with_queue AgentStreamEventType.run_cancelled s e last table = ground arith
apply_typed-with_queue AgentStreamEventType.error s e last table = ground arith
apply_typed-with_queue AgentStreamEventType.run_started s e last table = ground arith
apply_typed-with_queue AgentStreamEventType.heartbeat s e last table = refl
apply_typed-with_queue AgentStreamEventType.scene_action s e last table = refl
apply_typed-with_queue _ s e last table = refl

pub apply-with_queue :
    (s : AgentRunState) (e : AgentStreamEvent) (last : ℕ) (table : Table)
    → apply_agent_stream_event (with_queue s last table) e
      ≡ with_queue (apply_agent_stream_event s e) last table
unfolding apply_agent_stream_event
apply-with_queue s e last table = apply_typed-with_queue e.type s e last table

-- What a round of the second loop does to the state.
pub commit_next_lem :
    (s : AgentRunState) (e : AgentStreamEvent)
    → commit_next s e
      ≡ with_queue
          (apply_agent_stream_event s e)
          (s.last_sequence + 1)
          (delete_pending (s.last_sequence + 1) s.pending_events)
unfolding commit_next
commit_next_lem s e =
    ap (λ (r : AgentRunState). record r { last_sequence = s.last_sequence + 1 })
      (apply-with_queue s e s.last_sequence (delete_pending (s.last_sequence + 1) s.pending_events))

-- The event that is next in sequence, if it has arrived.
abbrev pub next_pending : AgentRunState → Option AgentStreamEvent
next_pending s = pending_event (s.last_sequence + 1) s.pending_events

last_sequence-commit_next :
    (s : AgentRunState) (e : AgentStreamEvent)
    → (commit_next s e).last_sequence ≡ s.last_sequence + 1
last_sequence-commit_next s e = ap (λ (r : AgentRunState). r.last_sequence) (commit_next_lem s e)

pending_events-commit_next :
    (s : AgentRunState) (e : AgentStreamEvent)
    → (commit_next s e).pending_events ≡ delete_pending (s.last_sequence + 1) s.pending_events
pending_events-commit_next s e = ap (λ (r : AgentRunState). r.pending_events) (commit_next_lem s e)

length-commit_next :
    (s : AgentRunState) (e : AgentStreamEvent)
    → next_pending s ≡ some e
    → length (commit_next s e).pending_events < length s.pending_events
length-commit_next s e h =
    rw (pending_events-commit_next s e)
      (length-delete_pending (s.last_sequence + 1) s.pending_events e h)

pub commit_pending-none :
    (fuel : ℕ) (s : AgentRunState) → next_pending s ≡ none → commit_pending fuel s ≡ s
unfolding commit_pending
commit_pending-none zero s h = refl
commit_pending-none (suc fuel) s h = rw (h, commit_pending)

pub commit_pending-some :
    (fuel : ℕ) (s : AgentRunState) (e : AgentStreamEvent)
    → next_pending s ≡ some e
    → commit_pending (suc fuel) s ≡ commit_pending fuel (commit_next s e)
unfolding commit_pending
commit_pending-some fuel s e h = rw (h, commit_pending)

-- An empty table has nothing to commit.
next_pending-empty : (s : AgentRunState) → length s.pending_events ≤ 0 → next_pending s ≡ none
next_pending-empty s h = empty s.pending_events h
  where
    empty : (table : Table) → length table ≤ 0 → pending_event (s.last_sequence + 1) table ≡ none
    empty [] h = unfold pending_event in refl
    empty (p ∷ rest) h = absurd (omega arith)

-- With fuel for each entry the loop ends by its own test.
commit_pending_ends :
    (fuel : ℕ) (s : AgentRunState)
    → length s.pending_events ≤ fuel
    → next_pending (commit_pending fuel s) ≡ none
commit_pending_ends zero s h =
    rw (commit_pending-none zero s (next_pending-empty s h)) (next_pending-empty s h)
commit_pending_ends (suc fuel) s h = elim (Option-cases (next_pending s)) [
  | inl done ↦ rw (commit_pending-none (suc fuel) s done) done
  | inr (e, more) ↦
      rw (commit_pending-some fuel s e more)
        (commit_pending_ends fuel (commit_next s e) (omega (arith, length-commit_next s e more)))
]

-- More fuel makes no difference.
commit_pending_stable :
    (f g : ℕ) (s : AgentRunState)
    → length s.pending_events ≤ f
    → length s.pending_events ≤ g
    → commit_pending f s ≡ commit_pending g s
commit_pending_stable zero g s h k =
    commit_pending-none zero s (next_pending-empty s h)
    ∙ sym (commit_pending-none g s (next_pending-empty s h))
commit_pending_stable (suc f) zero s h k =
    commit_pending-none (suc f) s (next_pending-empty s k)
    ∙ sym (commit_pending-none zero s (next_pending-empty s k))
commit_pending_stable (suc f) (suc g) s h k = elim (Option-cases (next_pending s)) [
  | inl done ↦ commit_pending-none (suc f) s done ∙ sym (commit_pending-none (suc g) s done)
  | inr (e, more) ↦
      commit_pending-some f s e more
      ∙ commit_pending_stable f g (commit_next s e) (omega (arith, length-commit_next s e more))
          (omega (arith, length-commit_next s e more))
      ∙ sym (commit_pending-some g s e more)
]

-- The loop without its fuel: it stops, or commits an event and goes on.
pub commit_ready-none : (s : AgentRunState) → next_pending s ≡ none → commit_ready s ≡ s
unfolding commit_ready
commit_ready-none s h = commit_pending-none _ s h

pub commit_ready-some :
    (s : AgentRunState) (e : AgentStreamEvent)
    → next_pending s ≡ some e
    → commit_ready s ≡ commit_ready (commit_next s e)
unfolding commit_ready
commit_ready-some s e h =
    commit_pending_stable _ (suc (length s.pending_events)) s (omega arith) (omega arith)
    ∙ commit_pending-some _ s e h
    ∙ commit_pending_stable _ _ (commit_next s e) (omega (arith, length-commit_next s e h))
        (omega arith)

-- After a batch the event behind the cursor does not wait: the second loop ended by its own test.
pub next_pending-reduce :
    (s : AgentRunState) (incoming : List AgentStreamEvent)
    → next_pending (reduce_agent_stream_events s incoming) ≡ none
unfolding reduce_agent_stream_events commit_ready
next_pending-reduce s incoming = commit_pending_ends _ (enqueue_all s incoming) (omega arith)

-- A rule for `commit_ready`: what every commit of a waiting event keeps, the loop keeps.
pub commit_pending_inv {ℓ} :
    (P : AgentRunState → Type ℓ)
    → ((s : AgentRunState) (e : AgentStreamEvent)
        → next_pending s ≡ some e
        → P s
        → P (commit_next s e))
    → (fuel : ℕ) (s : AgentRunState) → P s
    → P (commit_pending fuel s)
commit_pending_inv P keep zero s p = unfold commit_pending in p
commit_pending_inv P keep (suc fuel) s p = elim (Option-cases (next_pending s)) [
  | inl done ↦ rw (commit_pending-none (suc fuel) s done) p
  | inr (e, more) ↦
      rw (commit_pending-some fuel s e more)
        (commit_pending_inv P keep fuel (commit_next s e) (keep s e more p))
]

enqueue_all_inv {ℓ} :
    (P : AgentRunState → Type ℓ) (Q : AgentStreamEvent → Type ℓ)
    → ((s : AgentRunState) (e : AgentStreamEvent) → Q e → P s → P (enqueue s e))
    → (incoming : List AgentStreamEvent) (s : AgentRunState) → All Q incoming
    → P s
    → P (enqueue_all s incoming)
unfolding enqueue_all
enqueue_all_inv P Q keep [] s q p = p
enqueue_all_inv P Q keep (e ∷ incoming) s (h, q) p =
    enqueue_all_inv P Q keep incoming (enqueue s e) q (keep s e h p)

-- The invariant rule of the reducer, with a condition `Q` on the events that arrive.
pub reduce_inv {ℓ} :
    (P : AgentRunState → Type ℓ) (Q : AgentStreamEvent → Type ℓ)
    → ((s : AgentRunState) (e : AgentStreamEvent) → Q e → P s → P (enqueue s e))
    → ((s : AgentRunState) (e : AgentStreamEvent)
        → next_pending s ≡ some e
        → P s
        → P (commit_next s e))
    → (s : AgentRunState) (incoming : List AgentStreamEvent) → All Q incoming
    → P s
    → P (reduce_agent_stream_events s incoming)
unfolding reduce_agent_stream_events commit_ready
reduce_inv P Q arrive commit s incoming q p =
    commit_pending_inv P commit _ (enqueue_all s incoming)
      (enqueue_all_inv P Q arrive incoming s q p)
