-- ===== src/Workbench/Reducer/Batches.antt =====
-- How the events are cut into batches does not matter, and a batch that arrives again changes
-- nothing (stream-reducer.ts, both loops of `reduceAgentStreamEvents`).
use wind_solar_ess_agent.Base.{
  ℕ, zero, suc, ◌+◌, ◌≡◌, refl, sym, ◌∙◌, ap, inl, inr, Bool, true, ◌||◌, none, some, List, [], ◌∷◌,
  ◌++◌, arith, leb, if◌then◌else◌, Bool-cases, Option-cases, All, All-map,
}
use wind_solar_ess_agent.Workbench.Contracts.{AgentStreamEvent, AgentRunState}
use wind_solar_ess_agent.Workbench.Reducer.{
  pending_event, delete_pending, is_some, apply_agent_stream_event, enqueue, enqueue_all,
  commit_next, commit_pending, commit_ready, reduce_agent_stream_events,
}
use wind_solar_ess_agent.Workbench.Reducer.Pending.{Table, pending_event-delete_pending}
use wind_solar_ess_agent.Workbench.Reducer.Commit.{
  with_queue, apply-with_queue, commit_next_lem, commit_pending-none, commit_pending-some,
  next_pending, commit_ready-none, commit_ready-some, next_pending-reduce, commit_pending_inv,
}

-- The test of the first loop: the sequence number was committed, or its event waits.
abbrev pub is_known : AgentRunState → ℕ → Bool
is_known s n = leb n s.last_sequence || is_some (pending_event n s.pending_events)

-- What the first loop does to the table.
abbrev pub enqueue_table : ℕ → Table → AgentStreamEvent → Table
enqueue_table last table f =
    if leb f.sequence last || is_some (pending_event f.sequence table)
    then table
    else (f.sequence, f) ∷ table

pub enqueue_lem :
    (s : AgentRunState) (f : AgentStreamEvent)
    → enqueue s f ≡ with_queue s s.last_sequence (enqueue_table s.last_sequence s.pending_events f)
unfolding enqueue
enqueue_lem s f = elim (Bool-cases (is_known s f.sequence)) [ inl old ↦ rw old | inr new ↦ rw new ]

enqueue_table-delete_pending :
    (n : ℕ) (table : Table) (e f : AgentStreamEvent)
    → pending_event (n + 1) table ≡ some e
    → enqueue_table (n + 1) (delete_pending (n + 1) table) f
      ≡ delete_pending (n + 1) (enqueue_table n table f)
unfolding delete_pending
enqueue_table-delete_pending n table e f h =
    ground (arith, pending_event-delete_pending (n + 1) f.sequence table)

-- A commit and an arrival may be exchanged.
enqueue-commit_next :
    (s : AgentRunState) (e f : AgentStreamEvent)
    → next_pending s ≡ some e
    → enqueue (commit_next s e) f ≡ commit_next (enqueue s f) e
enqueue-commit_next s e f h =
    let n = s.last_sequence in
    let table = s.pending_events in
    let table' = enqueue_table n table f in
    let applied = apply_agent_stream_event s e in
    ap (λ (r : AgentRunState). enqueue r f) (commit_next_lem s e)
    ∙ enqueue_lem (with_queue applied (n + 1) (delete_pending (n + 1) table)) f
    ∙ ap (with_queue applied (n + 1)) (enqueue_table-delete_pending n table e f h)
    ∙ sym (
        ap (λ (r : AgentRunState). with_queue r (n + 1) (delete_pending (n + 1) table'))
          (apply-with_queue s e n table'))
    ∙ sym (commit_next_lem (with_queue s n table') e)
    ∙ sym (ap (λ (r : AgentRunState). commit_next r e) (enqueue_lem s f))

-- What waits goes on waiting when another event arrives.
next_pending-enqueue :
    (s : AgentRunState) (e f : AgentStreamEvent)
    → next_pending s ≡ some e
    → next_pending (enqueue s f) ≡ some e
unfolding enqueue pending_event
next_pending-enqueue s e f h = elim (Bool-cases (is_known s f.sequence)) [
  | inl old ↦ rw old h
  | inr new ↦ rw new (ground arith)
]

enqueue_all-commit_next :
    (incoming : List AgentStreamEvent) (s : AgentRunState) (e : AgentStreamEvent)
    → next_pending s ≡ some e
    → enqueue_all (commit_next s e) incoming ≡ commit_next (enqueue_all s incoming) e
unfolding enqueue_all
enqueue_all-commit_next [] s e h = refl
enqueue_all-commit_next (f ∷ incoming) s e h =
    ap (λ (r : AgentRunState). enqueue_all r incoming) (enqueue-commit_next s e f h)
    ∙ enqueue_all-commit_next incoming (enqueue s f) e (next_pending-enqueue s e f h)

next_pending-enqueue_all :
    (incoming : List AgentStreamEvent) (s : AgentRunState) (e : AgentStreamEvent)
    → next_pending s ≡ some e
    → next_pending (enqueue_all s incoming) ≡ some e
unfolding enqueue_all
next_pending-enqueue_all [] s e h = h
next_pending-enqueue_all (f ∷ incoming) s e h =
    next_pending-enqueue_all incoming (enqueue s f) e (next_pending-enqueue s e f h)

enqueue_all-append :
    (xs ys : List AgentStreamEvent) (s : AgentRunState)
    → enqueue_all s (xs ++ ys) ≡ enqueue_all (enqueue_all s xs) ys
unfolding enqueue_all
enqueue_all-append [] ys s = refl
enqueue_all-append (x ∷ xs) ys s = enqueue_all-append xs ys (enqueue s x)

-- To commit first what is ready changes nothing for the events that arrive later.
commit_ready-enqueue_all :
    (fuel : ℕ) (s : AgentRunState) (incoming : List AgentStreamEvent)
    → commit_ready (enqueue_all (commit_pending fuel s) incoming)
      ≡ commit_ready (enqueue_all s incoming)
commit_ready-enqueue_all zero s incoming = unfold commit_pending in refl
commit_ready-enqueue_all (suc fuel) s incoming = elim (Option-cases (next_pending s)) [
  | inl done ↦ rw (commit_pending-none (suc fuel) s done)
  | inr (e, more) ↦ rw (commit_pending-some fuel s e more) (
      commit_ready-enqueue_all fuel (commit_next s e) incoming
      ∙ ap commit_ready (enqueue_all-commit_next incoming s e more)
      ∙ sym (
          commit_ready-some (enqueue_all s incoming) e
            (next_pending-enqueue_all incoming s e more)))
]

-- Two batches give the state that one batch of all their events gives.
pub reduce-append :
    (s : AgentRunState) (xs ys : List AgentStreamEvent)
    → reduce_agent_stream_events s (xs ++ ys)
      ≡ reduce_agent_stream_events (reduce_agent_stream_events s xs) ys
unfolding reduce_agent_stream_events
reduce-append s xs ys =
    ap commit_ready (enqueue_all-append xs ys s)
    ∙ sym (unfold commit_ready in commit_ready-enqueue_all _ (enqueue_all s xs) ys)

is_known-enqueue_self :
    (s : AgentRunState) (e : AgentStreamEvent) → is_known (enqueue s e) e.sequence ≡ true
unfolding enqueue pending_event
is_known-enqueue_self s e = ground arith

is_known-enqueue :
    (n : ℕ) (s : AgentRunState) (e : AgentStreamEvent)
    → is_known s n ≡ true
    → is_known (enqueue s e) n ≡ true
unfolding enqueue pending_event
is_known-enqueue n s e h = ground arith

is_known-commit_next :
    (n : ℕ) (s : AgentRunState) (e : AgentStreamEvent)
    → is_known s n ≡ true
    → is_known (commit_next s e) n ≡ true
is_known-commit_next n s e h =
    rw (commit_next_lem s e)
      (ground (arith, pending_event-delete_pending (s.last_sequence + 1) n s.pending_events))

-- Every event of the list is known to the state.
abbrev AllKnown : AgentRunState → List AgentStreamEvent → Type 0
AllKnown s es = All (λ e. is_known s e.sequence ≡ true) es

AllKnown-enqueue :
    (es : List AgentStreamEvent) (s : AgentRunState) (e : AgentStreamEvent)
    → AllKnown s es
    → AllKnown (enqueue s e) es
AllKnown-enqueue es s e h =
    All-map (λ (f : AgentStreamEvent). is_known s f.sequence ≡ true)
      (λ f. is_known (enqueue s e) f.sequence ≡ true) es (λ f k. is_known-enqueue f.sequence s e k)
      h

is_known-enqueue_all :
    (n : ℕ) (es : List AgentStreamEvent) (s : AgentRunState)
    → is_known s n ≡ true
    → is_known (enqueue_all s es) n ≡ true
unfolding enqueue_all
is_known-enqueue_all n [] s h = h
is_known-enqueue_all n (e ∷ es) s h =
    is_known-enqueue_all n es (enqueue s e) (is_known-enqueue n s e h)

AllKnown-enqueue_all :
    (es : List AgentStreamEvent) (s : AgentRunState) → AllKnown (enqueue_all s es) es
unfolding enqueue_all
AllKnown-enqueue_all [] s = tt
AllKnown-enqueue_all (e ∷ es) s = (
  is_known-enqueue_all e.sequence es (enqueue s e) (is_known-enqueue_self s e),
  AllKnown-enqueue_all es (enqueue s e),
)

-- After a batch each of its events is committed or waits.
pub AllKnown-reduce :
    (s : AgentRunState) (es : List AgentStreamEvent)
    → All (λ e. is_known (reduce_agent_stream_events s es) e.sequence ≡ true) es
unfolding reduce_agent_stream_events commit_ready
AllKnown-reduce s es =
    commit_pending_inv (λ r. AllKnown r es)
      (λ r c _ h.
        All-map (λ (f : AgentStreamEvent). is_known r f.sequence ≡ true)
          (λ f. is_known (commit_next r c) f.sequence ≡ true) es
          (λ f k. is_known-commit_next f.sequence r c k) h)
      _ (enqueue_all s es) (AllKnown-enqueue_all es s)

enqueue_all-AllKnown :
    (es : List AgentStreamEvent) (s : AgentRunState) → AllKnown s es → enqueue_all s es ≡ s
unfolding enqueue_all enqueue
enqueue_all-AllKnown [] s h = refl
enqueue_all-AllKnown (e ∷ es) s (k, h) = rw k (enqueue_all-AllKnown es s h)

-- A batch whose events are all known leaves a state as it is, once all that is ready is committed.
reduce-AllKnown :
    (s : AgentRunState) (es : List AgentStreamEvent)
    → next_pending s ≡ none
    → AllKnown s es
    → reduce_agent_stream_events s es ≡ s
unfolding reduce_agent_stream_events
reduce-AllKnown s es d h = ap commit_ready (enqueue_all-AllKnown es s h) ∙ commit_ready-none s d

-- A batch that is delivered a second time changes nothing.
pub reduce_idempotent :
    (s : AgentRunState) (es : List AgentStreamEvent)
    → reduce_agent_stream_events (reduce_agent_stream_events s es) es
      ≡ reduce_agent_stream_events s es
reduce_idempotent s es =
    reduce-AllKnown (reduce_agent_stream_events s es) es (next_pending-reduce s es)
      (AllKnown-reduce s es)
