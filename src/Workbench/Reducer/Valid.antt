-- ===== src/Workbench/Reducer/Valid.antt =====
-- The invariant of `lastSequence` and `pendingEvents` (stream-reducer.ts).
use wind_solar_ess_agent.Base.{
  ℕ, ◌+◌, ◌≤◌, ◌<◌, ◌≡◌, refl, inl, inr, none, List, [], ◌∷◌, arith, ◌==◌, Bool-cases, All,
}
use wind_solar_ess_agent.Workbench.Contracts.{AgentStreamEvent, AgentRunState}
use wind_solar_ess_agent.Workbench.Reducer.{
  pending_event, delete_pending, enqueue, commit_next, reduce_agent_stream_events,
}
use wind_solar_ess_agent.Workbench.Reducer.Pending.{
  Table, pending_event-delete_pending, All-delete_pending,
}
use wind_solar_ess_agent.Workbench.Reducer.Commit.{commit_next_lem, reduce_inv}
use wind_solar_ess_agent.Workbench.Reducer.Batches.{is_known}

-- No key stands twice, as in an object.
abbrev pub Distinct : Table → Type 0
Distinct [] = Unit
Distinct ((k, e) ∷ rest) = (pending_event k rest ≡ none) × Distinct rest

-- Every waiting event is filed under its own number, which is beyond the cursor.
pub record IsValid (s : AgentRunState) : Type 0 where
  pub ahead : All (λ p. s.last_sequence < p.0) s.pending_events
  pub filed : All (λ p. p.1.sequence ≡ p.0) s.pending_events
  pub distinct : Distinct s.pending_events

Distinct-delete_pending :
    (n : ℕ) (table : Table) → Distinct table → Distinct (delete_pending n table)
unfolding delete_pending
Distinct-delete_pending n [] d = tt
Distinct-delete_pending n ((k, e) ∷ rest) (new, d) = elim (Bool-cases (k == n)) [
  | inl same ↦ rw same (Distinct-delete_pending n rest d)
  | inr other ↦
      rw other
        (ground (arith, pending_event-delete_pending n k rest), Distinct-delete_pending n rest d)
]

-- Once the entry at the cursor is gone, the others are beyond the next cursor too.
pub ahead-delete_pending :
    (n : ℕ) (table : Table)
    → All (λ p. n < p.0) table
    → All (λ p. n + 1 < p.0) (delete_pending (n + 1) table)
unfolding delete_pending
ahead-delete_pending n [] h = tt
ahead-delete_pending n ((k, e) ∷ rest) (p, h) = elim (Bool-cases (k == n + 1)) [
  | inl same ↦ rw same (ahead-delete_pending n rest h)
  | inr other ↦ rw other (ground arith, ahead-delete_pending n rest h)
]

enqueue-IsValid : (s : AgentRunState) (e : AgentStreamEvent) → IsValid s → IsValid (enqueue s e)
unfolding enqueue
enqueue-IsValid s e v = elim (Bool-cases (is_known s e.sequence)) [
  | inl old ↦ rw old v
  | inr new ↦ rw new (record {
    ahead = (ground arith, v.ahead);
    filed = (refl, v.filed);
    distinct = (ground arith, v.distinct);
  })
]

commit_next-IsValid :
    (s : AgentRunState) (e : AgentStreamEvent) → IsValid s → IsValid (commit_next s e)
commit_next-IsValid s e v = rw (commit_next_lem s e) (record {
  ahead = ahead-delete_pending s.last_sequence s.pending_events v.ahead;
  filed =
      All-delete_pending (λ p. p.1.sequence ≡ p.0) (s.last_sequence + 1) s.pending_events v.filed;
  distinct = Distinct-delete_pending (s.last_sequence + 1) s.pending_events v.distinct;
})

-- No condition on the events of a batch.
abbrev pub AnyEvent : AgentStreamEvent → Type 0
AnyEvent e = Unit

pub All-AnyEvent : (es : List AgentStreamEvent) → All AnyEvent es
All-AnyEvent [] = tt
All-AnyEvent (e ∷ es) = (tt, All-AnyEvent es)

-- The reducer keeps the table valid, whatever events arrive.
reduce-IsValid :
    (s : AgentRunState) (incoming : List AgentStreamEvent)
    → IsValid s
    → IsValid (reduce_agent_stream_events s incoming)
reduce-IsValid s incoming v =
    reduce_inv IsValid AnyEvent (λ r e _ w. enqueue-IsValid r e w)
      (λ r e _ w. commit_next-IsValid r e w) s incoming (All-AnyEvent incoming) v

last_sequence-enqueue :
    (s : AgentRunState) (e : AgentStreamEvent) → (enqueue s e).last_sequence ≡ s.last_sequence
unfolding enqueue
last_sequence-enqueue s e = ground arith

last_sequence-commit_next :
    (s : AgentRunState) (e : AgentStreamEvent)
    → (commit_next s e).last_sequence ≡ s.last_sequence + 1
last_sequence-commit_next s e = rw (commit_next_lem s e)

-- The cursor never moves back.
last_sequence-reduce-le :
    (s : AgentRunState) (incoming : List AgentStreamEvent)
    → s.last_sequence ≤ (reduce_agent_stream_events s incoming).last_sequence
last_sequence-reduce-le s incoming =
    reduce_inv (λ r. s.last_sequence ≤ r.last_sequence) AnyEvent
      (λ r e _ h. omega (arith, last_sequence-enqueue r e))
      (λ r e _ h. omega (arith, last_sequence-commit_next r e)) s incoming (All-AnyEvent incoming)
      (omega arith)
