-- ===== src/Workbench/Reducer/Replay.antt =====
-- The refinement of the reducer (stream-reducer.ts): whatever the order, the batches and the
-- duplicates of the delivery, the state is the one that replaying the log of the run in order gives.
use wind_solar_ess_agent.Base.{
  ℕ, zero, suc, ◌+◌, ◌≤◌, ◌<◌, ◌≡◌, refl, sym, ◌∙◌, ap, inl, inr, true, none, some, List, [], ◌∷◌,
  arith, ltb, ◌==◌, Bool-cases, All, any,
}
use wind_solar_ess_agent.Js.Text.{Text}
use wind_solar_ess_agent.Workbench.Contracts.{AgentStreamEvent, AgentRunState}
use wind_solar_ess_agent.Workbench.Reducer.{
  apply_agent_stream_event, enqueue, commit_next, create_agent_run_state,
  reduce_agent_stream_events,
}
use wind_solar_ess_agent.Workbench.Reducer.Pending.{Table, All-delete_pending, All-pending_event}
use wind_solar_ess_agent.Workbench.Reducer.Commit.{
  with_queue, apply-with_queue, commit_next_lem, next_pending, next_pending-reduce, reduce_inv,
}
use wind_solar_ess_agent.Workbench.Reducer.Batches.{is_known, AllKnown-reduce}
use wind_solar_ess_agent.Workbench.Reducer.Valid.{ahead-delete_pending}

-- The specification: the events 1 … n of the log, applied in order.
abbrev pub replay : (ℕ → AgentStreamEvent) → ℕ → AgentRunState → AgentRunState
replay log zero init = init
replay log (suc n) init = apply_agent_stream_event (replay log n init) (log (suc n))

-- The event is the one that the log holds under its number, among the first `n`.
abbrev pub IsLogged : (ℕ → AgentStreamEvent) → ℕ → AgentStreamEvent → Type 0
IsLogged log n e = (e ≡ log e.sequence) × (e.sequence ≤ n)

module _ (log : ℕ → AgentStreamEvent) (n : ℕ) (init : AgentRunState) where
  -- What is shown is a replay of the log up to the cursor, and what waits is in the log.
  record Follows (s : AgentRunState) : Type 0 where
    replayed : with_queue s 0 [] ≡ replay log s.last_sequence init
    reached : s.last_sequence ≤ n
    drawn : All (λ p. p.1 ≡ log p.0) s.pending_events
    ahead : All (λ p. s.last_sequence < p.0) s.pending_events
    within : All (λ p. p.0 ≤ n) s.pending_events

  enqueue-Follows :
      (s : AgentRunState) (e : AgentStreamEvent)
      → IsLogged log n e
      → Follows s
      → Follows (enqueue s e)
  unfolding enqueue
  enqueue-Follows s e (logged, small) v = elim (Bool-cases (is_known s e.sequence)) [
    | inl old ↦ rw old v
    | inr new ↦ rw new (record {
      replayed = v.replayed;
      reached = v.reached;
      drawn = (logged, v.drawn);
      ahead = (ground arith, v.ahead);
      within = (small, v.within);
    })
  ]

  -- To apply the next event of the log is to replay one event more.
  replay-next :
      (s : AgentRunState) (e : AgentStreamEvent)
      → with_queue s 0 [] ≡ replay log s.last_sequence init
      → e ≡ log (s.last_sequence + 1)
      → with_queue (apply_agent_stream_event s e) 0 [] ≡ replay log (s.last_sequence + 1) init
  replay-next s e h logged =
      let next : s.last_sequence + 1 ≡ suc s.last_sequence = omega arith in
      rw next (
        sym (apply-with_queue s e 0 [])
        ∙ ap (λ (r : AgentRunState). apply_agent_stream_event r e) h
        ∙ ap (apply_agent_stream_event (replay log s.last_sequence init)) (rw next at logged))

  commit_next-Follows :
      (s : AgentRunState) (e : AgentStreamEvent)
      → next_pending s ≡ some e
      → Follows s
      → Follows (commit_next s e)
  commit_next-Follows s e h v =
      let next = s.last_sequence + 1 in
      let table = s.pending_events in
      rw (commit_next_lem s e) (record {
        replayed =
            replay-next s e v.replayed
              (All-pending_event (λ p. p.1 ≡ log p.0) next table e v.drawn h);
        reached = All-pending_event (λ p. p.0 ≤ n) next table e v.within h;
        drawn = All-delete_pending (λ p. p.1 ≡ log p.0) next table v.drawn;
        ahead = ahead-delete_pending s.last_sequence table v.ahead;
        within = All-delete_pending (λ p. p.0 ≤ n) next table v.within;
      })

  reduce-Follows :
      (s : AgentRunState) (es : List AgentStreamEvent)
      → All (IsLogged log n) es
      → Follows s
      → Follows (reduce_agent_stream_events s es)
  reduce-Follows = reduce_inv Follows (IsLogged log n) enqueue-Follows commit_next-Follows

-- A number that occurs among the known events is known.
is_known_of_any :
    (s : AgentRunState) (k : ℕ) (es : List AgentStreamEvent)
    → All (λ e. is_known s e.sequence ≡ true) es
    → any (λ e. e.sequence == k) es ≡ true
    → is_known s k ≡ true
is_known_of_any s k [] h a = cc
is_known_of_any s k (e ∷ es) (p, h) a = elim (Bool-cases (e.sequence == k)) [
  | inl same ↦ let at_k : e.sequence ≡ k = ground arith in rw at_k at p
  | inr other ↦ is_known_of_any s k es h (ground arith)
]

-- With all numbers known and nothing next in sequence, the cursor has passed them.
cursor_complete :
    (s : AgentRunState) (n : ℕ)
    → s.last_sequence ≤ n
    → next_pending s ≡ none
    → ((k : ℕ) → 1 ≤ k → k ≤ n → is_known s k ≡ true)
    → s.last_sequence ≡ n
cursor_complete s n small done known = elim (Bool-cases (ltb s.last_sequence n)) [
  | inl short ↦
      let missing : is_known s (s.last_sequence + 1) ≡ true =
        known (s.last_sequence + 1) (omega arith) (ground arith) in
      absurd (ground arith)
  | inr full ↦ ground arith
]

-- Nothing beyond the cursor can wait if all that waits is within the cursor.
no_entries :
    (n : ℕ) (table : Table) → All (λ p. n < p.0) table → All (λ p. p.0 ≤ n) table → table ≡ []
no_entries n [] h k = refl
no_entries n ((k, e) ∷ rest) (p, _) (q, _) = absurd (omega arith)

module _ (log : ℕ → AgentStreamEvent) (n : ℕ) (run_id conversation_id message_id : Text)
    (es : List AgentStreamEvent) (logged : All (IsLogged log n) es) where
  reduced-Follows :
      Follows log n
        (create_agent_run_state run_id conversation_id message_id)
        (reduce_agent_stream_events (create_agent_run_state run_id conversation_id message_id) es)
  unfolding create_agent_run_state
  reduced-Follows =
      reduce-Follows log n _ _ es logged
        (record { replayed = refl; reached = omega arith; drawn = tt; ahead = tt; within = tt })

  -- If the events of a new run are drawn from a log (each is the one that the log holds under its
  -- sequence number), then, in whatever order, how often and with what gaps they arrive, the
  -- state is the one that applying the log's events in order up to the cursor gives, but for the
  -- cursor and the table of waiting events.
  pub reduce-replays :
      with_queue
        (reduce_agent_stream_events (create_agent_run_state run_id conversation_id message_id) es)
        0
        []
      ≡ replay log
          (reduce_agent_stream_events
            (create_agent_run_state run_id conversation_id message_id)
            es).last_sequence
          (create_agent_run_state run_id conversation_id message_id)
  reduce-replays = reduced-Follows.replayed

  -- If the events of a new run are drawn from the first `n` events of a log (each is the one that
  -- the log holds under its sequence number) and each of the numbers 1 to `n` occurs, then, in
  -- whatever order and how often they arrive, the state is the replay of the whole log, with the
  -- cursor at `n` and nothing left waiting.
  pub reduce_complete :
      ((k : ℕ) → 1 ≤ k → k ≤ n → any (λ e. e.sequence == k) es ≡ true)
      → reduce_agent_stream_events (create_agent_run_state run_id conversation_id message_id) es
        ≡ with_queue (replay log n (create_agent_run_state run_id conversation_id message_id)) n []
  reduce_complete all =
      let start = create_agent_run_state run_id conversation_id message_id in
      let s = reduce_agent_stream_events start es in
      let v = reduced-Follows in
      let at_end : s.last_sequence ≡ n =
        cursor_complete s n v.reached (next_pending-reduce start es)
          (λ k h j. is_known_of_any s k es (AllKnown-reduce start es) (all k h j)) in
      let empty : s.pending_events ≡ [] =
        no_entries s.last_sequence s.pending_events v.ahead (rw at_end v.within) in
      (λ i. with_queue s (at_end i) (empty i))
      ∙ ap (λ (r : AgentRunState). with_queue r n [])
          (v.replayed ∙ ap (λ (k : ℕ). replay log k start) at_end)
