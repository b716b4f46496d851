-- ===== src/Twin/AgentClient/Attempts.antt =====
-- How often the twin's stream connects and how long it waits (agentWorkflowClient.js,
-- `streamAgentRun`).
use wind_solar_ess_agent.Base.{
  Bool, true, false, ℕ, zero, suc, ◌+◌, ◌≤◌, ◌≡◌, ◌⊎◌, refl, ap, ◌∙◌, Option, List, [], ◌∷◌, ◌++◌,
  arith, leb, inl, inr, Bool-cases, Option-cases, length,
}
use wind_solar_ess_agent.Js.Text.{Text}
use wind_solar_ess_agent.Js.Json.{Json}
use wind_solar_ess_agent.Twin.AgentClient.{
  Progress, Outcome, Ending, Connection, finished, aborted, broken, aborted_in_wait, reading,
  returned, threw_abort, threw_error, parse_sse_frames, last_id_after, delivered_to, read_chunks,
  ending_of, retry_delay, with_request, with_wait, end_turn, new_progress, stream_from,
  stream_agent_run,
}

abbrev pub sum : List ℕ → ℕ
sum [] = 0
sum (n ∷ ns) = n + sum ns

module _ (parse_json : Text → Option Json) where
  -- The waits before an attempt.
  abbrev spent : ℕ → ℕ
  spent zero = 0
  spent (suc attempt) = spent attempt + retry_delay parse_json attempt

  spent-le : (attempt : ℕ) → attempt ≤ 5 → spent attempt ≤ 7750
  spent-le zero h = omega arith
  spent-le (suc zero) h = omega arith
  spent-le (suc (suc zero)) h = omega arith
  spent-le (suc (suc (suc zero))) h = omega arith
  spent-le (suc (suc (suc (suc zero)))) h = omega arith
  spent-le (suc (suc (suc (suc (suc zero))))) h = omega arith
  spent-le (suc (suc (suc (suc (suc (suc n)))))) h = absurd (omega arith)

  -- The reading of a connection sends no request and does not wait.
  record IsQuiet (before after : Progress parse_json) : Type 0 where
    same_requests : after.requests ≡ before.requests
    same_waits : after.waits ≡ before.waits

  delivered_to-IsQuiet :
      (events : List Json) (last : Text) (p : Progress parse_json)
      → IsQuiet p (delivered_to parse_json events last p)
  delivered_to-IsQuiet [] last p = record { same_requests = refl; same_waits = refl }
  delivered_to-IsQuiet (event ∷ events) last p = record { same_requests = refl; same_waits = refl }

  read_chunks-IsQuiet :
      (chunks : List Text) (buffer : Text) (p : Progress parse_json)
      → IsQuiet p (read_chunks parse_json chunks buffer p).progress
  unfolding read_chunks
  read_chunks-IsQuiet [] buffer p = record { same_requests = refl; same_waits = refl }
  read_chunks-IsQuiet (chunk ∷ chunks) buffer p =
      let parsed = parse_sse_frames parse_json (buffer ++ chunk) in
      elim (Option-cases (last_id_after parse_json parsed.events p.last_event_id)) [
        | inl unreadable ↦
            rw (unreadable, read_chunks) (record { same_requests = refl; same_waits = refl })
        | inr (last, readable) ↦
            let next = delivered_to parse_json parsed.events last p in
            let here = delivered_to-IsQuiet parsed.events last p in
            let later = read_chunks-IsQuiet chunks parsed.remainder next in
            rw (readable, read_chunks)
              (record {
                same_requests = later.same_requests ∙ here.same_requests;
                same_waits = later.same_waits ∙ here.same_waits;
              })
      ]

  -- What is spent once the attempts are counted from this one on.
  record IsBounded (attempt : ℕ) (before after : Progress parse_json) : Type 0 where
    few_requests : length after.requests + attempt ≤ length before.requests + 6
    short_waits : sum after.waits + spent attempt ≤ sum before.waits + 7750

  ended :
      (attempt : ℕ) (before p : Progress parse_json)
      → attempt ≤ 5
      → IsQuiet (with_request parse_json before) p
      → IsBounded attempt before p
  ended attempt before p h quiet = record {
    few_requests = omega (arith, ap length quiet.same_requests);
    short_waits = omega (arith, ap sum quiet.same_waits, spent-le attempt h);
  }

  end_turn-IsBounded :
      (ending : Ending parse_json) (attempt : ℕ) (before p : Progress parse_json)
      (again : Progress parse_json × Outcome parse_json)
      → attempt ≤ 5
      → IsQuiet (with_request parse_json before) p
      → (suc attempt ≤ 5 → IsBounded (suc attempt) (with_wait parse_json attempt p) again.0)
      → IsBounded attempt before (end_turn parse_json ending (leb 5 attempt) attempt p again).0
  end_turn-IsBounded finished attempt before p again h quiet rest = ended attempt before p h quiet
  end_turn-IsBounded aborted attempt before p again h quiet rest = ended attempt before p h quiet
  end_turn-IsBounded broken attempt before p again h quiet rest =
      elim (Bool-cases (leb 5 attempt)) [
        | inl last ↦ rw last (ended attempt before p h quiet)
        | inr more ↦
            let room : suc attempt ≤ 5 = ground arith in
            let later = rest room in
            rw more (record {
              few_requests = omega (arith, later.few_requests, ap length quiet.same_requests);
              short_waits = omega (arith, later.short_waits, ap sum quiet.same_waits);
            })
      ]
  end_turn-IsBounded aborted_in_wait attempt before p again h quiet rest =
      elim (Bool-cases (leb 5 attempt)) [
        | inl last ↦ rw last (ended attempt before p h quiet)
        | inr more ↦
            let room : suc attempt ≤ 5 = ground arith in
            rw more (record {
              few_requests = omega (arith, ap length quiet.same_requests);
              short_waits = omega (arith, ap sum quiet.same_waits, spent-le (suc attempt) room);
            })
      ]

  stream_from-IsBounded :
      (connections : List (Connection parse_json)) (attempt : ℕ) (p : Progress parse_json)
      → attempt ≤ 5
      → IsBounded attempt p (stream_from parse_json connections attempt p).0
  unfolding stream_from
  stream_from-IsBounded [] attempt p h = record {
    few_requests = omega arith;
    short_waits = omega (arith, spent-le attempt h);
  }
  stream_from-IsBounded (c ∷ connections) attempt p h =
      let end = read_chunks parse_json c.chunks [] (with_request parse_json p) in
      let quiet = read_chunks-IsQuiet c.chunks [] (with_request parse_json p) in
      elim (Bool-cases c.aborted_before) [
        | inl before ↦
            rw before (record {
              few_requests = omega arith;
              short_waits = omega (arith, spent-le attempt h);
            })
        | inr running ↦ rw running (
            end_turn-IsBounded (ending_of parse_json end.all_read c.ending) attempt p end.progress _
              h quiet
              (λ more.
                stream_from-IsBounded connections (suc attempt)
                  (with_wait parse_json attempt end.progress) more))
      ]

  -- Whether the stream has returned or thrown.
  abbrev pub is_over : Outcome parse_json → Bool
  is_over reading = false
  is_over (returned last) = true
  is_over threw_abort = true
  is_over threw_error = true

  end_turn-over :
      (ending : Ending parse_json) (attempt : ℕ) (p : Progress parse_json)
      (again : Progress parse_json × Outcome parse_json)
      → (suc attempt ≤ 5 → is_over again.1 ≡ true)
      → is_over (end_turn parse_json ending (leb 5 attempt) attempt p again).1 ≡ true
  end_turn-over finished attempt p again rest = refl
  end_turn-over aborted attempt p again rest = refl
  end_turn-over broken attempt p again rest = elim (Bool-cases (leb 5 attempt)) [
    | inl last ↦ rw last refl
    | inr more ↦ rw more (rest (ground arith))
  ]
  end_turn-over aborted_in_wait attempt p again rest = elim (Bool-cases (leb 5 attempt)) [
    | inl last ↦ rw last refl
    | inr more ↦ rw more refl
  ]

  stream_from-over :
      (connections : List (Connection parse_json)) (attempt : ℕ) (p : Progress parse_json)
      → attempt ≤ 5
      → 6 ≤ length connections + attempt
      → is_over (stream_from parse_json connections attempt p).1 ≡ true
  unfolding stream_from
  stream_from-over [] attempt p h enough = absurd (omega arith)
  stream_from-over (c ∷ connections) attempt p h enough =
      let end = read_chunks parse_json c.chunks [] (with_request parse_json p) in
      elim (Bool-cases c.aborted_before) [
        | inl before ↦ rw before refl
        | inr running ↦ rw running (
            end_turn-over (ending_of parse_json end.all_read c.ending) attempt end.progress _
              (λ more.
                stream_from-over connections (suc attempt)
                  (with_wait parse_json attempt end.progress) more (omega arith)))
      ]

  -- Whatever the network does, the stream of the twin sends at most six requests, its waits are at
  -- most 7750 ms in all, and once six connections have ended it has returned or thrown.
  pub stream_agent_run_bounds :
      (connections : List (Connection parse_json)) (initial_event_id : Text)
      → let result = stream_agent_run parse_json connections initial_event_id in
        (length result.0.requests ≤ 6)
        × (sum result.0.waits ≤ 7750)
        × ((is_over result.1 ≡ true) ⊎ (length connections ≤ 5))
  unfolding stream_agent_run
  stream_agent_run_bounds connections initial_event_id =
      let start = new_progress parse_json initial_event_id in
      let bounds = stream_from-IsBounded connections 0 start (omega arith) in
      (
        omega (arith, bounds.few_requests),
        omega (arith, bounds.short_waits),
        elim (Bool-cases (leb 6 (length connections))) [
          | inl enough ↦
              inl (stream_from-over connections 0 start (omega arith) (ground (arith, enough)))
          | inr few ↦ inr (ground (arith, few))
        ],
      )
