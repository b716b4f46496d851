-- ===== src/Twin/RunEvents/Known.antt =====
-- Events that arrive again (digitalTwinAdapters.js, the set `seen` of `applyRunEventBatch`).
use wind_solar_ess_agent.Base.{
  ℕ, ◌+◌, ◌≤◌, ◌≡◌, sym, ap, subst, ◌∙◌, List, [], arith, length, sort_by, length-sort_by,
}
use wind_solar_ess_agent.Js.Text.{Text, decimal}
use wind_solar_ess_agent.Twin.Observations.{Observation, order_observations}
use wind_solar_ess_agent.Twin.Observations.Visits.{count}
use wind_solar_ess_agent.Twin.Observations.Complete.{count-order_observations}
use wind_solar_ess_agent.Twin.RunEvents.Sets.{
  Distinct, number_set-Distinct, number_set-Distinct, length-number_set, number_set-append,
  sort_by-Distinct,
}
use wind_solar_ess_agent.Twin.RunEvents.Ids.{
  DistinctIds, observation_map-DistinctIds, count-observation_map, apply_events-DistinctIds,
}
use wind_solar_ess_agent.Twin.Events.{RunEvent, RunEventState}
use wind_solar_ess_agent.Twin.RunEvents.{
  apply_events, select, sequence_of, newest, last_or_zero, start_batch, number_set, observation_map,
  finish_batch, apply_run_event_batch,
}
use wind_solar_ess_agent.Twin.RunEvents.Seen.{
  AllSeen, AllSeen-apply_events, AllSeen-newest, apply_events-AllSeen, apply_events-Distinct,
  length-apply_events, length-select, newest_again, newest_small, run_id-apply_events,
}

-- The set that is built from the kept numbers is these numbers.
number_set-newest :
    (seen : List ℕ) → length seen ≤ 500 → Distinct seen → number_set [] (newest seen) ≡ newest seen
number_set-newest seen few h =
    number_set-append [] (newest seen)
      (subst Distinct (sym (newest_small seen few)) (sort_by-Distinct seen h))

order_observations-DistinctIds :
    (os : List Observation) → DistinctIds os → DistinctIds (order_observations os)
order_observations-DistinctIds os h id = omega (arith, count-order_observations os h id, h id)

-- To put ordered observations into a map, and in order again, keeps how often each id occurs.
count-order_again :
    (os : List Observation) (id : Text)
    → DistinctIds os
    → count id (order_observations (observation_map [] (order_observations os)))
      ≡ count id (order_observations os)
count-order_again os id h =
    let known = order_observations os in
    let nothing : DistinctIds [] = λ i. omega arith in
    count-order_observations (observation_map [] known)
      (observation_map-DistinctIds [] known nothing) id
    ∙ ground
        (arith, count-observation_map id [] known nothing, order_observations-DistinctIds os h id)

-- The state after a batch that is delivered a second time, but for the order of the observations.
apply_run_event_batch_twice :
    (s : RunEventState) (es : List RunEvent)
    → length s.seen_sequences + length es ≤ 500
    → let s' = apply_run_event_batch s es in
      apply_run_event_batch s' es
      ≡ record s' { observations = order_observations (observation_map [] s'.observations) }
unfolding apply_run_event_batch
apply_run_event_batch_twice s es h =
    let events = sort_by sequence_of (select s.run_id es) in
    let b = apply_events events (start_batch s) in
    let s' = finish_batch b in
    let few : length b.seen ≤ 500 = omega (
      arith,
      h,
      length-apply_events events (start_batch s),
      length-number_set [] s.seen_sequences,
      length-sort_by sequence_of (select s.run_id es),
      length-select s.run_id es,
    ) in
    let distinct : Distinct b.seen =
      apply_events-Distinct events (start_batch s) (number_set-Distinct [] s.seen_sequences tt) in
    let same = number_set-newest b.seen few distinct in
    let known : AllSeen (number_set [] (newest b.seen)) events =
      subst (λ (seen : List ℕ). AllSeen seen events) (sym same)
        (AllSeen-newest b.seen events few (AllSeen-apply_events events (start_batch s))) in
    ap
      (λ (r : Text).
        finish_batch (apply_events (sort_by sequence_of (select r es)) (start_batch s')))
      (run_id-apply_events events (start_batch s))
    ∙ ap finish_batch (apply_events-AllSeen events (start_batch s') known)
    ∙ ap
        (λ (seen : List ℕ). record s' {
          seen_sequences = seen;
          last_event_id = decimal (last_or_zero seen);
          observations = order_observations (observation_map [] s'.observations);
        })
        (ap newest same ∙ newest_again b.seen few)

-- A batch that is delivered a second time changes at most the order of the observations and what
-- they hold beside their ids: all else in the state stays, and each id occurs as often as before.
-- The sequences of the run are, with the number of events in the batch, no more than the 500 that
-- are kept.
pub apply_run_event_batch_again :
    (s : RunEventState) (es : List RunEvent)
    → length s.seen_sequences + length es ≤ 500
    → let s' = apply_run_event_batch s es in
      let s'' = apply_run_event_batch s' es in
      (s'' ≡ record s' { observations = s''.observations })
      × ((id : Text) → count id s''.observations ≡ count id s'.observations)
unfolding apply_run_event_batch
apply_run_event_batch_again s es h =
    let s' = apply_run_event_batch s es in
    let twice = apply_run_event_batch_twice s es h in
    let b = apply_events (sort_by sequence_of (select s.run_id es)) (start_batch s) in
    let distinct : DistinctIds b.observations =
      apply_events-DistinctIds (sort_by sequence_of (select s.run_id es)) (start_batch s)
        (observation_map-DistinctIds [] s.observations (λ i. omega arith)) in
    (
      twice
          ∙ ap (λ (os : List Observation). record s' { observations = os })
              (sym (ap (λ (t : RunEventState). t.observations) twice)),
      λ id.
          ap (λ (t : RunEventState). count id t.observations) twice
          ∙ count-order_again b.observations id distinct,
    )
