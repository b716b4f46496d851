-- ===== src/Workbench/Session/Delivery.antt =====
-- From the stream to the run (AgentStreamingWorkbench.tsx: `queueEvents`, `flushEvents`, the tick of
-- the timer): the events that arrive are queued, flushed in batches, and reduced.
use wind_solar_ess_agent.Base.{
  ◌≡◌, ◌≢◌, ◌⊎◌, ◌||◌, refl, sym, ◌∙◌, ap, true, false, Option, none, some, List, [], ◌∷◌, ◌++◌,
  map, append-nil, append_assoc, inl, inr, Bool-cases, Option-cases, if◌then◌else◌,
}
use wind_solar_ess_agent.Js.Text.{Text, text_eq}
use wind_solar_ess_agent.Workbench.Contracts.{AgentStreamEvent, AgentRunState}
use wind_solar_ess_agent.Workbench.Reducer.{reduce_agent_stream_events}
use wind_solar_ess_agent.Workbench.Reducer.Batches.{reduce-append}
use wind_solar_ess_agent.Workbench.Store.{
  AgentWorkbenchMessage, update_one, update_message, set_active_message_id,
}
use wind_solar_ess_agent.Workbench.Session.{
  Workbench, is_empty, on_run, tick_message, drained, tick, flush_events, queue_events,
}

-- What happens while the stream of a run is read.
pub data Step : Type 0 where
  arrive : List AgentStreamEvent → Step
  flush ticked : Step

abbrev pub run_step : Step → Workbench → Workbench
run_step (arrive events) w = queue_events events w
run_step flush w = flush_events w
run_step ticked w = tick w

abbrev pub run_steps : List Step → Workbench → Workbench
run_steps [] w = w
run_steps (step ∷ steps) w = run_steps steps (run_step step w)

-- All the events that arrive, in order.
abbrev pub arrivals : List Step → List AgentStreamEvent
arrivals [] = []
arrivals (arrive events ∷ steps) = events ++ arrivals steps
arrivals (_ ∷ steps) = arrivals steps

abbrev pub run_of : AgentWorkbenchMessage → Text × Option AgentRunState
run_of message = (message.id, message.run)

-- The runs of the messages.
abbrev pub runs : Workbench → List (Text × Option AgentRunState)
runs w = map run_of w.store.messages

abbrev reduce_option : List AgentStreamEvent → Option AgentRunState → Option AgentRunState
reduce_option events none = none
reduce_option events (some run) = some (reduce_agent_stream_events run events)

-- One batch of events, reduced into the run of the message with this id.
abbrev pub deliver_to :
    Text → List AgentStreamEvent → Text × Option AgentRunState → Text × Option AgentRunState
deliver_to active [] (id, run) = (id, run)
deliver_to active (e ∷ events) (id, run) =
    if text_eq id active then (id, reduce_option (e ∷ events) run) else (id, run)

reduce_option-append :
    (xs ys : List AgentStreamEvent) (run : Option AgentRunState)
    → reduce_option ys (reduce_option xs run) ≡ reduce_option (xs ++ ys) run
reduce_option-append xs ys none = refl
reduce_option-append xs ys (some run) = ap some (sym (reduce-append run xs ys))

deliver_to-append :
    (active : Text) (xs ys : List AgentStreamEvent) (p : Text × Option AgentRunState)
    → deliver_to active ys (deliver_to active xs p) ≡ deliver_to active (xs ++ ys) p
deliver_to-append active [] ys p = refl
deliver_to-append active (x ∷ xs) [] p =
    ap (λ es. deliver_to active (x ∷ es) p) (sym (append-nil xs))
deliver_to-append active (x ∷ xs) (y ∷ ys) (id, run) = elim (Bool-cases (text_eq id active)) [
  | inl same ↦ rw same (rw same (ap (λ r. (id, r)) (reduce_option-append (x ∷ xs) (y ∷ ys) run)))
  | inr other ↦ rw other (rw other refl)
]

deliver_all-append :
    (active : Text) (xs ys : List AgentStreamEvent) (ps : List (Text × Option AgentRunState))
    → map (deliver_to active ys) (map (deliver_to active xs) ps)
      ≡ map (deliver_to active (xs ++ ys)) ps
deliver_all-append active xs ys [] = refl
deliver_all-append active xs ys (p ∷ ps) =
    λ i. deliver_to-append active xs ys p i ∷ deliver_all-append active xs ys ps i

map_same :
    (f : Text × Option AgentRunState → Text × Option AgentRunState)
    (ps : List (Text × Option AgentRunState))
    → ((p : Text × Option AgentRunState) → f p ≡ p)
    → map f ps ≡ ps
map_same f [] h = refl
map_same f (p ∷ ps) h = λ i. h p i ∷ map_same f ps h i

-- An update of the messages, as seen by the runs.
runs-update :
    (active : Text) (f : AgentWorkbenchMessage → AgentWorkbenchMessage)
    (g : Text × Option AgentRunState → Text × Option AgentRunState)
    (ms : List AgentWorkbenchMessage)
    → ((m : AgentWorkbenchMessage) → run_of (update_one active f m) ≡ g (run_of m))
    → map run_of (map (update_one active f) ms) ≡ map g (map run_of ms)
runs-update active f g [] h = refl
runs-update active f g (m ∷ ms) h = λ i. h m i ∷ runs-update active f g ms h i

run_of-reduce :
    (active : Text) (e : AgentStreamEvent) (events : List AgentStreamEvent)
    (m : AgentWorkbenchMessage)
    → run_of (update_one active (on_run (λ run. reduce_agent_stream_events run (e ∷ events))) m)
      ≡ deliver_to active (e ∷ events) (run_of m)
unfolding update_one
run_of-reduce active e events m = elim (Bool-cases (text_eq m.id active)) [
  | inr other ↦ rw other refl
  | inl same ↦ rw same (elim (Option-cases m.run) [
    | inl missing ↦ rw missing refl
    | inr (run, there) ↦ rw there refl
  ])
]

run_of-tick :
    (active : Text) (m : AgentWorkbenchMessage)
    → run_of (update_one active tick_message m) ≡ run_of m
unfolding update_one tick_message
run_of-tick active m = elim (Bool-cases (text_eq m.id active)) [
  | inr other ↦ rw other refl
  | inl same ↦ rw same (elim (Option-cases m.run) [
    | inl missing ↦ rw missing refl
    | inr (run, there) ↦ rw there refl
  ])
]

-- The id of the active message.
abbrev pub active_of : Workbench → Text
active_of w = w.store.active_message_id

flush_events-runs :
    (w : Workbench)
    → is_empty (active_of w) ≡ false
    → runs (flush_events w) ≡ map (deliver_to (active_of w) w.pending_events) (runs w)
unfolding flush_events update_message
flush_events-runs w h = go w.pending_events refl
  where
    go :
        (events : List AgentStreamEvent)
        → w.pending_events ≡ events
        → runs (flush_events w) ≡ map (deliver_to (active_of w) w.pending_events) (runs w)
    go [] e = rw e (sym (map_same (deliver_to (active_of w) []) (runs w) (λ p. refl)))
    go (x ∷ events) e = rw e (
        rw h (
          runs-update (active_of w) _ (deliver_to (active_of w) (x ∷ events)) w.store.messages
            (run_of-reduce (active_of w) x events)))

flush_events-active : (w : Workbench) → active_of (flush_events w) ≡ active_of w
unfolding flush_events update_message
flush_events-active w = elim (Bool-cases (is_empty w.pending_events || is_empty (active_of w))) [
  | inl none_taken ↦ rw none_taken refl
  | inr taken ↦ rw taken refl
]

flush_events-pending : (w : Workbench) → (flush_events w).pending_events ≡ []
unfolding flush_events
flush_events-pending w = elim (Bool-cases (is_empty w.pending_events || is_empty (active_of w))) [
  | inl none_taken ↦ rw none_taken refl
  | inr taken ↦ rw taken refl
]

tick-runs : (w : Workbench) → runs (tick w) ≡ runs w
unfolding tick update_message set_active_message_id
tick-runs w =
    let active = active_of w in
    let same =
      runs-update active tick_message (λ p. p) w.store.messages (run_of-tick active)
      ∙ map_same (λ p. p) (runs w) (λ p. refl) in
    elim (Bool-cases (is_empty active)) [
      | inl idle ↦ rw idle refl
      | inr busy ↦ rw busy (elim (Bool-cases (drained active w.store.messages false)) [
        | inl released ↦ rw released same
        | inr kept ↦ rw kept same
      ])
    ]

tick-pending : (w : Workbench) → (tick w).pending_events ≡ w.pending_events
unfolding tick
tick-pending w = elim (Bool-cases (is_empty (active_of w))) [
  | inl idle ↦ rw idle refl
  | inr busy ↦ rw busy refl
]

-- A tick leaves the active message as it is, or releases it.
tick-active : (w : Workbench) → (active_of (tick w) ≡ active_of w) ⊎ (active_of (tick w) ≡ [])
unfolding tick update_message set_active_message_id
tick-active w =
    let active = active_of w in
    elim (Bool-cases (is_empty active)) [
      | inl idle ↦ inl (rw idle refl)
      | inr busy ↦ elim (Bool-cases (drained active w.store.messages false)) [
        | inl released ↦ inr (rw busy (rw released refl))
        | inr kept ↦ inl (rw busy (rw kept refl))
      ]
    ]

-- Once the active message is released, it stays so.
released_steps :
    (steps : List Step) (w : Workbench) → active_of w ≡ [] → active_of (run_steps steps w) ≡ []
unfolding queue_events
released_steps [] w h = h
released_steps (arrive events ∷ steps) w h = released_steps steps (queue_events events w) h
released_steps (flush ∷ steps) w h =
    released_steps steps (flush_events w) (flush_events-active w ∙ h)
released_steps (ticked ∷ steps) w h =
    released_steps steps (tick w)
      (elim (tick-active w) [ inl kept ↦ kept ∙ h | inr released ↦ released ])

-- The active message is not yet released.
abbrev pub IsBusy : Workbench → Type 0
IsBusy w = is_empty (active_of w) ≡ false

not_released : (steps : List Step) (w : Workbench) → IsBusy (run_steps steps w) → active_of w ≢ []
not_released steps w h e =
    let idle : is_empty (active_of (run_steps steps w)) ≡ true =
      ap is_empty (released_steps steps w e) in
    cc

IsBusy-of_not_released : (w : Workbench) → active_of w ≢ [] → IsBusy w
IsBusy-of_not_released w h = go (active_of w) h
  where
    go : (t : Text) → t ≢ [] → is_empty t ≡ false
    go [] h = absurd (h refl)
    go (c ∷ t) h = refl

-- However the events of the stream are cut into arrivals, and whenever the timers flush and reveal
-- between them, the runs of the messages after the last flush are those that one batch of all the
-- events, queued or arrived, gives: no event is lost or reduced twice while the active message is
-- not released.
pub run_steps-delivers :
    (steps : List Step) (w : Workbench)
    → IsBusy (run_steps steps w)
    → runs (flush_events (run_steps steps w))
      ≡ map (deliver_to (active_of w) (w.pending_events ++ arrivals steps)) (runs w)
unfolding queue_events
run_steps-delivers [] w h =
    flush_events-runs w h
    ∙ ap (λ es. map (deliver_to (active_of w) es) (runs w)) (sym (append-nil w.pending_events))
run_steps-delivers (arrive events ∷ steps) w h =
    run_steps-delivers steps (queue_events events w) h
    ∙ ap (λ es. map (deliver_to (active_of w) es) (runs w))
        (append_assoc w.pending_events events (arrivals steps))
run_steps-delivers (flush ∷ steps) w h =
    let active = active_of w in
    let busy =
      IsBusy-of_not_released w
        (λ e. not_released steps (flush_events w) h (flush_events-active w ∙ e)) in
    run_steps-delivers steps (flush_events w) h
    ∙ (λ i.
        map (deliver_to (flush_events-active w i) (flush_events-pending w i ++ arrivals steps))
          (flush_events-runs w busy i))
    ∙ deliver_all-append active w.pending_events (arrivals steps) (runs w)
run_steps-delivers (ticked ∷ steps) w h =
    run_steps-delivers steps (tick w) h ∙ (elim (tick-active w) [
      | inl kept ↦
          λ i. map (deliver_to (kept i) (tick-pending w i ++ arrivals steps)) (tick-runs w i)
      | inr released ↦ absurd (not_released steps (tick w) h released)
    ])
