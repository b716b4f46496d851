-- ===== src/Workbench/Client/Resume.antt =====
-- What `streamAgentRun` asks for and delivers, over all its connections.
use wind_solar_ess_agent.Base.{
  ℕ, ◌≡◌, refl, sym, ◌∙◌, ap, inl, inr, Bool, true, false, ◌||◌, List, [], ◌∷◌, ◌++◌, append-nil,
  append_assoc, any, max, Bool-cases, leb, any-append, subst,
}
use mathlib.Core.Bool.{or_assoc, or-false}
use wind_solar_ess_agent.Workbench.Contracts.{AgentStreamEvent}
use wind_solar_ess_agent.Workbench.Client.{
  StreamError, Ending, closed, broken, Connection, refused, opened, Attempt, Effect, state_changed,
  requested, delivered, delayed, Outcome, returned, thrown, waiting, Cursor, is_terminal_event,
  max_sequence, advance, deliver, TryResult, done, failed, read_ending, read_loop, connect, Turn,
  leave, again, is_abort_error, handle_error, after_try, loop_body, turn, stream_agent_run,
  start_stream,
}

-- The events that were handed over, in order.
abbrev pub delivered_events : List Effect → List AgentStreamEvent
delivered_events [] = []
delivered_events (delivered events ∷ effects) = events ++ delivered_events effects
delivered_events (_ ∷ effects) = delivered_events effects

-- Every request asks for what follows the greatest number among `last` and those handed over.
abbrev pub Resumes : ℕ → List Effect → Type 0
Resumes last [] = Unit
Resumes last (requested after ∷ effects) = (after ≡ last) × Resumes last effects
Resumes last (delivered events ∷ effects) = Resumes (max_sequence last events) effects
Resumes last (_ ∷ effects) = Resumes last effects

max_sequence-append :
    (last : ℕ) (xs ys : List AgentStreamEvent)
    → max_sequence last (xs ++ ys) ≡ max_sequence (max_sequence last xs) ys
unfolding max_sequence
max_sequence-append last [] ys = refl
max_sequence-append last (x ∷ xs) ys = max_sequence-append (max last x.sequence) xs ys

delivered_events-append :
    (xs ys : List Effect) → delivered_events (xs ++ ys) ≡ delivered_events xs ++ delivered_events ys
delivered_events-append [] ys = refl
delivered_events-append (delivered es ∷ xs) ys =
    ap (es ++◌) (delivered_events-append xs ys) ∙ sym (append_assoc es _ _)
delivered_events-append (state_changed s ∷ xs) ys = delivered_events-append xs ys
delivered_events-append (requested n ∷ xs) ys = delivered_events-append xs ys
delivered_events-append (delayed n ∷ xs) ys = delivered_events-append xs ys

Resumes-append :
    (last : ℕ) (xs ys : List Effect)
    → Resumes last xs
    → Resumes (max_sequence last (delivered_events xs)) ys
    → Resumes last (xs ++ ys)
Resumes-append last [] ys h k = unfold max_sequence in k
Resumes-append last (requested n ∷ xs) ys (p, h) k = (p, Resumes-append last xs ys h k)
Resumes-append last (delivered es ∷ xs) ys h k =
    Resumes-append (max_sequence last es) xs ys h
      (rw (max_sequence-append last es (delivered_events xs)) at k)
Resumes-append last (state_changed s ∷ xs) ys h k = Resumes-append last xs ys h k
Resumes-append last (delayed n ∷ xs) ys h k = Resumes-append last xs ys h k

-- The cursor after some events were handed over.
abbrev Follows : Cursor → List AgentStreamEvent → Cursor → Type 0
Follows c events c' =
    (c'.last_sequence ≡ max_sequence c.last_sequence events)
    × (c'.terminal_received ≡ (c.terminal_received || any is_terminal_event events))
    × (c'.attempt ≡ c.attempt)

-- What a `try` block ends with, from the events that it handed over.
abbrev TryFollows : Cursor → List AgentStreamEvent → TryResult → Type 0
TryFollows c events (done last) =
    (last ≡ max_sequence c.last_sequence events)
    × ((c.terminal_received || any is_terminal_event events) ≡ true)
TryFollows c events (failed error c') = Follows c events c'

delivered_events-deliver : (es : List AgentStreamEvent) → delivered_events (deliver es) ≡ es
unfolding deliver
delivered_events-deliver [] = refl
delivered_events-deliver (e ∷ es) = append-nil (e ∷ es)

deliver-Resumes : (last : ℕ) (es : List AgentStreamEvent) → Resumes last (deliver es)
unfolding deliver
deliver-Resumes last [] = tt
deliver-Resumes last (e ∷ es) = tt

TryFollows-advance :
    (c : Cursor) (es more : List AgentStreamEvent) (r : TryResult)
    → TryFollows (advance c es) more r
    → TryFollows c (es ++ more) r
unfolding advance
TryFollows-advance c es more (done last) (p, q) = (
  p ∙ sym (max_sequence-append c.last_sequence es more),
  ap (c.terminal_received ||◌) (any-append is_terminal_event es more)
      ∙ sym (or_assoc c.terminal_received _ _)
      ∙ q,
)
TryFollows-advance c es more (failed error c') (p, q, n) = (
  p ∙ sym (max_sequence-append c.last_sequence es more),
  q
      ∙ or_assoc c.terminal_received _ _
      ∙ ap (c.terminal_received ||◌) (sym (any-append is_terminal_event es more)),
  n,
)

-- What holds of the effects and the result of a part of the `try` block.
abbrev TryValid : Cursor → List Effect × TryResult → Type 0
TryValid c r = Resumes c.last_sequence r.0 × TryFollows c (delivered_events r.0) r.1

nothing-Follows : (c : Cursor) → Follows c [] c
unfolding max_sequence
nothing-Follows c = (refl, sym (or-false c.terminal_received), refl)

read_ending-TryValid : (c : Cursor) (ending : Ending) → TryValid c (read_ending c ending)
unfolding read_ending
read_ending-TryValid c (broken error) = (tt, nothing-Follows c)
read_ending-TryValid c (closed es) = rw (delivered_events-deliver es) (
  deliver-Resumes c.last_sequence es,
  elim (Bool-cases (c.terminal_received || any is_terminal_event es)) [
    | inl ended ↦ rw ended (refl, ended)
    | inr open_end ↦ rw open_end (refl, sym open_end, refl)
  ],
)

read_loop-TryValid :
    (c : Cursor) (reads : List (List AgentStreamEvent)) (ending : Ending)
    → TryValid c (read_loop c reads ending)
unfolding read_loop
read_loop-TryValid c [] ending = read_ending-TryValid c ending
read_loop-TryValid c (es ∷ reads) ending =
    let r = read_loop (advance c es) reads ending in
    let (resumes, follows) = read_loop-TryValid (advance c es) reads ending in
    let handed : delivered_events (deliver es ++ r.0) ≡ es ++ delivered_events r.0 =
      delivered_events-append (deliver es) r.0
      ∙ ap (λ (xs : List AgentStreamEvent). xs ++ delivered_events r.0)
          (delivered_events-deliver es) in
    (
      Resumes-append c.last_sequence (deliver es) r.0 (deliver-Resumes c.last_sequence es)
          (rw (delivered_events-deliver es) resumes),
      rw handed (TryFollows-advance c es (delivered_events r.0) r.1 follows),
    )

connect-TryValid : (c : Cursor) (n : Connection) → TryValid c (connect c n)
unfolding connect
connect-TryValid c (refused error) = ((refl, tt), nothing-Follows c)
connect-TryValid c (opened reads ending) =
    let (resumes, follows) = read_loop-TryValid c reads ending in ((refl, resumes), follows)

-- What a turn hands on: the way it leaves the function, or the cursor of the next turn.
abbrev TurnFollows : Cursor → List AgentStreamEvent → Turn → Type 0
TurnFollows c events (leave (returned last)) =
    (last ≡ max_sequence c.last_sequence events)
    × ((c.terminal_received || any is_terminal_event events) ≡ true)
TurnFollows c events (leave _) = Unit
TurnFollows c events (again c') =
    (c'.last_sequence ≡ max_sequence c.last_sequence events)
    × (c'.terminal_received ≡ (c.terminal_received || any is_terminal_event events))

-- The `catch` block hands nothing over and asks for nothing.
handle_error-quiet :
    (last : ℕ) (error : StreamError) (c : Cursor) (a : Attempt)
    → (delivered_events (handle_error error c a).0 ≡ []) × Resumes last (handle_error error c a).0
unfolding handle_error
handle_error-quiet last error c a = elim (Bool-cases (a.aborted_at_error || is_abort_error error)) [
  | inl aborted ↦ rw aborted (refl, tt)
  | inr other ↦ rw other (elim (Bool-cases (leb 5 c.attempt)) [
    | inl spent ↦ rw spent (refl, tt)
    | inr left ↦ rw left (refl, tt)
  ])
]

handle_error-TurnFollows :
    (c : Cursor) (events : List AgentStreamEvent) (error : StreamError) (c' : Cursor) (a : Attempt)
    → Follows c events c'
    → TurnFollows c events (handle_error error c' a).1
unfolding handle_error
handle_error-TurnFollows c events error c' a (p, q, n) =
    elim (Bool-cases (a.aborted_at_error || is_abort_error error)) [
      | inl aborted ↦ rw aborted tt
      | inr other ↦ rw other (elim (Bool-cases (leb 5 c'.attempt)) [
        | inl spent ↦ rw spent tt
        | inr left ↦ rw left (elim (Bool-cases a.aborted_in_delay) [
          | inl aborted ↦ rw aborted tt
          | inr waited ↦ rw waited (p, q)
        ])
      ])
    ]

after_try-quiet :
    (last : ℕ) (r : TryResult) (a : Attempt)
    → (delivered_events (after_try r a).0 ≡ []) × Resumes last (after_try r a).0
unfolding after_try
after_try-quiet last (done n) a = (refl, tt)
after_try-quiet last (failed error c) a = handle_error-quiet last error c a

after_try-TurnFollows :
    (c : Cursor) (events : List AgentStreamEvent) (r : TryResult) (a : Attempt)
    → TryFollows c events r
    → TurnFollows c events (after_try r a).1
unfolding after_try
after_try-TurnFollows c events (done last) a h = h
after_try-TurnFollows c events (failed error c') a h =
    handle_error-TurnFollows c events error c' a h

abbrev TurnValid : Cursor → List Effect × Turn → Type 0
TurnValid c t = Resumes c.last_sequence t.0 × TurnFollows c (delivered_events t.0) t.1

loop_body-TurnValid : (c : Cursor) (a : Attempt) → TurnValid c (loop_body c a)
unfolding loop_body
loop_body-TurnValid c a =
    let t = connect c a.connection in
    let (resumes, follows) = connect-TryValid c a.connection in
    let handling = (after_try t.1 a).0 in
    let (quiet, quiet') =
      after_try-quiet (max_sequence c.last_sequence (delivered_events t.0)) t.1 a in
    let handed : delivered_events (t.0 ++ handling) ≡ delivered_events t.0 =
      delivered_events-append t.0 handling
      ∙ ap (delivered_events t.0 ++◌) quiet
      ∙ append-nil (delivered_events t.0) in
    (
      Resumes-append c.last_sequence t.0 handling resumes quiet',
      rw handed (after_try-TurnFollows c (delivered_events t.0) t.1 a follows),
    )

turn-TurnValid : (c : Cursor) (a : Attempt) → TurnValid c (turn c a)
turn-TurnValid c a = go a.aborted_before refl
  where
    go : (b : Bool) → a.aborted_before ≡ b → TurnValid c (turn c a)
    go true e = unfold turn in simp e (tt, tt)
    go false e = unfold turn in simp e (loop_body-TurnValid c a)

-- What a whole run of the loop returns: the greatest number handed over, and only after a terminal
-- event.
abbrev OutcomeFollows : Cursor → List AgentStreamEvent → Outcome → Type 0
OutcomeFollows c events (returned last) =
    (last ≡ max_sequence c.last_sequence events)
    × ((c.terminal_received || any is_terminal_event events) ≡ true)
OutcomeFollows c events _ = Unit

abbrev RunValid : Cursor → List Effect × Outcome → Type 0
RunValid c r = Resumes c.last_sequence r.0 × OutcomeFollows c (delivered_events r.0) r.1

-- A run whose first turn goes on from cursor `c'`, after the events `before`.
OutcomeFollows-again :
    (c c' : Cursor) (before after : List AgentStreamEvent) (o : Outcome)
    → TurnFollows c before (again c')
    → OutcomeFollows c' after o
    → OutcomeFollows c (before ++ after) o
OutcomeFollows-again c c' before after (returned last) (p, q) (h, k) = (
  h
      ∙ ap (λ (n : ℕ). max_sequence n after) p
      ∙ sym (max_sequence-append c.last_sequence before after),
  ap (c.terminal_received ||◌) (any-append is_terminal_event before after)
      ∙ sym (or_assoc c.terminal_received _ _)
      ∙ ap (λ (b : Bool). b || any is_terminal_event after) (sym q)
      ∙ k,
)
OutcomeFollows-again c c' before after (thrown error) h k = tt
OutcomeFollows-again c c' before after waiting h k = tt

stream_agent_run-RunValid :
    (c : Cursor) (script : List Attempt) → RunValid c (stream_agent_run c script)
unfolding stream_agent_run
stream_agent_run-RunValid c [] = (tt, tt)
stream_agent_run-RunValid c (a ∷ script) =
    continue (turn c a) (turn-TurnValid c a) (λ c'. stream_agent_run-RunValid c' script)
  where
    continue :
        (t : List Effect × Turn)
        → TurnValid c t
        → ((c' : Cursor) → RunValid c' (stream_agent_run c' script))
        → RunValid c (elim t.1 [
          | leave outcome ↦ (t.0, outcome)
          | again c' ↦ let r = stream_agent_run c' script in (t.0 ++ r.0, r.1)
        ])
    continue (effects, leave (returned last)) (p, q) ih = (p, q)
    continue (effects, leave (thrown error)) (p, q) ih = (p, q)
    continue (effects, leave waiting) (p, q) ih = (p, q)
    continue (effects, again c') (p, q) ih =
        let r = stream_agent_run c' script in
        (
          Resumes-append c.last_sequence effects r.0 p
              (subst (λ (n : ℕ). Resumes n r.0) q.0 (ih c').0),
          rw (delivered_events-append effects r.0) (
              OutcomeFollows-again c c' (delivered_events effects) (delivered_events r.0) r.1 q
                (ih c').1),
        )

-- Over all connections of a stream: every request asks for the events behind the greatest sequence
-- number among `after` and those that were handed over before it.
pub start_stream-Resumes :
    (after : ℕ) (script : List Attempt) → Resumes after (start_stream after script).0
unfolding start_stream
start_stream-Resumes after script = (stream_agent_run-RunValid _ script).0

-- A stream returns only when a terminal event was handed over, and then with the greatest sequence
-- number among `after` and those of the events handed over.
pub start_stream-returned :
    (after n : ℕ) (script : List Attempt)
    → (start_stream after script).1 ≡ returned n
    → (n ≡ max_sequence after (delivered_events (start_stream after script).0))
      × (any is_terminal_event (delivered_events (start_stream after script).0) ≡ true)
unfolding start_stream
start_stream-returned after n script h =
    subst
      (OutcomeFollows (record { last_sequence = after; attempt = 0; terminal_received = false })
        (delivered_events (start_stream after script).0))
      h (stream_agent_run-RunValid _ script).1
