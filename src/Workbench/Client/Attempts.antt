-- ===== src/Workbench/Client/Attempts.antt =====
-- How often and how long `streamAgentRun` tries: it ends within six connections.
use wind_solar_ess_agent.Base.{
  ℕ, zero, suc, ◌+◌, ◌≤◌, ◌<◌, ◌≡◌, ◌≢◌, refl, inl, inr, Bool, true, false, ◌||◌, List, [], ◌∷◌,
  ◌++◌, arith, Bool-cases, leb, length, subst,
}
use wind_solar_ess_agent.Workbench.Contracts.{AgentStreamEvent}
use wind_solar_ess_agent.Workbench.Client.{
  StreamError, Ending, closed, broken, Connection, refused, opened, Attempt, Effect,
  ConnectionState, connected, state_changed, requested, delivered, delayed, Outcome, returned,
  waiting, Cursor, advance, deliver, TryResult, done, failed, read_ending, read_loop, connect, Turn,
  leave, again, is_abort_error, handle_error, after_try, loop_body, turn, retry_delay,
  opening_state, stream_agent_run, start_stream,
}

-- The number of requests.
abbrev pub requests : List Effect → ℕ
requests [] = 0
requests (requested n ∷ effects) = suc (requests effects)
requests (_ ∷ effects) = requests effects

-- The milliseconds of all delays.
abbrev pub total_delay : List Effect → ℕ
total_delay [] = 0
total_delay (delayed n ∷ effects) = n + total_delay effects
total_delay (_ ∷ effects) = total_delay effects

requests-append : (xs ys : List Effect) → requests (xs ++ ys) ≡ requests xs + requests ys
requests-append [] ys = omega arith
requests-append (requested n ∷ xs) ys = omega (arith, requests-append xs ys)
requests-append (state_changed s ∷ xs) ys = requests-append xs ys
requests-append (delivered es ∷ xs) ys = requests-append xs ys
requests-append (delayed n ∷ xs) ys = requests-append xs ys

total_delay-append :
    (xs ys : List Effect) → total_delay (xs ++ ys) ≡ total_delay xs + total_delay ys
total_delay-append [] ys = omega arith
total_delay-append (delayed n ∷ xs) ys = omega (arith, total_delay-append xs ys)
total_delay-append (state_changed s ∷ xs) ys = total_delay-append xs ys
total_delay-append (requested n ∷ xs) ys = total_delay-append xs ys
total_delay-append (delivered es ∷ xs) ys = total_delay-append xs ys

deliver-quiet :
    (es : List AgentStreamEvent) → (requests (deliver es) ≡ 0) × (total_delay (deliver es) ≡ 0)
unfolding deliver
deliver-quiet [] = (refl, refl)
deliver-quiet (e ∷ es) = (refl, refl)

-- A `try` block neither asks again nor waits, and leaves the count of attempts as it is.
abbrev Quiet : Cursor → List Effect × TryResult → Type 0
Quiet c (effects, done n) = (requests effects ≡ 0) × (total_delay effects ≡ 0)
Quiet c (effects, failed error c') =
    (requests effects ≡ 0) × (total_delay effects ≡ 0) × (c'.attempt ≡ c.attempt)

read_ending-Quiet : (c : Cursor) (ending : Ending) → Quiet c (read_ending c ending)
unfolding read_ending advance
read_ending-Quiet c (broken error) = (refl, refl, refl)
read_ending-Quiet c (closed es) =
    let (q, q') = deliver-quiet es in
    let c' = advance c es in
    elim (Bool-cases c'.terminal_received) [
      | inl ended ↦ rw ended (q, q')
      | inr open_end ↦ rw open_end (q, q', refl)
    ]

Quiet-deliver :
    (c : Cursor) (es : List AgentStreamEvent) (r : List Effect × TryResult)
    → Quiet (advance c es) r
    → Quiet c (deliver es ++ r.0, r.1)
unfolding advance
Quiet-deliver c es (effects, done n) (p, q) = (
  omega (arith, requests-append (deliver es) effects, (deliver-quiet es).0),
  omega (arith, total_delay-append (deliver es) effects, (deliver-quiet es).1),
)
Quiet-deliver c es (effects, failed error c') (p, q, n) = (
  omega (arith, requests-append (deliver es) effects, (deliver-quiet es).0),
  omega (arith, total_delay-append (deliver es) effects, (deliver-quiet es).1),
  n,
)

read_loop-Quiet :
    (c : Cursor) (reads : List (List AgentStreamEvent)) (ending : Ending)
    → Quiet c (read_loop c reads ending)
unfolding read_loop
read_loop-Quiet c [] ending = read_ending-Quiet c ending
read_loop-Quiet c (es ∷ reads) ending =
    Quiet-deliver c es (read_loop (advance c es) reads ending)
      (read_loop-Quiet (advance c es) reads ending)

-- What the delays from the given attempt on add up to.
abbrev budget : ℕ → ℕ
budget zero = 7750
budget (suc zero) = 7500
budget (suc (suc zero)) = 7000
budget (suc (suc (suc zero))) = 6000
budget (suc (suc (suc (suc zero)))) = 4000
budget (suc (suc (suc (suc (suc n))))) = 0

retry_delay-budget : (n : ℕ) → n < 5 → retry_delay (n + 1) + budget (suc n) ≡ budget n
unfolding retry_delay
retry_delay-budget zero h = refl
retry_delay-budget (suc zero) h = refl
retry_delay-budget (suc (suc zero)) h = refl
retry_delay-budget (suc (suc (suc zero))) h = refl
retry_delay-budget (suc (suc (suc (suc zero)))) h = refl
retry_delay-budget (suc (suc (suc (suc (suc n))))) h = absurd (omega arith)

-- What a turn may do, by the way it ends, when `n` attempts have failed before it.
abbrev TurnBounds : ℕ → List Effect × Turn → Type 0
TurnBounds n (effects, leave outcome) =
    (requests effects ≤ 1) × (total_delay effects ≤ budget n) × (outcome ≢ waiting)
TurnBounds n (effects, again c') =
    (requests effects ≤ 1)
    × (total_delay effects + budget (suc n) ≡ budget n)
    × (c'.attempt ≡ suc n)
    × (n < 5)

handle_error-TurnBounds :
    (error : StreamError) (c : Cursor) (a : Attempt) → TurnBounds c.attempt (handle_error error c a)
unfolding handle_error
handle_error-TurnBounds error c a = elim (Bool-cases (a.aborted_at_error || is_abort_error error)) [
  | inl aborted ↦ rw aborted (omega arith, omega arith, λ e. cc)
  | inr other ↦ rw other (elim (Bool-cases (leb 5 c.attempt)) [
    | inl spent ↦ rw spent (omega arith, omega arith, λ e. cc)
    | inr left ↦
        let few : c.attempt < 5 = ground arith in
        let sum = retry_delay-budget c.attempt few in
        rw left (elim (Bool-cases a.aborted_in_delay) [
          | inl aborted ↦ rw aborted (omega arith, omega (arith, sum), λ e. cc)
          | inr waited ↦ rw waited (omega arith, omega (arith, sum), omega arith, few)
        ])
  ])
]

handle_error-requests :
    (error : StreamError) (c : Cursor) (a : Attempt) → requests (handle_error error c a).0 ≡ 0
unfolding handle_error
handle_error-requests error c a = elim (Bool-cases (a.aborted_at_error || is_abort_error error)) [
  | inl aborted ↦ rw aborted
  | inr other ↦
      rw other (elim (Bool-cases (leb 5 c.attempt)) [ inl spent ↦ rw spent | inr left ↦ rw left ])
]

TurnBounds-append :
    (n : ℕ) (before effects : List Effect) (t : Turn)
    → requests before ≤ 1
    → total_delay before ≡ 0
    → requests effects ≡ 0
    → TurnBounds n (effects, t)
    → TurnBounds n (before ++ effects, t)
TurnBounds-append n before effects (leave o) h k l (p, q, r) = (
  omega (arith, requests-append before effects),
  omega (arith, total_delay-append before effects),
  r,
)
TurnBounds-append n before effects (again c') h k l (p, q, m, few) = (
  omega (arith, requests-append before effects),
  omega (arith, total_delay-append before effects),
  m,
  few,
)

-- The `try` block asks once, and does not wait.
abbrev AsksOnce : Cursor → List Effect × TryResult → Type 0
AsksOnce c (effects, done n) = (requests effects ≤ 1) × (total_delay effects ≡ 0)
AsksOnce c (effects, failed error c') =
    (requests effects ≤ 1) × (total_delay effects ≡ 0) × (c'.attempt ≡ c.attempt)

connect-AsksOnce : (c : Cursor) (n : Connection) → AsksOnce c (connect c n)
unfolding connect
connect-AsksOnce c (refused error) = (omega arith, refl, refl)
connect-AsksOnce c (opened reads ending) =
    one_more (read_loop c reads ending) (read_loop-Quiet c reads ending)
  where
    one_more :
        (r : List Effect × TryResult)
        → Quiet c r
        → AsksOnce c (requested c.last_sequence ∷ state_changed connected ∷ r.0, r.1)
    one_more (effects, done n) (p, q) = (omega arith, q)
    one_more (effects, failed error c') (p, q, n) = (omega arith, q, n)

after_try-TurnBounds :
    (c : Cursor) (r : List Effect × TryResult) (a : Attempt)
    → AsksOnce c r
    → TurnBounds c.attempt (r.0 ++ (after_try r.1 a).0, (after_try r.1 a).1)
unfolding after_try
after_try-TurnBounds c (effects, done n) a (p, q) =
    TurnBounds-append c.attempt effects [] (leave (returned n)) p q refl
      (omega arith, omega arith, λ e. cc)
after_try-TurnBounds c (effects, failed error c') a (p, q, same) =
    let t = handle_error error c' a in
    TurnBounds-append c.attempt effects t.0 t.1 p q (handle_error-requests error c' a)
      (subst (λ (n : ℕ). TurnBounds n t) same (handle_error-TurnBounds error c' a))

TurnBounds-state :
    (n : ℕ) (s : ConnectionState) (effects : List Effect) (t : Turn)
    → TurnBounds n (effects, t)
    → TurnBounds n (state_changed s ∷ effects, t)
TurnBounds-state n s effects (leave o) h = h
TurnBounds-state n s effects (again c') h = h

loop_body-TurnBounds : (c : Cursor) (a : Attempt) → TurnBounds c.attempt (loop_body c a)
unfolding loop_body
loop_body-TurnBounds c a =
    let t = connect c a.connection in
    let handled = after_try t.1 a in
    TurnBounds-state c.attempt (opening_state c.attempt) (t.0 ++ handled.0) handled.1
      (after_try-TurnBounds c (connect c a.connection) a (connect-AsksOnce c a.connection))

turn-TurnBounds : (c : Cursor) (a : Attempt) → TurnBounds c.attempt (turn c a)
turn-TurnBounds c a = go a.aborted_before refl
  where
    go : (b : Bool) → a.aborted_before ≡ b → TurnBounds c.attempt (turn c a)
    go true e = unfold turn in simp e (omega arith, omega arith, λ h. cc)
    go false e = unfold turn in simp e (loop_body-TurnBounds c a)

-- What a run may do when `n` attempts have failed before it.
abbrev RunBounds : ℕ → ℕ → List Effect × Outcome → Type 0
RunBounds n attempts r =
    (requests r.0 + n ≤ 6) × (total_delay r.0 ≤ budget n) × (6 ≤ n + attempts → r.1 ≢ waiting)

stream_agent_run-RunBounds :
    (c : Cursor) (script : List Attempt)
    → c.attempt ≤ 5
    → RunBounds c.attempt (length script) (stream_agent_run c script)
unfolding stream_agent_run
stream_agent_run-RunBounds c [] h = (omega arith, omega arith, λ k. absurd (omega arith))
stream_agent_run-RunBounds c (a ∷ script) h =
    continue (turn c a) (turn-TurnBounds c a) (λ c'. stream_agent_run-RunBounds c' script)
  where
    continue :
        (t : List Effect × Turn)
        → TurnBounds c.attempt t
        → ((c' : Cursor)
            → c'.attempt ≤ 5
            → RunBounds c'.attempt (length script) (stream_agent_run c' script))
        → RunBounds c.attempt (suc (length script)) (elim t.1 [
          | leave outcome ↦ (t.0, outcome)
          | again c' ↦ let r = stream_agent_run c' script in (t.0 ++ r.0, r.1)
        ])
    continue (effects, leave o) (p, q, r) ih = (omega arith, q, λ k. r)
    continue (effects, again c') (p, q, n, few) ih =
        let r = stream_agent_run c' script in
        let bounds : RunBounds (suc c.attempt) (length script) r =
          subst (λ (k : ℕ). RunBounds k (length script) r) n (ih c' (omega arith)) in
        (
          omega (arith, requests-append effects r.0, bounds.0),
          omega (arith, total_delay-append effects r.0, bounds.1),
          λ k. bounds.2 (omega arith),
        )

-- Whatever the network does, a stream makes at most six requests and waits at most 7750 ms in all.
pub start_stream_bounds :
    (after : ℕ) (script : List Attempt)
    → (requests (start_stream after script).0 ≤ 6)
      × (total_delay (start_stream after script).0 ≤ 7750)
unfolding start_stream
start_stream_bounds after script =
    let bounds =
      stream_agent_run-RunBounds
        (record { last_sequence = after; attempt = 0; terminal_received = false }) script
        (omega arith) in
    (omega (arith, bounds.0), bounds.1)

-- Once six connections have ended, the stream has returned or thrown.
pub start_stream_ends :
    (after : ℕ) (script : List Attempt)
    → 6 ≤ length script
    → (start_stream after script).1 ≢ waiting
unfolding start_stream
start_stream_ends after script h =
    (stream_agent_run-RunBounds
        (record { last_sequence = after; attempt = 0; terminal_received = false }) script
        (omega arith)).2
      (omega arith)
