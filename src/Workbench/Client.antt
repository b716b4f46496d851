-- ===== src/Workbench/Client.antt =====
-- `streamAgentRun` of agent-stream-client.ts: the loop that reads the event stream of a run and
-- connects again when the stream breaks. The network, the abort signal and the timer are the script
-- that the loop runs against: one `Attempt` for each turn of the loop.
pub mod Resume
pub mod Attempts
mod Tests
use wind_solar_ess_agent.Base.{
  ℕ, ◌+◌, ◌-◌, ◌*◌, ◌^◌, Bool, true, false, ◌||◌, List, [], ◌∷◌, ◌++◌, leb, if◌then◌else◌, any, min,
  max,
}
use wind_solar_ess_agent.Js.Text.{Text}
use wind_solar_ess_agent.Workbench.Contracts.{AgentStreamEventType, AgentStreamEvent}

-- What is thrown: an `AbortError`, any other error of the network or the gateway with its message,
-- or the error of a stream that closed before a terminal event.
pub data StreamError : Type 0 where
  abort_error : StreamError
  failure : Text → StreamError
  closed_early : StreamError

-- How a connection ends: `read` reports `done`, and `finish` yields these events; or `read` rejects.
pub data Ending : Type 0 where
  closed : List AgentStreamEvent → Ending
  broken : StreamError → Ending

-- `fetch` rejects, the response is no success or has no body; or the stream opens, and each `read`
-- yields the events of a chunk.
pub data Connection : Type 0 where
  refused : StreamError → Connection
  opened : List (List AgentStreamEvent) → Ending → Connection

pub record Attempt : Type 0 where
  -- `signal.aborted` at the loop's test, at the handler's, and during its delay
  pub aborted_before : Bool
  pub connection : Connection
  pub aborted_at_error : Bool
  pub aborted_in_delay : Bool

pub data ConnectionState : Type 0 where
  connecting connected reconnecting : ConnectionState

-- What the loop does to the outside, in order.
pub data Effect : Type 0 where
  state_changed : ConnectionState → Effect
  requested : ℕ → Effect
  delivered : List AgentStreamEvent → Effect
  delayed : ℕ → Effect

pub data Outcome : Type 0 where
  returned : ℕ → Outcome
  thrown : StreamError → Outcome
  waiting : Outcome

-- The variables of the loop.
pub record Cursor : Type 0 where
  pub last_sequence : ℕ
  pub attempt : ℕ
  pub terminal_received : Bool

pub is_terminal_event : AgentStreamEvent → Bool
is_terminal_event event = elim event.type [
  | AgentStreamEventType.run_completed ↦ true
  | AgentStreamEventType.run_cancelled ↦ true
  | AgentStreamEventType.error ↦ true
  | _ ↦ false
]

-- `Math.max(lastSequence, ...events.map((event) => event.sequence))`
pub max_sequence : ℕ → List AgentStreamEvent → ℕ
max_sequence last [] = last
max_sequence last (event ∷ events) = max_sequence (max last event.sequence) events

-- The three statements under `if (events.length)`.
pub advance : Cursor → List AgentStreamEvent → Cursor
unfolding max_sequence is_terminal_event
advance c events = record c {
  last_sequence = max_sequence c.last_sequence events;
  terminal_received = c.terminal_received || any is_terminal_event events;
}

pub deliver : List AgentStreamEvent → List Effect
deliver [] = []
deliver (event ∷ events) = delivered (event ∷ events) ∷ []

-- How the `try` block ends: by `return`, or by an error with the variables as they are then.
pub data TryResult : Type 0 where
  done : ℕ → TryResult
  failed : StreamError → Cursor → TryResult

pub read_ending : Cursor → Ending → List Effect × TryResult
unfolding advance deliver
read_ending c (closed final_events) =
    let c' = advance c final_events in
    (
      deliver final_events,
      if c'.terminal_received then done c'.last_sequence else failed closed_early c',
    )
read_ending c (broken error) = ([], failed error c)

-- The inner loop.
pub read_loop : Cursor → List (List AgentStreamEvent) → Ending → List Effect × TryResult
unfolding read_ending
read_loop c [] ending = read_ending c ending
read_loop c (events ∷ reads) ending =
    let (effects, result) = read_loop (advance c events) reads ending in
    (deliver events ++ effects, result)

-- The `try` block, from the request on.
pub connect : Cursor → Connection → List Effect × TryResult
unfolding read_loop
connect c (refused error) = (requested c.last_sequence ∷ [], failed error c)
connect c (opened reads ending) =
    let (effects, result) = read_loop c reads ending in
    (requested c.last_sequence ∷ state_changed connected ∷ effects, result)

pub is_abort_error : StreamError → Bool
is_abort_error abort_error = true
is_abort_error _ = false

-- `Math.min(5_000, 250 * 2 ** (attempt - 1))`
pub retry_delay : ℕ → ℕ
retry_delay attempt = min 5000 (250 * 2 ^ (attempt - 1))

-- `options.onConnectionState?.(attempt ? "reconnecting" : "connecting")`
pub opening_state : ℕ → ConnectionState
opening_state attempt = if leb attempt 0 then connecting else reconnecting

-- How a turn of the outer loop ends: the function is left, or the loop goes on.
pub data Turn : Type 0 where
  leave : Outcome → Turn
  again : Cursor → Turn

-- The `catch` block, up to its end.
pub handle_error : StreamError → Cursor → Attempt → List Effect × Turn
unfolding is_abort_error retry_delay
handle_error error c a =
    if a.aborted_at_error || is_abort_error error
    then ([], leave (thrown error))
    else if leb 5 c.attempt
    then ([], leave (thrown error))
    else (
      state_changed reconnecting ∷ delayed (retry_delay (c.attempt + 1)) ∷ [],
      if a.aborted_in_delay
          then leave (thrown abort_error)
          else again (record c { attempt = c.attempt + 1 }),
    )

pub after_try : TryResult → Attempt → List Effect × Turn
unfolding handle_error
after_try (done last) a = ([], leave (returned last))
after_try (failed error c) a = handle_error error c a

-- The body of the outer loop.
pub loop_body : Cursor → Attempt → List Effect × Turn
unfolding connect after_try opening_state
loop_body c a =
    let (effects, result) = connect c a.connection in
    let (handling, next) = after_try result a in
    (state_changed (opening_state c.attempt) ∷ (effects ++ handling), next)

-- One turn of the outer loop. Where the signal is aborted the loop ends, and the function throws.
pub turn : Cursor → Attempt → List Effect × Turn
unfolding loop_body
turn c a = if a.aborted_before then ([], leave (thrown abort_error)) else loop_body c a

-- The outer loop. Where the script ends, the run is still being read.
pub stream_agent_run : Cursor → List Attempt → List Effect × Outcome
unfolding turn
stream_agent_run c [] = ([], waiting)
stream_agent_run c (a ∷ script) =
    let (effects, next) = turn c a in
    elim next [
      | leave outcome ↦ (effects, outcome)
      | again c' ↦ let (rest, outcome) = stream_agent_run c' script in (effects ++ rest, outcome)
    ]

-- `streamAgentRun(options)`, with `options.afterSequence ?? 0`.
unfoldable pub start_stream : ℕ → List Attempt → List Effect × Outcome
unfolding stream_agent_run
start_stream after_sequence script =
    stream_agent_run
      (record { last_sequence = after_sequence; attempt = 0; terminal_received = false }) script
