-- ===== src/Twin/AgentClient.antt =====
-- The twin's stream of run events: `parseSseFrames` of digitalTwinAdapters.js, which cuts and reads
-- the frames as the workbench's parser does, and `streamAgentRun` of agentWorkflowClient.js. `JSON.parse` is a parameter, and the chunks are those that the decoder
-- of UTF-8 yields. The loop runs against a list of `Connection`s, one for each turn of it; where the
-- list ends, the run is still being read.
mod Tests
pub mod Chunks
pub mod Attempts
use wind_solar_ess_agent.Base.{
  ℕ, suc, ◌+◌, ◌*◌, ◌^◌, min, Bool, true, false, ◌&&◌, ◌||◌, Option, none, some, List, [], ◌∷◌,
  ◌++◌, leb, drop, ◌==◌, if◌then◌else◌,
}
use wind_solar_ess_agent.Js.Text.{
  Text, codes, lf, replace_crlf, split_on, onto_first, starts_with, trim_start, join,
}
use wind_solar_ess_agent.Workbench.Sse.{split_blank, all_but_last, last_or_empty, parse_frames}
use wind_solar_ess_agent.Js.Json.{Json, Fields, get, truthy, to_string}

module _ (parse_json : Text → Option Json) where
  pub record Parsed : Type 0 where
    pub events : List Json
    pub remainder : Text

  -- `parseSseFrames`
  unfoldable pub parse_sse_frames : Text → Parsed
  unfolding split_blank all_but_last last_or_empty parse_frames
  parse_sse_frames buffer =
      let frames = split_blank (replace_crlf buffer) in
      record {
        events = parse_frames parse_json (all_but_last frames);
        remainder = last_or_empty frames;
      }

  -- How the reading of a connection ends: `done`, the abort of the caller, any other error with the
  -- wait behind it, or the abort of the caller in that wait.
  pub data Ending : Type 0 where
    finished aborted broken aborted_in_wait : Ending

  -- What the loop meets in a turn: whether the caller has aborted before it, the chunks that are
  -- read, and the ending. A connection that is refused has no chunks, and is broken.
  pub record Connection : Type 0 where
    pub aborted_before : Bool
    pub chunks : List Text
    pub ending : Ending

  pub data Outcome : Type 0 where
    reading : Outcome
    returned : Text → Outcome
    threw_abort threw_error : Outcome

  -- The variable `lastEventId`, the batches that were handed to `onEvents`, the event ids that the
  -- requests asked to continue from, and the waits in milliseconds, each list the newest first.
  pub record Progress : Type 0 where
    pub last_event_id : Text
    pub delivered : List (List Json)
    pub requests : List Text
    pub waits : List ℕ

  abbrev retry_delay : ℕ → ℕ
  retry_delay attempt = min 5000 (250 * 2 ^ attempt)

  -- `value.key` of a value that is not `null`.
  abbrev member : Json → Option Json
  member (Json.obj fields) = get "eventSequence" fields
  member _ = none

  abbrev sequence_or : Option Json → Text → Text
  sequence_or none last = last
  sequence_or (some value) last = if truthy (some value) then to_string value else last

  -- `lastEventId` after a batch that is not empty; `none` where its last event is `null`, whose
  -- field cannot be read.
  abbrev pub last_id_after : List Json → Text → Option Text
  last_id_after [] last = some last
  last_id_after (Json.null ∷ []) last = none
  last_id_after (event ∷ []) last = some (sequence_or (member event) last)
  last_id_after (event ∷ next ∷ events) last = last_id_after (next ∷ events) last

  abbrev delivered_to : List Json → Text → Progress → Progress
  delivered_to [] last p = p
  delivered_to (event ∷ events) last p = record p {
    last_event_id = last;
    delivered = (event ∷ events) ∷ p.delivered;
  }

  -- Whether all chunks were read, or the reading threw.
  pub record ReadEnd : Type 0 where
    pub all_read : Bool
    pub progress : Progress

  -- The inner loop.
  unfoldable pub read_chunks : List Text → Text → Progress → ReadEnd
  read_chunks [] buffer p = record { all_read = true; progress = p }
  read_chunks (chunk ∷ chunks) buffer p =
      let parsed = parse_sse_frames (buffer ++ chunk) in
      let failed : ReadEnd = record { all_read = false; progress = p } in
      elim (last_id_after parsed.events p.last_event_id) [
        | none ↦ failed
        | some last ↦ read_chunks chunks parsed.remainder (delivered_to parsed.events last p)
      ]

  abbrev pub ending_of : Bool → Ending → Ending
  ending_of true ending = ending
  ending_of false ending = broken

  abbrev pub with_request : Progress → Progress
  with_request p = record p { requests = p.last_event_id ∷ p.requests }

  abbrev pub with_wait : ℕ → Progress → Progress
  with_wait attempt p = record p { waits = retry_delay attempt ∷ p.waits }

  -- The rest of a turn of the loop, with what the turns after it give.
  abbrev pub end_turn : Ending → Bool → ℕ → Progress → Progress × Outcome → Progress × Outcome
  end_turn finished last_try attempt p again = (p, returned p.last_event_id)
  end_turn aborted last_try attempt p again = (p, threw_abort)
  end_turn broken last_try attempt p again = if last_try then (p, threw_error) else again
  end_turn aborted_in_wait last_try attempt p again =
      if last_try then (p, threw_error) else (with_wait attempt p, threw_abort)

  -- The loop of `streamAgentRun`.
  unfoldable pub stream_from : List Connection → ℕ → Progress → Progress × Outcome
  unfolding read_chunks
  stream_from [] attempt p = (p, reading)
  stream_from (c ∷ connections) attempt p =
      let end = read_chunks c.chunks [] (with_request p) in
      let again = stream_from connections (suc attempt) (with_wait attempt end.progress) in
      let turn =
        end_turn (ending_of end.all_read c.ending) (leb 5 attempt) attempt end.progress again in
      if c.aborted_before then (p, threw_abort) else turn

  abbrev pub new_progress : Text → Progress
  new_progress initial_event_id = record {
    last_event_id = initial_event_id;
    delivered = [];
    requests = [];
    waits = [];
  }

  -- `streamAgentRun`
  unfoldable pub stream_agent_run : List Connection → Text → Progress × Outcome
  unfolding stream_from
  stream_agent_run connections initial_event_id =
      stream_from connections 0 (new_progress initial_event_id)
