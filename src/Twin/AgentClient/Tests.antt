-- ===== src/Twin/AgentClient/Tests.antt =====
-- A stream of two frames in three chunks, after a connection that broke.
use wind_solar_ess_agent.Base.{
  ◌⊎◌, ◌≤◌, ◌≡◌, refl, true, false, Option, none, some, List, [], ◌∷◌, ◌++◌, length, arith,
}
use wind_solar_ess_agent.Js.Text.{
  Text, codes, replace_crlf, split_on, starts_with, trim_start, is_space, join, decimal,
}
use wind_solar_ess_agent.Js.Json.{Json, Fields, get, to_string}
use wind_solar_ess_agent.Workbench.Sse.{
  split_blank, all_but_last, last_or_empty, parse_frames, parse_frame, frame_data, data_lines,
}
use wind_solar_ess_agent.Twin.AgentClient.{
  Connection, returned, finished, broken, parse_sse_frames, read_chunks, stream_from,
  stream_agent_run, new_progress,
}
use wind_solar_ess_agent.Twin.AgentClient.Chunks.{all_events, joined, read_chunks-joined}
use wind_solar_ess_agent.Twin.AgentClient.Attempts.{sum, is_over, stream_agent_run_bounds}

-- It reads a digit as an event with this number.
abbrev parse_digit : Text → Option Json
parse_digit (c ∷ []) = some (Json.obj (Fields.field "eventSequence" (Json.num c) Fields.end))
parse_digit _ = none

abbrev chunks : List Text
chunks = codes "data: 1\n\nda" ∷ codes "ta: 2\n" ∷ codes "\n" ∷ []

abbrev connections : List (Connection parse_digit)
connections =
    record { aborted_before = false; chunks = []; ending = broken }
    ∷ record { aborted_before = false; chunks = chunks; ending = finished }
    ∷ []

stream_of_two : (stream_agent_run parse_digit connections (codes "0")).1 ≡ returned (codes "50")
unfolding stream_agent_run stream_from read_chunks parse_sse_frames split_blank all_but_last
    last_or_empty parse_frames parse_frame frame_data data_lines replace_crlf split_on starts_with
    trim_start is_space join get to_string decimal
stream_of_two = refl

stream_agent_run_bounds_example :
    let result = stream_agent_run parse_digit connections (codes "0") in
    (length result.0.requests ≤ 6)
    × (sum result.0.waits ≤ 7750)
    × ((is_over parse_digit result.1 ≡ true) ⊎ (length connections ≤ 5))
stream_agent_run_bounds_example = stream_agent_run_bounds parse_digit connections (codes "0")

all_are_read :
    (read_chunks parse_digit chunks [] (new_progress parse_digit (codes "0"))).all_read ≡ true
unfolding read_chunks parse_sse_frames split_blank all_but_last last_or_empty parse_frames
    parse_frame frame_data data_lines replace_crlf split_on starts_with trim_start is_space join
all_are_read = refl

read_chunks-joined_example :
    let p = new_progress parse_digit (codes "0") in
    all_events parse_digit (read_chunks parse_digit chunks [] p).progress.delivered
    ≡ all_events parse_digit [] ++ (parse_sse_frames parse_digit (joined parse_digit chunks)).events
read_chunks-joined_example =
    read_chunks-joined parse_digit chunks (new_progress parse_digit (codes "0")) (ground arith)
      all_are_read
