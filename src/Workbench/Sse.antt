-- ===== src/Workbench/Sse.antt =====
-- sse-parser.ts: the parser of the event stream. It is generic in what `JSON.parse` yields for the
-- data of a frame (`none` where it throws), and takes the browser's `TextDecoder` as an interface.
-- Children: line ends (LineEnds), the cut into frames (Frames), chunks of the network (Chunks).
pub mod LineEnds
pub mod Frames
pub mod Chunks
mod Tests
unfoldable pub use wind_solar_ess_agent.Js.Text.{replace_crlf}
use wind_solar_ess_agent.Base.{
  ℕ, ◌≡◌, Bool, true, false, ◌&&◌, Option, none, some, List, [], ◌∷◌, ◌++◌, map, ◌==◌,
  if◌then◌else◌, drop,
}
use wind_solar_ess_agent.Js.Text.{
  Text, codes, lf, cr, trim, trim_start, starts_with, split_on, join, onto_first,
}

-- A streaming `TextDecoder`: `decode st chunk` is `decode(chunk, { stream: true })`, `flush st` is
-- `decode()`, which also resets the decoder. By its documentation the pieces of a stream decode
-- to the pieces of its text.
pub record Decoder : Type 1 where
  pub State : Type 0
  pub start : State
  pub decode : State → List ℕ → Text × State
  pub flush : State → Text × State
  pub decode-append_text :
      (st : State) (xs ys : List ℕ)
      → (decode st (xs ++ ys)).0 ≡ (decode st xs).0 ++ (decode (decode st xs).1 ys).0
  pub decode-append_state :
      (st : State) (xs ys : List ℕ) → (decode st (xs ++ ys)).1 ≡ (decode (decode st xs).1 ys).1

-- `replace(/\r(?!$)/g, "\n")`
pub replace_inner_cr : Text → Text
replace_inner_cr [] = []
replace_inner_cr (c ∷ []) = c ∷ []
replace_inner_cr (c ∷ d ∷ s) = (if c == cr then lf else c) ∷ replace_inner_cr (d ∷ s)

-- `replace(/\r\n?/g, "\n")`
pub replace_all_cr : Text → Text
replace_all_cr [] = []
replace_all_cr (c ∷ []) = (if c == cr then lf else c) ∷ []
replace_all_cr (c ∷ d ∷ s) =
    let skip = replace_all_cr s in
    let keep = replace_all_cr (d ∷ s) in
    if c == cr && d == lf then lf ∷ skip else (if c == cr then lf else c) ∷ keep

-- `split("\n\n")`
unfoldable pub split_blank : Text → List Text
split_blank [] = [] ∷ []
split_blank (c ∷ []) = (c ∷ []) ∷ []
split_blank (c ∷ d ∷ s) =
    let after = split_blank s in
    let here = onto_first c (split_blank (d ∷ s)) in if c == lf && d == lf then [] ∷ after else here

-- `frames.pop() ?? ""`, and what it leaves in `frames`.
unfoldable pub last_or_empty : List Text → Text
last_or_empty [] = []
last_or_empty (frame ∷ []) = frame
last_or_empty (frame ∷ next ∷ frames) = last_or_empty (next ∷ frames)

unfoldable pub all_but_last : List Text → List Text
all_but_last [] = []
all_but_last (frame ∷ []) = []
all_but_last (frame ∷ next ∷ frames) = frame ∷ all_but_last (next ∷ frames)

-- The lines of a frame that carry data.
unfoldable pub data_lines : List Text → List Text
data_lines [] = []
data_lines (line ∷ lines) =
    if starts_with (codes "data:") line
    then trim_start (drop 5 line) ∷ data_lines lines
    else data_lines lines

unfoldable pub frame_data : Text → Text
unfolding data_lines join
frame_data frame = join (lf ∷ []) (data_lines (split_on lf frame))

module _ {A : Type 0} (json_parse : Text → Option A) where
  unfoldable pub parse_frame : Text → List A
  unfolding frame_data
  parse_frame frame = elim (frame_data frame) [
    | [] ↦ []
    | c ∷ text ↦ elim (json_parse (c ∷ text)) [ none ↦ [] | some event ↦ event ∷ [] ]
  ]

  unfoldable pub parse_frames : List Text → List A
  unfolding parse_frame
  parse_frames [] = []
  parse_frames (frame ∷ frames) = parse_frame frame ++ parse_frames frames

module _ (d : Decoder) where
  pub record Parser : Type 0 where
    pub decoder : d.State
    pub buffer : Text

  pub new_parser : Parser
  new_parser = record { decoder = d.start; buffer = [] }

  module _ {A : Type 0} (json_parse : Text → Option A) where
    pub push : Parser → List ℕ → List A × Parser
    push p chunk =
        let (text, decoder) = d.decode p.decoder chunk in
        let frames = split_blank (replace_inner_cr (replace_crlf (p.buffer ++ text))) in
        (
          parse_frames json_parse (all_but_last frames),
          record { decoder = decoder; buffer = last_or_empty frames },
        )

    pub finish : Parser → List A × Parser
    finish p =
        let (text, decoder) = d.flush p.decoder in
        let frame = replace_all_cr (p.buffer ++ text) in
        elim (trim frame) [
          | [] ↦ ([], record { decoder = decoder; buffer = frame })
          | _ ∷ _ ↦ (parse_frame json_parse frame, record { decoder = decoder; buffer = [] })
        ]
