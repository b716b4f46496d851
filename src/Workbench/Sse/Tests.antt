-- ===== src/Workbench/Sse/Tests.antt =====
-- The parser on the inputs of agent-sse-parser.test.ts, over ASCII, and its theorem at such inputs.
use wind_solar_ess_agent.Base.{
  ℕ, ◌≡◌, refl, Option, none, some, List, [], ◌∷◌, ◌++◌, true, false, ◌==◌,
}
use wind_solar_ess_agent.Js.Text.{
  Text, codes, starts_with, split_on, trim_start, trim, is_space, cr, lf,
}
use wind_solar_ess_agent.Workbench.Sse.{
  Decoder, parse_frame, parse_frames, new_parser, push, finish, replace_crlf, replace_inner_cr,
  replace_all_cr, split_blank, last_or_empty, all_but_last,
}
use wind_solar_ess_agent.Workbench.Sse.Chunks.{push_all, joined, push_all-joined}

-- The decoder of ASCII, which has nothing to remember.
abbrev ascii : Decoder
ascii = record {
  State = Unit {0};
  start = tt;
  decode = λ st chunk. (chunk, tt);
  flush = λ st. ([], tt);
  decode-append_text = λ st xs ys. refl;
  decode-append_state = λ st xs ys. refl;
}

-- An event is the text of its data; a text that begins with "{" parses.
abbrev raw : Text → Option Text
raw [] = none
raw (c ∷ t) = elim (c == b'{') [ true ↦ some (c ∷ t) | false ↦ none ]

abbrev first_chunk : List ℕ
first_chunk = codes "data: {1}" ++ (cr ∷ lf ∷ cr ∷ [])

abbrev second_chunk : List ℕ
second_chunk = lf ∷ codes "data: {2}\n\nevent: x\n\n: keep"

crlf_between_chunks :
    (push_all ascii raw (new_parser ascii) (first_chunk ∷ second_chunk ∷ [])).0
    ≡ codes "{1}" ∷ codes "{2}" ∷ []
unfolding push_all push new_parser replace_crlf replace_inner_cr split_blank all_but_last
    last_or_empty parse_frames starts_with split_on trim_start is_space
crlf_between_chunks = refl

flushes_last_frame :
    (finish ascii raw (record { decoder = tt; buffer = codes "data: {3}" })).0 ≡ codes "{3}" ∷ []
unfolding finish replace_all_cr parse_frame starts_with split_on trim_start trim is_space
flushes_last_frame = refl

push_all-joined_example :
    push_all ascii raw (new_parser ascii) (first_chunk ∷ second_chunk ∷ [])
    ≡ push ascii raw (new_parser ascii) (joined first_chunk (second_chunk ∷ []))
push_all-joined_example =
    push_all-joined ascii raw (new_parser ascii) first_chunk (second_chunk ∷ [])
