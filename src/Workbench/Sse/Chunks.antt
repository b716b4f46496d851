-- ===== src/Workbench/Sse/Chunks.antt =====
-- How the network cuts the event stream into chunks does not matter (class `AgentSseParser`).
use wind_solar_ess_agent.Base.{
  ℕ, ◌≡◌, refl, sym, ◌∙◌, ap, Option, List, [], ◌∷◌, ◌++◌, append-nil, append_assoc,
}
use wind_solar_ess_agent.Js.Text.{Text}
use wind_solar_ess_agent.Workbench.Sse.{Decoder, parse_frame, parse_frames, Parser, push}
use wind_solar_ess_agent.Workbench.Sse.LineEnds.{
  normalize, normalize-append, normalize-IsNormal, replace-eq-normalize,
}
use wind_solar_ess_agent.Workbench.Sse.Frames.{frames, remainder, frames-append, remainder-append}

-- The bytes of a stream in one piece.
abbrev pub joined : List ℕ → List (List ℕ) → List ℕ
joined chunk [] = chunk
joined chunk (next ∷ chunks) = chunk ++ joined next chunks

module _ {A : Type 0} (json_parse : Text → Option A) where
  parse_frames-append :
      (xs ys : List Text)
      → parse_frames json_parse (xs ++ ys)
        ≡ parse_frames json_parse xs ++ parse_frames json_parse ys
  unfolding parse_frames
  parse_frames-append [] ys = refl
  parse_frames-append (x ∷ xs) ys =
      ap (parse_frame json_parse x ++◌) (parse_frames-append xs ys)
      ∙ sym (append_assoc (parse_frame json_parse x) _ _)

module _ (d : Decoder) {A : Type 0} (json_parse : Text → Option A) where
  -- The buffer with the text of a chunk behind it, its line ends normal.
  abbrev filled : Parser d → Text → Text
  filled p t = normalize (p.buffer ++ t)

  -- `push`, by way of the one pass over the line ends.
  push_events :
      (p : Parser d) (chunk : List ℕ)
      → (push d json_parse p chunk).0
        ≡ parse_frames json_parse (frames (filled p (d.decode p.decoder chunk).0))
  unfolding push frames
  push_events p chunk = rw replace-eq-normalize

  push_buffer :
      (p : Parser d) (chunk : List ℕ)
      → (push d json_parse p chunk).1.buffer ≡ remainder (filled p (d.decode p.decoder chunk).0)
  unfolding push remainder
  push_buffer p chunk = rw replace-eq-normalize

  push_decoder :
      (p : Parser d) (chunk : List ℕ)
      → (push d json_parse p chunk).1.decoder ≡ (d.decode p.decoder chunk).1
  unfolding push
  push_decoder p chunk = refl

  -- The buffer after two chunks whose texts are `t` and `u`.
  filled-append : (p : Parser d) (t u : Text) → filled p (t ++ u) ≡ normalize (filled p t ++ u)
  filled-append p t u =
      ap normalize (sym (append_assoc p.buffer t u)) ∙ sym (normalize-append (p.buffer ++ t) u)

  -- To push two chunks one after the other gives the events, the buffer and the decoder that to
  -- push them as one chunk gives.
  push-append :
      (p : Parser d) (xs ys : List ℕ)
      → push d json_parse p (xs ++ ys) ≡ (
        (push d json_parse p xs).0 ++ (push d json_parse (push d json_parse p xs).1 ys).0,
        (push d json_parse (push d json_parse p xs).1 ys).1,
      )
  push-append p xs ys =
      let q = (push d json_parse p xs).1 in
      let t = (d.decode p.decoder xs).0 in
      let u = (d.decode (d.decode p.decoder xs).1 ys).0 in
      let n = filled p t in
      let n-IsNormal = normalize-IsNormal (p.buffer ++ t) in
      let whole : filled p (d.decode p.decoder (xs ++ ys)).0 ≡ normalize (n ++ u) =
        ap (filled p) (d.decode-append_text p.decoder xs ys) ∙ filled-append p t u in
      let rest : filled q (d.decode q.decoder ys).0 ≡ normalize (remainder n ++ u) =
        λ i. normalize (push_buffer p xs i ++ (d.decode (push_decoder p xs i) ys).0) in
      let events : (push d json_parse p (xs ++ ys)).0
          ≡ (push d json_parse p xs).0 ++ (push d json_parse q ys).0 =
        push_events p (xs ++ ys)
        ∙ ap (λ (s : Text). parse_frames json_parse (frames s)) whole
        ∙ ap (parse_frames json_parse) (frames-append n u n-IsNormal)
        ∙ parse_frames-append json_parse (frames n) (frames (normalize (remainder n ++ u)))
        ∙ sym (λ i.
          push_events p xs i
          ++ (push_events q ys ∙ ap (λ (s : Text). parse_frames json_parse (frames s)) rest) i) in
      let buffer : (push d json_parse p (xs ++ ys)).1.buffer ≡ (push d json_parse q ys).1.buffer =
        push_buffer p (xs ++ ys)
        ∙ ap remainder whole
        ∙ remainder-append n u n-IsNormal
        ∙ sym (push_buffer q ys ∙ ap remainder rest) in
      let decoder : (push d json_parse p (xs ++ ys)).1.decoder
          ≡ (push d json_parse q ys).1.decoder =
        push_decoder p (xs ++ ys)
        ∙ d.decode-append_state p.decoder xs ys
        ∙ sym (push_decoder q ys ∙ (λ i. (d.decode (push_decoder p xs i) ys).1)) in
      λ i. (events i, record { decoder = decoder i; buffer = buffer i })

  -- The chunks of a stream, pushed one by one, with the events in order.
  unfoldable pub push_all : Parser d → List (List ℕ) → List A × Parser d
  push_all p [] = ([], p)
  push_all p (chunk ∷ chunks) =
      let (events, q) = push d json_parse p chunk in
      let (more, r) = push_all q chunks in (events ++ more, r)

  -- However a stream is cut into chunks, at line ends and within characters too, the events, the
  -- buffer and the decoder at its end are those of the stream in one chunk.
  pub push_all-joined :
      (p : Parser d) (chunk : List ℕ) (chunks : List (List ℕ))
      → push_all p (chunk ∷ chunks) ≡ push d json_parse p (joined chunk chunks)
  unfolding push_all
  push_all-joined p chunk [] =
      λ i. (append-nil (push d json_parse p chunk).0 i, (push d json_parse p chunk).1)
  push_all-joined p chunk (next ∷ chunks) =
      let q = (push d json_parse p chunk).1 in
      let ih = push_all-joined q next chunks in
      (λ i. ((push d json_parse p chunk).0 ++ (ih i).0, (ih i).1))
      ∙ sym (push-append p chunk (joined next chunks))
