-- ===== src/Twin/AgentClient/Chunks.antt =====
-- A stream that is cut into chunks (the inner loop of `streamAgentRun`, with `parseSseFrames`).
use wind_solar_ess_agent.Base.{
  ℕ, ◌≡◌, refl, sym, ap, ◌∙◌, true, false, ◌&&◌, List, [], ◌∷◌, ◌++◌, arith, ◌==◌, inl, inr,
  Bool-cases, Option-cases, All, All-append, append_assoc, append-nil, length, length-append,
  Option, none, some,
}
use wind_solar_ess_agent.Js.Text.{Text, lf, cr, replace_crlf, onto_first}
use wind_solar_ess_agent.Js.Json.{Json}
use wind_solar_ess_agent.Workbench.Sse.{
  split_blank, all_but_last, last_or_empty, parse_frame, parse_frames,
}
use wind_solar_ess_agent.Workbench.Sse.LineEnds.{normalize, normalize-plain, IsNormal}
use wind_solar_ess_agent.Workbench.Sse.Frames.{frames, remainder, frames-append}
use wind_solar_ess_agent.Twin.AgentClient.{
  Progress, ReadEnd, parse_sse_frames, read_chunks, last_id_after, delivered_to,
}

-- A text with no carriage return.
abbrev NoCr : Text → Type 0
NoCr t = All (λ c. (c == cr) ≡ false) t

NoCr-IsNormal : (t : Text) → NoCr t → IsNormal t
NoCr-IsNormal [] h = tt
NoCr-IsNormal (c ∷ []) h = tt
NoCr-IsNormal (c ∷ d ∷ s) (p, h) = (p, NoCr-IsNormal (d ∷ s) h)

normalize-NoCr : (t : Text) → NoCr t → normalize t ≡ t
unfolding normalize
normalize-NoCr [] h = refl
normalize-NoCr (c ∷ s) (p, h) = normalize-plain c s p ∙ ap (c ∷◌) (normalize-NoCr s h)

replace_crlf-NoCr : (t : Text) → NoCr t → replace_crlf t ≡ t
unfolding replace_crlf
replace_crlf-NoCr [] h = refl
replace_crlf-NoCr (c ∷ []) h = refl
replace_crlf-NoCr (c ∷ d ∷ s) (p, h) = rw p (ap (c ∷◌) (replace_crlf-NoCr (d ∷ s) h))

-- Every piece of a split has no carriage return.
All-onto_first :
    (c : ℕ) (pieces : List Text)
    → (c == cr) ≡ false
    → All NoCr pieces
    → All NoCr (onto_first c pieces)
All-onto_first c [] p h = ((p, tt), tt)
All-onto_first c (piece ∷ pieces) p (q, h) = ((p, q), h)

All-split_blank : (t : Text) → NoCr t → All NoCr (split_blank t)
unfolding split_blank
All-split_blank [] h = (tt, tt)
All-split_blank (c ∷ []) (p, h) = ((p, tt), tt)
All-split_blank (c ∷ d ∷ s) (p, (q, h)) = elim (Bool-cases (c == lf && d == lf)) [
  | inl blank ↦ rw blank (tt, All-split_blank s h)
  | inr other ↦ rw other (All-onto_first c (split_blank (d ∷ s)) p (All-split_blank (d ∷ s) (q, h)))
]

NoCr-last_or_empty : (pieces : List Text) → All NoCr pieces → NoCr (last_or_empty pieces)
unfolding last_or_empty
NoCr-last_or_empty [] h = tt
NoCr-last_or_empty (piece ∷ []) (p, h) = p
NoCr-last_or_empty (piece ∷ next ∷ pieces) (p, h) = NoCr-last_or_empty (next ∷ pieces) h

append_self : (xs ys : List Json) → xs ≡ xs ++ ys → ys ≡ []
append_self xs [] e = refl
append_self xs (y ∷ ys) e = absurd (omega (arith, ap length e, length-append xs (y ∷ ys)))

module _ (parse_json : Text → Option Json) where
  parse_frames-append :
      (xs ys : List Text)
      → parse_frames parse_json (xs ++ ys)
        ≡ parse_frames parse_json xs ++ parse_frames parse_json ys
  unfolding parse_frames
  parse_frames-append [] ys = refl
  parse_frames-append (x ∷ xs) ys =
      ap (parse_frame parse_json x ++◌) (parse_frames-append xs ys)
      ∙ sym (append_assoc (parse_frame parse_json x) (parse_frames parse_json xs) _)

  remainder-NoCr : (t : Text) → NoCr t → NoCr (parse_sse_frames parse_json t).remainder
  unfolding parse_sse_frames
  remainder-NoCr t h =
      rw (replace_crlf-NoCr t h) (NoCr-last_or_empty (split_blank t) (All-split_blank t h))

  events-NoCr :
      (t : Text)
      → NoCr t
      → (parse_sse_frames parse_json t).events ≡ parse_frames parse_json (frames t)
  unfolding parse_sse_frames frames
  events-NoCr t h = rw (replace_crlf-NoCr t h)

  remainder_NoCr_lem : (t : Text) → NoCr t → (parse_sse_frames parse_json t).remainder ≡ remainder t
  unfolding parse_sse_frames remainder
  remainder_NoCr_lem t h = rw (replace_crlf-NoCr t h)

  -- The events of a text are those of its first part, then those of what is left with the rest.
  parse_sse_frames-append :
      (n t : Text)
      → NoCr n
      → NoCr t
      → let first = parse_sse_frames parse_json n in
        (parse_sse_frames parse_json (n ++ t)).events
        ≡ first.events ++ (parse_sse_frames parse_json (first.remainder ++ t)).events
  parse_sse_frames-append n t h k =
      let r = (parse_sse_frames parse_json n).remainder in
      let plain : NoCr (r ++ t) = All-append _ r t (remainder-NoCr n h) k in
      let same : r ≡ remainder n = remainder_NoCr_lem n h in
      let pf = parse_frames parse_json in
      events-NoCr (n ++ t) (All-append _ n t h k)
      ∙ ap (λ (u : Text). pf (frames u)) (sym (normalize-NoCr (n ++ t) (All-append _ n t h k)))
      ∙ ap pf (frames-append n t (NoCr-IsNormal n h))
      ∙ parse_frames-append (frames n) (frames (normalize (remainder n ++ t)))
      ∙ ap (λ (u : Text). pf (frames n) ++ pf (frames (normalize (u ++ t)))) (sym same)
      ∙ ap (λ (u : Text). pf (frames n) ++ pf (frames u)) (normalize-NoCr (r ++ t) plain)
      ∙ ap (pf (frames n) ++◌) (sym (events-NoCr (r ++ t) plain))
      ∙ ap (λ (es : List Json). es ++ (parse_sse_frames parse_json (r ++ t)).events)
          (sym (events-NoCr n h))

  -- The chunks of a connection in one text.
  abbrev pub joined : List Text → Text
  joined [] = []
  joined (chunk ∷ chunks) = chunk ++ joined chunks

  joined-NoCr : (chunks : List Text) → All NoCr chunks → NoCr (joined chunks)
  joined-NoCr [] h = tt
  joined-NoCr (chunk ∷ chunks) (p, h) = All-append _ chunk (joined chunks) p (joined-NoCr chunks h)

  -- The events of batches, the newest batch first.
  abbrev pub all_events : List (List Json) → List Json
  all_events [] = []
  all_events (batch ∷ batches) = all_events batches ++ batch

  all_events-delivered_to :
      (events : List Json) (last : Text) (p : Progress parse_json)
      → all_events (delivered_to parse_json events last p).delivered
        ≡ all_events p.delivered ++ events
  all_events-delivered_to [] last p = sym (append-nil (all_events p.delivered))
  all_events-delivered_to (event ∷ events) last p = refl

  -- What is left of a text holds no whole frame.
  events-remainder :
      (t : Text)
      → NoCr t
      → (parse_sse_frames parse_json (parse_sse_frames parse_json t).remainder).events ≡ []
  events-remainder t h =
      let events_of = λ (u : Text). (parse_sse_frames parse_json u).events in
      let r = (parse_sse_frames parse_json t).remainder in
      append_self (events_of t) (events_of r) (
        ap events_of (sym (append-nil t))
        ∙ parse_sse_frames-append t [] h tt
        ∙ ap (λ (u : Text). events_of t ++ events_of u) (append-nil r))

  -- One turn of the inner loop.
  read_chunks-readable :
      (chunk : Text) (chunks : List Text) (buffer : Text) (p : Progress parse_json) (last : Text)
      → let parsed = parse_sse_frames parse_json (buffer ++ chunk) in
        last_id_after parse_json parsed.events p.last_event_id ≡ some last
        → read_chunks parse_json (chunk ∷ chunks) buffer p
          ≡ read_chunks parse_json chunks parsed.remainder
              (delivered_to parse_json parsed.events last p)
  unfolding read_chunks
  read_chunks-readable chunk chunks buffer p last h = rw (h, read_chunks)

  read_chunks-unreadable :
      (chunk : Text) (chunks : List Text) (buffer : Text) (p : Progress parse_json)
      → let parsed = parse_sse_frames parse_json (buffer ++ chunk) in
        last_id_after parse_json parsed.events p.last_event_id ≡ none
        → (read_chunks parse_json (chunk ∷ chunks) buffer p).all_read ≡ false
  unfolding read_chunks
  read_chunks-unreadable chunk chunks buffer p h = rw (h, read_chunks)

  read_chunks-append :
      (chunks : List Text) (buffer : Text) (p : Progress parse_json)
      → All NoCr chunks
      → NoCr buffer
      → (parse_sse_frames parse_json buffer).events ≡ []
      → (read_chunks parse_json chunks buffer p).all_read ≡ true
      → all_events (read_chunks parse_json chunks buffer p).progress.delivered
        ≡ all_events p.delivered ++ (parse_sse_frames parse_json (buffer ++ joined chunks)).events
  unfolding read_chunks
  read_chunks-append [] buffer p h k empty read =
      sym (append-nil (all_events p.delivered))
      ∙ ap (all_events p.delivered ++◌) (sym empty)
      ∙ ap (λ (u : Text). all_events p.delivered ++ (parse_sse_frames parse_json u).events)
          (sym (append-nil buffer))
  read_chunks-append (chunk ∷ chunks) buffer p (plain, h) k empty read =
      let parsed = parse_sse_frames parse_json (buffer ++ chunk) in
      let whole : NoCr (buffer ++ chunk) = All-append _ buffer chunk k plain in
      let rest = (parse_sse_frames parse_json (parsed.remainder ++ joined chunks)).events in
      elim (Option-cases (last_id_after parse_json parsed.events p.last_event_id)) [
        | inl unreadable ↦ cc (read, read_chunks-unreadable chunk chunks buffer p unreadable)
        | inr (last, readable) ↦
            let next = delivered_to parse_json parsed.events last p in
            let turn = read_chunks-readable chunk chunks buffer p last readable in
            ap (λ (e : ReadEnd parse_json). all_events e.progress.delivered) turn
            ∙ read_chunks-append chunks parsed.remainder next h
                (remainder-NoCr (buffer ++ chunk) whole) (events-remainder (buffer ++ chunk) whole)
                (ap (λ (e : ReadEnd parse_json). e.all_read) (sym turn) ∙ read)
            ∙ ap (λ (es : List Json). es ++ rest) (all_events-delivered_to parsed.events last p)
            ∙ append_assoc (all_events p.delivered) parsed.events rest
            ∙ ap (all_events p.delivered ++◌) (
                sym (
                  parse_sse_frames-append (buffer ++ chunk) (joined chunks) whole
                    (joined-NoCr chunks h)))
            ∙ ap (λ (u : Text). all_events p.delivered ++ (parse_sse_frames parse_json u).events)
                (append_assoc buffer chunk (joined chunks))
      ]

  -- However a connection is cut into chunks, what is handed over in it are the events of all its
  -- text in one piece, each once and in their order, where the reading does not throw and the text
  -- has no carriage return.
  pub read_chunks-joined :
      (chunks : List Text) (p : Progress parse_json)
      → All NoCr chunks
      → (read_chunks parse_json chunks [] p).all_read ≡ true
      → all_events (read_chunks parse_json chunks [] p).progress.delivered
        ≡ all_events p.delivered ++ (parse_sse_frames parse_json (joined chunks)).events
  read_chunks-joined chunks p h read =
      read_chunks-append chunks [] p h tt
        (unfold parse_sse_frames split_blank replace_crlf all_but_last parse_frames in refl) read
