-- ===== src/Workbench/Markdown/Blocks.antt =====
-- The complete blocks of the received text: those of earlier lines stay when more lines come, and
-- each is a text without white space at its end.
use mathlib.Core.List.{reverse, reverse-reverse}
use wind_solar_ess_agent.Base.{
  ℕ, ◌≡◌, refl, sym, ◌∙◌, ap, Bool, false, List, [], ◌∷◌, ◌++◌, append_assoc, append-nil, arith,
  inl, inr, Bool-cases, ◌==◌, ◌&&◌, All, All-append,
}
use wind_solar_ess_agent.Js.Text.{
  Text, lf, cr, is_space, trim_start, trim_end, split_on, onto_first, replace_crlf,
}
use wind_solar_ess_agent.Workbench.Markdown.{
  Scan, new_scan, scan_line, end_block, add_line, is_boundary, scan, block_of, push_block, is_empty,
  next_fence, match_fence, lines_of, result_of, split_streaming_markdown,
}

-- The text ends with a carriage return.
abbrev pub ends_with_cr : Text → Bool
ends_with_cr [] = false
ends_with_cr (c ∷ []) = c == cr
ends_with_cr (c ∷ d ∷ t) = ends_with_cr (d ∷ t)

onto_first-append :
    (c : ℕ) (t : Text) (a b : List Text) → onto_first c ((t ∷ a) ++ b) ≡ onto_first c (t ∷ a) ++ b
onto_first-append c t a b = refl

-- A split has a first piece.
split_on-cons : (sep : ℕ) (t : Text) → (p : Text) × (ps : List Text) × (split_on sep t ≡ p ∷ ps)
unfolding split_on
split_on-cons sep [] = ([], [], refl)
split_on-cons sep (c ∷ t) = elim (Bool-cases (c == sep)) [
  | inl same ↦ ([], split_on sep t, rw same)
  | inr other ↦ let (p, ps, e) = split_on-cons sep t in (c ∷ p, ps, rw other (ap (onto_first c) e))
]

split_on-lines :
    (sep : ℕ) (a b : Text) → split_on sep (a ++ sep ∷ b) ≡ split_on sep a ++ split_on sep b
unfolding split_on
split_on-lines sep [] b = ground arith
split_on-lines sep (c ∷ a) b = elim (Bool-cases (c == sep)) [
  | inl same ↦ rw (same, split_on-lines sep a b)
  | inr other ↦ let (p, ps, e) = split_on-cons sep a in rw (other, split_on-lines sep a b, e)
]

replace_crlf-cons :
    (c : ℕ) (t : Text) → (c == cr) ≡ false → replace_crlf (c ∷ t) ≡ c ∷ replace_crlf t
unfolding replace_crlf
replace_crlf-cons c [] h = refl
replace_crlf-cons c (d ∷ t) h = rw h

ends_with_cr_rest : (c : ℕ) (t : Text) → ends_with_cr (c ∷ t) ≡ false → ends_with_cr t ≡ false
ends_with_cr_rest c [] h = refl
ends_with_cr_rest c (d ∷ t) h = h

replace_crlf-lines :
    (a b : Text)
    → ends_with_cr a ≡ false
    → replace_crlf (a ++ lf ∷ b) ≡ replace_crlf a ++ lf ∷ replace_crlf b
unfolding replace_crlf
replace_crlf-lines [] b h = replace_crlf-cons lf b refl
replace_crlf-lines (c ∷ []) b h = rw h (ap (c ∷◌) (replace_crlf-cons lf b refl))
replace_crlf-lines (c ∷ d ∷ a) b h = elim (Bool-cases (c == cr && d == lf)) [
  | inl both ↦ rw both (ap (lf ∷◌) (replace_crlf-lines a b (ends_with_cr_rest d a h)))
  | inr other ↦ rw other (ap (c ∷◌) (replace_crlf-lines (d ∷ a) b h))
]

lines_of-lines :
    (a b : Text) → ends_with_cr a ≡ false → lines_of (a ++ lf ∷ b) ≡ lines_of a ++ lines_of b
unfolding lines_of
lines_of-lines a b h =
    ap (split_on lf) (replace_crlf-lines a b h)
    ∙ split_on-lines lf (replace_crlf a) (replace_crlf b)

scan-append : (s : Scan) (a b : List Text) → scan s (a ++ b) ≡ scan (scan s a) b
unfolding scan
scan-append s [] b = refl
scan-append s (line ∷ a) b = scan-append (scan_line s line) a b

-- The second list begins with the first.
abbrev pub Extends : List Text → List Text → Type 0
Extends a b = (more : List Text) × (b ≡ a ++ more)

Extends-trans : (a b c : List Text) → Extends a b → Extends b c → Extends a c
Extends-trans a b c (p, e) (q, f) =
    (p ++ q, f ∙ ap (λ (v : List Text). v ++ q) e ∙ append_assoc a p q)

push_block-Extends : (blocks : List Text) (block : Text) → Extends blocks (push_block blocks block)
unfolding push_block
push_block-Extends blocks [] = ([], sym (append-nil blocks))
push_block-Extends blocks (c ∷ block) = ((c ∷ block) ∷ [], refl)

scan_line-Extends :
    (s : Scan) (line : Text) → Extends s.stable_blocks (scan_line s line).stable_blocks
unfolding scan_line end_block add_line
scan_line-Extends s line =
    elim (Bool-cases
      (is_boundary (next_fence s.fence_marker (match_fence (trim_start line))) line)) [
        | inl boundary ↦ rw boundary (push_block-Extends s.stable_blocks (block_of s.active_lines))
        | inr inside ↦ rw inside ([], sym (append-nil s.stable_blocks))
      ]

scan-Extends : (s : Scan) (lines : List Text) → Extends s.stable_blocks (scan s lines).stable_blocks
unfolding scan
scan-Extends s [] = ([], sym (append-nil s.stable_blocks))
scan-Extends s (line ∷ lines) =
    Extends-trans _ _ _ (scan_line-Extends s line) (scan-Extends (scan_line s line) lines)

-- The complete blocks of a text that does not end with a carriage return are, in their order, the
-- first complete blocks of every text that goes on from it with a line end and anything behind. (A
-- block that the line end itself completes need not stay, and is not among the former.)
pub split_streaming_markdown-Extends :
    (received more : Text)
    → ends_with_cr received ≡ false
    → Extends
        (split_streaming_markdown received).stable_blocks
        (split_streaming_markdown (received ++ lf ∷ more)).stable_blocks
unfolding split_streaming_markdown result_of
split_streaming_markdown-Extends received more h =
    rw (lines_of-lines received more h, scan-append new_scan (lines_of received) (lines_of more))
      (scan-Extends (scan new_scan (lines_of received)) (lines_of more))

trim_start-trim_start : (t : Text) → trim_start (trim_start t) ≡ trim_start t
unfolding trim_start
trim_start-trim_start [] = refl
trim_start-trim_start (c ∷ t) = elim (Bool-cases (is_space c)) [
  | inl space ↦ rw space (trim_start-trim_start t)
  | inr other ↦ rw (other, other)
]

trim_end-trim_end : (t : Text) → trim_end (trim_end t) ≡ trim_end t
unfolding trim_end
trim_end-trim_end t =
    ap (λ r. reverse (trim_start r)) (reverse-reverse (trim_start (reverse t)))
    ∙ ap reverse (trim_start-trim_start (reverse t))

-- A text that is not empty and has no white space at its end.
abbrev pub IsBlock : Text → Type 0
IsBlock t = (is_empty t ≡ false) × (trim_end t ≡ t)

push_block-IsBlock :
    (blocks : List Text) (block : Text)
    → trim_end block ≡ block
    → All IsBlock blocks
    → All IsBlock (push_block blocks block)
unfolding push_block
push_block-IsBlock blocks [] trimmed h = h
push_block-IsBlock blocks (c ∷ block) trimmed h =
    All-append IsBlock blocks ((c ∷ block) ∷ []) h ((refl, trimmed), tt)

scan_line-IsBlock :
    (s : Scan) (line : Text)
    → All IsBlock s.stable_blocks
    → All IsBlock (scan_line s line).stable_blocks
unfolding scan_line end_block add_line block_of
scan_line-IsBlock s line h =
    elim (Bool-cases
      (is_boundary (next_fence s.fence_marker (match_fence (trim_start line))) line)) [
        | inl boundary ↦
            rw boundary
              (push_block-IsBlock s.stable_blocks (block_of s.active_lines) (trim_end-trim_end _) h)
        | inr inside ↦ rw inside h
      ]

scan-IsBlock :
    (s : Scan) (lines : List Text)
    → All IsBlock s.stable_blocks
    → All IsBlock (scan s lines).stable_blocks
unfolding scan
scan-IsBlock s [] h = h
scan-IsBlock s (line ∷ lines) h = scan-IsBlock (scan_line s line) lines (scan_line-IsBlock s line h)

-- Every complete block is a text that is not empty and has no white space at its end.
split_streaming_markdown-IsBlock :
    (source : Text) → All IsBlock (split_streaming_markdown source).stable_blocks
unfolding split_streaming_markdown result_of
split_streaming_markdown-IsBlock source = scan-IsBlock new_scan (lines_of source) tt
