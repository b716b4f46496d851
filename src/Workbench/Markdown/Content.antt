-- ===== src/Workbench/Markdown/Content.antt =====
-- The split of the received text loses nothing but white space, and keeps the order.
use mathlib.Core.List.{reverse, reverse-cons, reverse-reverse}
use wind_solar_ess_agent.Base.{
  ℕ, ◌≡◌, refl, sym, ◌∙◌, ap, true, List, [], ◌∷◌, ◌++◌, append_assoc, append-nil, arith, inl, inr,
  Bool-cases, if◌then◌else◌, ◌==◌, ◌&&◌,
}
use wind_solar_ess_agent.Js.Text.{
  Text, lf, cr, is_space, trim, trim_start, trim_end, split_on, onto_first, join, replace_crlf,
}
use wind_solar_ess_agent.Workbench.Markdown.{
  Scan, new_scan, scan_line, end_block, add_line, is_boundary, scan, block_of, push_block, is_empty,
  next_fence, match_fence, lines_of, result_of, split_streaming_markdown,
}

-- The text without its white space and line ends.
abbrev pub visible : Text → Text
visible [] = []
visible (c ∷ t) = if is_space c then visible t else c ∷ visible t

-- The visible characters of some texts, in order.
abbrev pub visible_all : List Text → Text
visible_all [] = []
visible_all (t ∷ texts) = visible t ++ visible_all texts

visible-append : (a b : Text) → visible (a ++ b) ≡ visible a ++ visible b
visible-append [] b = refl
visible-append (c ∷ a) b = elim (Bool-cases (is_space c)) [
  | inl space ↦ rw space (visible-append a b)
  | inr other ↦ rw other (ap (c ∷◌) (visible-append a b))
]

visible_all-append : (a b : List Text) → visible_all (a ++ b) ≡ visible_all a ++ visible_all b
visible_all-append [] b = refl
visible_all-append (t ∷ a) b =
    ap (visible t ++◌) (visible_all-append a b)
    ∙ sym (append_assoc (visible t) (visible_all a) (visible_all b))

visible-trim_start : (t : Text) → visible (trim_start t) ≡ visible t
unfolding trim_start
visible-trim_start [] = refl
visible-trim_start (c ∷ t) = elim (Bool-cases (is_space c)) [
  | inl space ↦ rw space (visible-trim_start t)
  | inr other ↦ rw (other, other)
]

visible-reverse : (t : Text) → visible (reverse t) ≡ reverse (visible t)
visible-reverse [] = refl
visible-reverse (c ∷ t) =
    rw (reverse-cons c t, visible-append (reverse t) (c ∷ []), visible-reverse t)
      (elim (Bool-cases (is_space c)) [
        | inl space ↦ rw space (append-nil (reverse (visible t)))
        | inr other ↦ rw other (sym (reverse-cons c (visible t)))
      ])

visible-trim_end : (t : Text) → visible (trim_end t) ≡ visible t
unfolding trim_end
visible-trim_end t =
    visible-reverse (trim_start (reverse t))
    ∙ ap reverse (visible-trim_start (reverse t) ∙ visible-reverse t)
    ∙ reverse-reverse (visible t)

visible-join : (lines : List Text) → visible (join (lf ∷ []) lines) ≡ visible_all lines
unfolding join is_space
visible-join [] = refl
visible-join (line ∷ []) = sym (append-nil (visible line))
visible-join (line ∷ next ∷ rest) =
    visible-append line (lf ∷ join (lf ∷ []) (next ∷ rest))
    ∙ ap (visible line ++◌) (visible-join (next ∷ rest))

visible-block_of : (lines : List Text) → visible (block_of lines) ≡ visible_all lines
unfolding block_of
visible-block_of lines = visible-trim_end (join (lf ∷ []) lines) ∙ visible-join lines

visible_all-onto_first :
    (c : ℕ) (pieces : List Text)
    → visible_all (onto_first c pieces) ≡ visible (c ∷ []) ++ visible_all pieces
visible_all-onto_first c [] = refl
visible_all-onto_first c (t ∷ pieces) =
    ap (λ (v : Text). v ++ visible_all pieces) (visible-append (c ∷ []) t)
    ∙ append_assoc (visible (c ∷ [])) (visible t) (visible_all pieces)

lf-eq : (c : ℕ) → (c == lf) ≡ true → c ≡ lf
lf-eq c h = ground arith

visible_all-split_on : (t : Text) → visible_all (split_on lf t) ≡ visible t
unfolding split_on is_space
visible_all-split_on [] = refl
visible_all-split_on (c ∷ t) = elim (Bool-cases (c == lf)) [
  | inl same ↦ rw (same, lf-eq c same) (visible_all-split_on t)
  | inr other ↦ rw other (
      visible_all-onto_first c (split_on lf t)
      ∙ ap (visible (c ∷ []) ++◌) (visible_all-split_on t)
      ∙ sym (visible-append (c ∷ []) t))
]

crlf-eq : (c d : ℕ) → (c == cr && d == lf) ≡ true → (c ≡ cr) × (d ≡ lf)
crlf-eq c d h = ground arith

visible-replace_crlf : (t : Text) → visible (replace_crlf t) ≡ visible t
unfolding replace_crlf is_space
visible-replace_crlf [] = refl
visible-replace_crlf (c ∷ []) = refl
visible-replace_crlf (c ∷ d ∷ t) = elim (Bool-cases (c == cr && d == lf)) [
  | inl both ↦ let (c_cr, d_lf) = crlf-eq c d both in rw (both, c_cr, d_lf) (visible-replace_crlf t)
  | inr other ↦ rw other (
      visible-append (c ∷ []) (replace_crlf (d ∷ t))
      ∙ ap (visible (c ∷ []) ++◌) (visible-replace_crlf (d ∷ t))
      ∙ sym (visible-append (c ∷ []) (d ∷ t)))
]

visible-blank : (line : Text) → is_empty (trim line) ≡ true → visible line ≡ []
unfolding trim
visible-blank line h =
    sym (visible-trim_start line) ∙ sym (visible-trim_end (trim_start line)) ∙ empty _ h
  where
    empty : (t : Text) → is_empty t ≡ true → visible t ≡ []
    empty [] h = refl
    empty (c ∷ t) h = cc

visible_all-push_block :
    (blocks : List Text) (block : Text)
    → visible_all (push_block blocks block) ≡ visible_all blocks ++ visible block
unfolding push_block
visible_all-push_block blocks [] = sym (append-nil (visible_all blocks))
visible_all-push_block blocks (c ∷ block) =
    visible_all-append blocks ((c ∷ block) ∷ [])
    ∙ ap (visible_all blocks ++◌) (append-nil (visible (c ∷ block)))

-- What a scan has taken in so far.
abbrev taken : Scan → Text
taken s = visible_all s.stable_blocks ++ visible_all s.active_lines

taken-end_block : (s : Scan) (fence : Text) → taken (end_block s fence) ≡ taken s
unfolding end_block
taken-end_block s fence =
    append-nil _
    ∙ visible_all-push_block s.stable_blocks (block_of s.active_lines)
    ∙ ap (visible_all s.stable_blocks ++◌) (visible-block_of s.active_lines)

taken-add_line :
    (s : Scan) (fence line : Text) → taken (add_line s fence line) ≡ taken s ++ visible line
unfolding add_line
taken-add_line s fence line =
    ap (visible_all s.stable_blocks ++◌) (
      visible_all-append s.active_lines (line ∷ [])
      ∙ ap (visible_all s.active_lines ++◌) (append-nil (visible line)))
    ∙ sym (append_assoc (visible_all s.stable_blocks) (visible_all s.active_lines) (visible line))

is_boundary-blank :
    (fence line : Text) → is_boundary fence line ≡ true → is_empty (trim line) ≡ true
unfolding is_boundary
is_boundary-blank fence line h = ground arith

taken-scan_line : (s : Scan) (line : Text) → taken (scan_line s line) ≡ taken s ++ visible line
unfolding scan_line
taken-scan_line s line =
    let fence = next_fence s.fence_marker (match_fence (trim_start line)) in
    elim (Bool-cases (is_boundary fence line)) [
      | inl boundary ↦
          rw (boundary, visible-blank line (is_boundary-blank fence line boundary))
            (taken-end_block s fence ∙ sym (append-nil (taken s)))
      | inr inside ↦ rw inside (taken-add_line s fence line)
    ]

taken-scan : (s : Scan) (lines : List Text) → taken (scan s lines) ≡ taken s ++ visible_all lines
unfolding scan
taken-scan s [] = sym (append-nil (taken s))
taken-scan s (line ∷ lines) =
    taken-scan (scan_line s line) lines
    ∙ ap (λ (v : Text). v ++ visible_all lines) (taken-scan_line s line)
    ∙ append_assoc (taken s) (visible line) (visible_all lines)

-- The blocks of a text, the complete ones first and the growing one last, have together its
-- characters in their order, up to white space and line ends.
pub visible-split_streaming_markdown :
    (source : Text)
    → visible_all (
        (split_streaming_markdown source).stable_blocks
        ++ (split_streaming_markdown source).active_block ∷ [])
      ≡ visible source
unfolding split_streaming_markdown result_of lines_of
visible-split_streaming_markdown source =
    let s = scan new_scan (lines_of source) in
    visible_all-append s.stable_blocks (block_of s.active_lines ∷ [])
    ∙ ap (visible_all s.stable_blocks ++◌)
        (append-nil (visible (block_of s.active_lines)) ∙ visible-block_of s.active_lines)
    ∙ taken-scan new_scan (lines_of source)
    ∙ visible_all-split_on (replace_crlf source)
    ∙ visible-replace_crlf source
