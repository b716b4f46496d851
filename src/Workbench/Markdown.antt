-- ===== src/Workbench/Markdown.antt =====
-- `splitStreamingMarkdown` of markdown-blocks.ts: the received text as blocks that are complete and
-- one that is still growing.
pub mod Content
pub mod Blocks
mod Tests
use wind_solar_ess_agent.Base.{
  ℕ, Bool, true, false, ◌==◌, ◌&&◌, leb, List, [], ◌∷◌, ◌++◌, length, if◌then◌else◌,
}
use wind_solar_ess_agent.Js.Text.{
  Text, lf, trim, trim_start, trim_end, split_on, join, replace_crlf,
}

-- The result of the function, and, between two lines, its variables.
pub record StreamingMarkdownBlocks : Type 0 where
  pub stable_blocks : List Text
  pub active_block : Text

pub record Scan : Type 0 where
  pub stable_blocks : List Text
  pub active_lines : List Text
  pub fence_marker : Text

-- The longest prefix of `t` that consists of `c`.
pub run : ℕ → Text → Text
run c [] = []
run c (d ∷ t) = let more = run c t in if d == c then d ∷ more else []

-- ``/^(`{3,}|~{3,})/`` on a text that is trimmed at its start; no match is the empty marker.
pub match_fence : Text → Text
unfolding run
match_fence t =
    if leb 3 (length (run b'`' t))
    then run b'`' t
    else if leb 3 (length (run b'~' t))
    then run b'~' t
    else []

-- What the marker of a line does to the open fence.
pub next_fence : Text → Text → Text
next_fence fence [] = fence
next_fence [] (m ∷ marker) = m ∷ marker
next_fence (f ∷ fence) (m ∷ marker) =
    if m == f && leb (length (f ∷ fence)) (length (m ∷ marker)) then [] else f ∷ fence

abbrev pub is_empty : Text → Bool
is_empty [] = true
is_empty (c ∷ t) = false

-- `activeLines.join("\n").trimEnd()`
pub block_of : List Text → Text
block_of lines = trim_end (join (lf ∷ []) lines)

-- `if (block) stableBlocks.push(block)`
pub push_block : List Text → Text → List Text
push_block blocks block = if is_empty block then blocks else blocks ++ block ∷ []

-- A blank line outside of a fence ends the block.
pub is_boundary : Text → Text → Bool
is_boundary fence line = is_empty fence && is_empty (trim line)

pub end_block : Scan → Text → Scan
unfolding push_block block_of
end_block s fence = record {
  stable_blocks = push_block s.stable_blocks (block_of s.active_lines);
  active_lines = [];
  fence_marker = fence;
}

pub add_line : Scan → Text → Text → Scan
add_line s fence line = record {
  stable_blocks = s.stable_blocks;
  active_lines = s.active_lines ++ line ∷ [];
  fence_marker = fence;
}

-- The body of the loop.
pub scan_line : Scan → Text → Scan
unfolding next_fence match_fence is_boundary end_block add_line
scan_line s line =
    let fence = next_fence s.fence_marker (match_fence (trim_start line)) in
    if is_boundary fence line then end_block s fence else add_line s fence line

pub scan : Scan → List Text → Scan
unfolding scan_line
scan s [] = s
scan s (line ∷ lines) = scan (scan_line s line) lines

abbrev pub new_scan : Scan
new_scan = record { stable_blocks = []; active_lines = []; fence_marker = [] }

-- `source.replace(/\r\n/g, "\n").split("\n")`
pub lines_of : Text → List Text
lines_of source = split_on lf (replace_crlf source)

pub result_of : Scan → StreamingMarkdownBlocks
unfolding block_of
result_of s = record { stable_blocks = s.stable_blocks; active_block = block_of s.active_lines }

pub split_streaming_markdown : Text → StreamingMarkdownBlocks
unfolding scan lines_of result_of
split_streaming_markdown source = result_of (scan new_scan (lines_of source))
