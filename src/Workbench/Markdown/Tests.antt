-- ===== src/Workbench/Markdown/Tests.antt =====
-- The split on inputs like those of markdown-blocks.test.ts, and its theorems at such inputs.
use wind_solar_ess_agent.Base.{◌≡◌, refl, [], ◌∷◌, ◌++◌}
use wind_solar_ess_agent.Js.Text.{
  codes, lf, is_space, trim, trim_start, trim_end, split_on, join, replace_crlf,
}
use wind_solar_ess_agent.Workbench.Markdown.{
  scan_line, end_block, add_line, is_boundary, scan, block_of, push_block, next_fence, match_fence,
  run, lines_of, result_of, split_streaming_markdown,
}
use wind_solar_ess_agent.Workbench.Markdown.Content.{
  visible, visible_all, visible-split_streaming_markdown,
}
use wind_solar_ess_agent.Workbench.Markdown.Blocks.{Extends, split_streaming_markdown-Extends}

keeps_open_fence :
    split_streaming_markdown (codes "an:\n\n```py\nv = 1\n\nprint(v)")
    ≡ record { stable_blocks = codes "an:" ∷ []; active_block = codes "```py\nv = 1\n\nprint(v)" }
unfolding split_streaming_markdown result_of lines_of scan scan_line end_block add_line is_boundary
    block_of push_block next_fence match_fence run is_space trim trim_start trim_end split_on join
    replace_crlf
keeps_open_fence = refl

promotes_closed_fence :
    split_streaming_markdown (codes "```text\nA\n\nB\n```\n\nend")
    ≡ record { stable_blocks = codes "```text\nA\n\nB\n```" ∷ []; active_block = codes "end" }
unfolding split_streaming_markdown result_of lines_of scan scan_line end_block add_line is_boundary
    block_of push_block next_fence match_fence run is_space trim trim_start trim_end split_on join
    replace_crlf
promotes_closed_fence = refl

-- One line end makes the paragraph in front of it a complete block, and the next line takes it back.
promoted_by_line_end : (split_streaming_markdown (codes "a\n")).stable_blocks ≡ codes "a" ∷ []
unfolding split_streaming_markdown result_of lines_of scan scan_line end_block add_line is_boundary
    block_of push_block next_fence match_fence run is_space trim trim_start trim_end split_on join
    replace_crlf
promoted_by_line_end = refl

taken_back : (split_streaming_markdown (codes "a\nb")).stable_blocks ≡ []
unfolding split_streaming_markdown result_of lines_of scan scan_line end_block add_line is_boundary
    block_of push_block next_fence match_fence run is_space trim trim_start trim_end split_on join
    replace_crlf
taken_back = refl

visible-split_streaming_markdown_example :
    visible_all (
      (split_streaming_markdown (codes "a b\n\nc")).stable_blocks
      ++ (split_streaming_markdown (codes "a b\n\nc")).active_block ∷ [])
    ≡ visible (codes "a b\n\nc")
visible-split_streaming_markdown_example = visible-split_streaming_markdown (codes "a b\n\nc")

split_streaming_markdown-Extends_example :
    Extends
      (split_streaming_markdown (codes "a\n\nb")).stable_blocks
      (split_streaming_markdown (codes "a\n\nb" ++ lf ∷ codes "c")).stable_blocks
split_streaming_markdown-Extends_example =
    split_streaming_markdown-Extends (codes "a\n\nb") (codes "c") refl
