-- ===== src/Tests/Edit.antt =====
-- A file of three lines and a patch of it (src/common/tools/tool_edit_file.cpp).
use llama_onprem_server.Prelude.{
  ℕ, ◌≡◌, refl, true, false, List, [], ◌∷◌, ◌++◌, none, some, Bytes, codes, bytes_eq, pos,
  if◌then◌else◌, length, ◌≤◌, arith, All, starts_with, find_byte, back_is, has_byte,
}
use llama_onprem_server.Edit.{PatchLine, Hunk, Span, ok}
use llama_onprem_server.Edit.Diff.{
  max_tool_output_chars, diff_header, diff_loop, sort_ascending, insert_ascending, hunk_text,
  range_text, emit, next_start, format_diff,
}
use llama_onprem_server.Prelude.Decimal.{to_string, digits_of}
use llama_onprem_server.Edit.Diff.Shown.{IsShown, IsShownSpan}
use llama_onprem_server.Edit.Header.{
  is_digit, digits_loop, read_int, skip_spaces, read_count, parse_hunk_header, without_marker,
  before_tab, without_quotes, header_path, same_target, without_side, ends_with,
}
use llama_onprem_server.Edit.Parse.{
  close_hunk, open_hunk, hunk_line, old_header, new_header, outside_line, parse_line, parse_loop,
  finish_parse, parse_patch,
}
use llama_onprem_server.Edit.Parse.Rows.{hunks_of}
use llama_onprem_server.Edit.Parse.RoundTrip.{IsPath}
use llama_onprem_server.Edit.Diff.RoundTrip.{parse_patch-format_diff}
use llama_onprem_server.Edit.Diff.Rows.{diff_printed}
use llama_onprem_server.Edit.File.{
  Failures, Files, put_file, write_atomic, updated_body, write_spans, write_placed, edit_opened,
  edit_parsed, edit_file, change_file,
}
use llama_onprem_server.Edit.File.Body.{IsBodyOf, edit_file-Effect}
use llama_onprem_server.Edit.File.Effect.{Effect}
use llama_onprem_server.Edit.Lines.{
  split_loop, split_lines, join_loop, join_lines, strip_cr, patch_loop, patch_lines,
}
use llama_onprem_server.Edit.Match.{
  side, old_side, new_side, match_loop, lines_match, locate_step, locate_loop, locate_hunk,
  ranges_overlap,
}
use llama_onprem_server.Edit.Match.Closest.{Answers, locate_hunk-Answers}
use llama_onprem_server.Edit.Spans.{
  place_hunk, place_found, changed, leading, without_tail, overlaps_any, add_span, place_loop,
  insert_span, sort_spans, apply_span, apply_loop, apply_spans,
}
use llama_onprem_server.Edit.Spans.Apart.{IsPlaced, place_loop-IsPlaced}
use llama_onprem_server.Edit.Spans.Hunks.{IsReplaced, place_hunk-IsReplaced}
use llama_onprem_server.Edit.Spans.Order.{place_loop-patched}
use llama_onprem_server.Edit.Spans.Patched.{patched}

abbrev three_lines : List Bytes
three_lines = codes "a" ∷ codes "b" ∷ codes "c" ∷ []

abbrev three_text : Bytes
three_text = codes "a\nb\nc\n"

abbrev line_of : ℕ → Bytes → PatchLine
line_of kind text = record { kind = kind; text = text }

-- "b" becomes "x"; the number of the header is wrong.
abbrev change_b : Hunk
change_b = record {
  number = 1;
  old_start = 3;
  old_count = 2;
  pure_insert = false;
  lines = line_of b' ' (codes "a") ∷ line_of b'-' (codes "b") ∷ line_of b'+' (codes "x") ∷ [];
}

abbrev span_b : Span
span_b = record { from = 1; old_len = 1; neu = codes "x" ∷ [] }

-- A hunk of context alone.
abbrev context_b : Hunk
context_b = record {
  number = 1;
  old_start = 2;
  old_count = 1;
  pure_insert = false;
  lines = line_of b' ' (codes "b") ∷ [];
}

abbrev calm : Failures
calm = record {
  open_in = false;
  read = false;
  create_directories = false;
  open_out = false;
  write = none;
  remove = false;
  rename = false;
}

abbrev one_file : Files
one_file path = if bytes_eq path (codes "f") then some three_text else none

-- The patch as text.
abbrev patch_b : Bytes
patch_b = codes "--- f\n+++ f\n@@ -3,2 +3,2 @@\n a\n-b\n+x\n"

place_b : place_loop (codes "f") three_lines [] (change_b ∷ []) ≡ ok (span_b ∷ [])
unfolding place_loop place_hunk old_side new_side side locate_hunk locate_loop lines_match
    match_loop locate_step place_found changed leading without_tail add_span overlaps_any
    ranges_overlap bytes_eq
place_b = refl

place_hunk_b : place_hunk (codes "f") three_lines change_b ≡ ok span_b
unfolding place_loop place_hunk old_side new_side side locate_hunk locate_loop lines_match
    match_loop locate_step place_found changed leading without_tail add_span overlaps_any
    ranges_overlap bytes_eq
place_hunk_b = refl

place_context : place_loop (codes "f") (split_lines three_text).lines [] (context_b ∷ []) ≡ ok []
unfolding place_loop place_hunk old_side new_side side locate_hunk locate_loop lines_match
    match_loop locate_step place_found changed leading without_tail add_span overlaps_any
    ranges_overlap bytes_eq split_lines split_loop find_byte
place_context = refl

f_IsPath : IsPath (codes "f")
unfolding starts_with find_byte back_is bytes_eq same_target without_side ends_with has_byte
f_IsPath = ((((refl, tt), refl)), refl, refl, refl, refl, refl)

three_IsShown : All IsShown three_lines
unfolding starts_with back_is
three_IsShown = (
  (((refl, tt), refl), refl, refl),
  ((((refl, tt), refl), refl, refl), ((((refl, tt), refl), refl, refl), tt)),
)

span_IsShown : All (IsShownSpan 3) (span_b ∷ [])
unfolding starts_with back_is
span_IsShown = ((omega arith, omega arith, ((((refl, tt), refl), refl, refl), tt), omega arith), tt)

short_diff :
    length (diff_header (codes "f") false ++ diff_loop three_lines 0 (sort_ascending (span_b ∷ [])))
    ≤ max_tool_output_chars
unfolding diff_header diff_loop sort_ascending insert_ascending hunk_text range_text to_string
    digits_of emit next_start
short_diff = omega arith

locate_hunk-Answers_example :
    Answers three_lines (codes "b" ∷ []) (pos 2) (locate_hunk three_lines (codes "b" ∷ []) (pos 2))
locate_hunk-Answers_example = locate_hunk-Answers three_lines (codes "b" ∷ []) (pos 2)

place_hunk-IsReplaced_example : IsReplaced three_lines change_b span_b
place_hunk-IsReplaced_example =
    place_hunk-IsReplaced (codes "f") three_lines change_b span_b place_hunk_b

place_loop-IsPlaced_example : IsPlaced 3 (span_b ∷ [])
place_loop-IsPlaced_example =
    place_loop-IsPlaced (codes "f") three_lines [] (change_b ∷ []) (span_b ∷ []) (tt, tt) place_b

place_loop-patched_example :
    apply_spans three_lines (span_b ∷ []) ≡ patched 0 three_lines (span_b ∷ [])
place_loop-patched_example =
    place_loop-patched (codes "f") three_lines (change_b ∷ []) (span_b ∷ []) place_b

edit_file-Effect_example :
    Effect
      (IsBodyOf calm (codes "f") patch_b one_file)
      (codes "f")
      one_file
      (edit_file calm (some (codes "f")) (some patch_b) one_file).result
      (edit_file calm (some (codes "f")) (some patch_b) one_file).files
edit_file-Effect_example = edit_file-Effect calm (codes "f") patch_b one_file

parse_patch-format_diff_example :
    parse_patch (format_diff (codes "f") three_lines (span_b ∷ []) false) (codes "f")
    ≡ ok (hunks_of (diff_printed three_lines 1 0 (sort_ascending (span_b ∷ []))), false)
parse_patch-format_diff_example =
    parse_patch-format_diff (codes "f") false three_lines span_b [] f_IsPath three_IsShown
      span_IsShown short_diff

-- A new file of one line, and the diff that announces it.
abbrev new_line : Span
new_line = record { from = 0; old_len = 0; neu = codes "x" ∷ [] }

new_line_IsShown : All (IsShownSpan 0) (new_line ∷ [])
unfolding starts_with back_is
new_line_IsShown =
    ((omega arith, omega arith, ((((refl, tt), refl), refl, refl), tt), omega arith), tt)

short_created :
    length (diff_header (codes "f") true ++ diff_loop [] 0 (sort_ascending (new_line ∷ [])))
    ≤ max_tool_output_chars
unfolding diff_header diff_loop sort_ascending insert_ascending hunk_text range_text to_string
    digits_of emit next_start
short_created = omega arith

created_reads :
    parse_patch (format_diff (codes "f") [] (new_line ∷ []) true) (codes "f")
    ≡ ok (hunks_of (diff_printed [] 1 0 (sort_ascending (new_line ∷ []))), true)
created_reads =
    parse_patch-format_diff (codes "f") true [] new_line [] f_IsPath tt new_line_IsShown
      short_created

-- The whole tool on that patch.
edit_run :
    (edit_file calm (some (codes "f")) (some patch_b) one_file).files (codes "f")
    ≡ some (codes "a\nx\nc\n")
unfolding edit_file edit_parsed edit_opened change_file write_placed write_spans updated_body
    write_atomic put_file parse_patch parse_loop parse_line finish_parse outside_line new_header
    old_header hunk_line open_hunk close_hunk parse_hunk_header read_count skip_spaces read_int
    digits_loop is_digit header_path without_quotes before_tab without_marker patch_lines patch_loop
    strip_cr join_lines join_loop split_lines split_loop find_byte starts_with back_is apply_spans
    apply_loop apply_span sort_spans insert_span place_loop place_hunk old_side new_side side
    locate_hunk locate_loop lines_match match_loop locate_step place_found changed leading
    without_tail add_span overlaps_any ranges_overlap bytes_eq same_target without_side ends_with
    has_byte
edit_run = refl
