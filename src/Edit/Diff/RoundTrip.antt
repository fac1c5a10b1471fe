-- ===== src/Edit/Diff/RoundTrip.antt =====
-- Theorems about `format_diff` and `parse_patch` (src/common/tools/tool_edit_file.cpp).
use llama_onprem_server.Prelude.{
  ℕ, ◌+◌, ◌≤◌, Bool, false, List, [], ◌∷◌, ◌++◌, ltb, length, Bytes, ◌≡◌, refl, arith, All,
  Bool-cases, inl, inr,
}
use llama_onprem_server.Jobs.TokenBuffer.{is_empty}
use llama_onprem_server.Edit.{Span, ok}
use llama_onprem_server.Edit.Diff.{
  diff_loop, diff_header, format_diff, insert_ascending, sort_ascending, max_tool_output_chars,
}
use llama_onprem_server.Edit.Diff.Rows.{diff_printed, diff-unlines}
use llama_onprem_server.Edit.Parse.{parse_patch}
use llama_onprem_server.Edit.Parse.Rows.{hunks_of}
use llama_onprem_server.Edit.Parse.RoundTrip.{IsPath, parse_patch-unlines}
use llama_onprem_server.Edit.Diff.Shown.{
  IsShown, IsShownSpan, diff_printed-AllPrintable, diff_printed-AllClean,
}

insert_ascending-All {ℓ} :
    (P : Span → Type ℓ) (s : Span) (spans : List Span)
    → P s
    → All P spans
    → All P (insert_ascending s spans)
unfolding insert_ascending
insert_ascending-All P s [] p h = (p, tt)
insert_ascending-All P s (t ∷ spans) p h = elim (Bool-cases (ltb t.from s.from)) [
  | inl e ↦ rw e (h.0, insert_ascending-All P s spans p h.1)
  | inr e ↦ rw e (p, h)
]

sort_ascending-All {ℓ} :
    (P : Span → Type ℓ) (spans : List Span) → All P spans → All P (sort_ascending spans)
unfolding sort_ascending
sort_ascending-All P [] h = tt
sort_ascending-All P (s ∷ spans) h =
    insert_ascending-All P s (sort_ascending spans) h.0 (sort_ascending-All P spans h.1)

is_empty-insert_ascending :
    (s : Span) (spans : List Span) → is_empty (insert_ascending s spans) ≡ false
unfolding insert_ascending
is_empty-insert_ascending s [] = refl
is_empty-insert_ascending s (t ∷ spans) = elim (Bool-cases (ltb t.from s.from)) [
  | inl e ↦ rw e
  | inr e ↦ rw e
]

is_empty-sort_ascending :
    (s : Span) (spans : List Span) → is_empty (sort_ascending (s ∷ spans)) ≡ false
unfolding sort_ascending
is_empty-sort_ascending s spans = is_empty-insert_ascending s (sort_ascending spans)

-- Spans in the order in which the diff has them.
read_diff :
    (path : Bytes) (created : Bool) (old_lines : List Bytes) (spans : List Span)
    → IsPath path
    → is_empty spans ≡ false
    → All IsShown old_lines
    → All (IsShownSpan (length old_lines)) spans
    → parse_patch (diff_header path created ++ diff_loop old_lines 0 spans) path
      ≡ ok (hunks_of (diff_printed old_lines 1 0 spans), created)
unfolding diff_printed
read_diff path created old_lines [] p e old h = cc
read_diff path created old_lines (s ∷ spans) p e old h =
    rw (diff-unlines path created old_lines (s ∷ spans)) (
      parse_patch-unlines path created _ (diff_printed old_lines 2 (s.from + s.old_len) spans) p
        (diff_printed-AllPrintable old_lines 1 0 (s ∷ spans) (omega arith) old h)
        (diff_printed-AllClean old_lines 1 0 (s ∷ spans) old h))

ltb-false : (a b : ℕ) → b ≤ a → ltb a b ≡ false
ltb-false a b h = ground arith

-- The diff of a change of at least one span, in lines that a diff can show and no longer than the
-- limit, for a path that a header can show (no newline, no tab, no '\r' at the end, no quote at the
-- start, not "/dev/null", and the same target as itself), is a patch for that path: `parse_patch`
-- reads from it the hunks of the spans in ascending order, numbered from 1, with their context of up
-- to three lines, and whether the file was created.
pub parse_patch-format_diff :
    (path : Bytes) (created : Bool) (old_lines : List Bytes) (s : Span) (spans : List Span)
    → IsPath path
    → All IsShown old_lines
    → All (IsShownSpan (length old_lines)) (s ∷ spans)
    → length (diff_header path created ++ diff_loop old_lines 0 (sort_ascending (s ∷ spans)))
      ≤ max_tool_output_chars
    → parse_patch (format_diff path old_lines (s ∷ spans) created) path
      ≡ ok (hunks_of (diff_printed old_lines 1 0 (sort_ascending (s ∷ spans))), created)
unfolding format_diff
parse_patch-format_diff path created old_lines s spans p old h short =
    let sorted = sort_ascending (s ∷ spans) in
    rw (ltb-false max_tool_output_chars _ short) (
      read_diff path created old_lines sorted p (is_empty-sort_ascending s spans) old
        (sort_ascending-All (IsShownSpan (length old_lines)) (s ∷ spans) h))
