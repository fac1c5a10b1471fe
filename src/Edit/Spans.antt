-- ===== src/Edit/Spans.antt =====
-- The spans of a patch (`edit_file`, src/common/tools/tool_edit_file.cpp): each hunk is placed in the
-- file, and the spans are applied from the last to the first.
pub mod Hunks
pub mod Apart
pub mod Patched
pub mod Applied
pub mod Order
pub mod Trimmed
use llama_onprem_server.Prelude.{
  ℕ, zero, suc, ◌+◌, ◌-◌, ◌^◌, Bool, true, false, not, ◌&&◌, ◌||◌, List, [], ◌∷◌, ◌++◌, Option,
  none, some, ltb, leb, ◌==◌, if◌then◌else◌, length, take, drop, Bytes, ℤ, pos, negsuc,
}
use llama_onprem_server.Jobs.TokenBuffer.{is_empty}
use llama_onprem_server.Edit.{
  PatchLine, Hunk, Span, EditError, no_context, past_the_end, matches_more_than_one_place,
  did_not_match, overlaps_earlier_hunk, Result, ok, failed, ◌>>=◌,
}
use llama_onprem_server.Edit.Match.{
  old_side, new_side, side, ambiguous, not_found, located, Located, locate_hunk, ranges_overlap,
}

-- The loop that counts `lead`.
unfoldable pub leading : List PatchLine → ℕ
leading [] = 0
leading (line ∷ lines) = let rest = leading lines in if line.kind == b' ' then rest + 1 else 0

-- The lines from `lead` to `tail`: the loop that lowers `tail` stops behind the last line that is
-- not context.
unfoldable pub without_tail : List PatchLine → List PatchLine
without_tail [] = []
without_tail (line ∷ lines) =
    let rest = without_tail lines in if line.kind == b' ' && is_empty rest then [] else line ∷ rest

unfoldable pub changed : Hunk → List PatchLine
changed hunk = without_tail (drop (leading hunk.lines) hunk.lines)

-- `hunk.old_start - 1` of a bit pattern: from `2 ^ 31` on it is that of a negative number, and the
-- smallest one wraps.
abbrev pub hint_of : ℕ → ℤ
hint_of n = if n == 0 then negsuc 0 else if leb n (2 ^ 31) then pos (n - 1) else negsuc (2 ^ 32 - n)

-- The span of a hunk whose old side is not empty, by what `locate_hunk` answered.
unfoldable pub place_found : Bytes → Hunk → Located → Result Span
place_found path hunk ambiguous = failed (matches_more_than_one_place hunk.number path)
place_found path hunk not_found = failed (did_not_match hunk.number path)
place_found path hunk (located at) = ok (record {
  from = at + leading hunk.lines;
  old_len = length (side b'-' (changed hunk));
  neu = side b'+' (changed hunk);
})

-- The span of one hunk. The error carries the bit pattern of `hunk.old_start`.
unfoldable pub place_hunk : Bytes → List Bytes → Hunk → Result Span
place_hunk path file hunk =
    let old_lines = old_side hunk in
    if not (is_empty old_lines)
    then place_found path hunk (locate_hunk file old_lines (hint_of hunk.old_start))
    else if not hunk.pure_insert
    then failed (no_context hunk.number)
    else if leb (2 ^ 31) hunk.old_start || ltb (length file) hunk.old_start
    then failed (past_the_end hunk.number hunk.old_start path (length file))
    else ok (record { from = hunk.old_start; old_len = 0; neu = new_side hunk })

-- The loop over the earlier spans.
unfoldable pub overlaps_any : List Span → Span → Bool
overlaps_any [] span = false
overlaps_any (earlier ∷ spans) span =
    ranges_overlap earlier.from earlier.old_len span.from span.old_len || overlaps_any spans span

-- One round of the loop over the hunks: a span that changes nothing is skipped.
unfoldable pub add_span : Hunk → List Span → Span → Result (List Span)
add_span hunk spans span =
    if span.old_len == 0 && is_empty span.neu
    then ok spans
    else if overlaps_any spans span
    then failed (overlaps_earlier_hunk hunk.number)
    else ok (spans ++ span ∷ [])

unfoldable pub place_loop : Bytes → List Bytes → List Span → List Hunk → Result (List Span)
place_loop path file spans [] = ok spans
place_loop path file spans (hunk ∷ hunks) =
    place_hunk path file hunk >>= add_span hunk spans >>= λ spans'.
    place_loop path file spans' hunks

-- `std::ranges::sort` by `left.from > right.from`. No two spans of a patch that was accepted start
-- at the same line, so one order is the only one.
unfoldable pub insert_span : Span → List Span → List Span
insert_span span [] = span ∷ []
insert_span span (s ∷ spans) =
    let rest = insert_span span spans in if ltb span.from s.from then s ∷ rest else span ∷ s ∷ spans

unfoldable pub sort_spans : List Span → List Span
sort_spans [] = []
sort_spans (span ∷ spans) = insert_span span (sort_spans spans)

-- `erase`, then `insert` at the same line.
unfoldable pub apply_span : List Bytes → Span → List Bytes
apply_span updated span =
    take span.from updated ++ (span.neu ++ drop (span.from + span.old_len) updated)

unfoldable pub apply_loop : List Bytes → List Span → List Bytes
apply_loop updated [] = updated
apply_loop updated (span ∷ spans) = apply_loop (apply_span updated span) spans

unfoldable pub apply_spans : List Bytes → List Span → List Bytes
apply_spans file spans = apply_loop file (sort_spans spans)
