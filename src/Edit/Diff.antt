-- ===== src/Edit/Diff.antt =====
-- The diff that `edit_file` returns: `format_diff` of src/common/tools/tool_edit_file.cpp. A difference
-- that spans which overlap could make negative is 0 here.
pub mod Rows
pub mod Shown
pub mod RoundTrip
use llama_onprem_server.Prelude.{
  ℕ, zero, suc, ◌+◌, ◌-◌, Bool, List, [], ◌∷◌, ◌++◌, min, max, ltb, ◌==◌, if◌then◌else◌, length,
  take, drop, Bytes, codes,
}
use llama_onprem_server.Edit.{Span}
use llama_onprem_server.Prelude.Decimal.{to_string}

-- The lambda of the same name, for the lines that it is called on in turn.
unfoldable pub emit : ℕ → List Bytes → Bytes
emit mark [] = []
emit mark (line ∷ lines) = mark ∷ line ++ b'\n' ∷ emit mark lines

-- `std::ranges::sort` by `left.from < right.from`.
unfoldable pub insert_ascending : Span → List Span → List Span
insert_ascending span [] = span ∷ []
insert_ascending span (s ∷ spans) =
    let rest = insert_ascending span spans in
    if ltb s.from span.from then s ∷ rest else span ∷ s ∷ spans

unfoldable pub sort_ascending : List Span → List Span
sort_ascending [] = []
sort_ascending (span ∷ spans) = insert_ascending span (sort_ascending spans)

-- `std::to_string(start) + "," + std::to_string(count)`.
unfoldable pub range_text : ℕ → ℕ → Bytes
range_text start count = to_string start ++ (b',' ∷ to_string count)

-- The text of one span: `prev_end` is the end of the span before, `next_from` the start of the one
-- behind.
unfoldable pub hunk_text : List Bytes → ℕ → ℕ → Span → Bytes
hunk_text old_lines prev_end next_from span =
    let from = span.from in
    let to = from + span.old_len in
    let ctx_lo = max prev_end (from - 3) in
    let ctx_hi = min next_from (to + 3) in
    let old_count = ctx_hi - ctx_lo in
    let new_count = ((from - ctx_lo) + length span.neu) + (ctx_hi - to) in
    let old_start = if old_count == 0 then from else ctx_lo + 1 in
    let new_start = if new_count == 0 then from else ctx_lo + 1 in
    codes "@@ -"
    ++ (range_text old_start old_count
        ++ (codes " +"
            ++ (range_text new_start new_count
                ++ (b' '
                    ∷ b'@'
                    ∷ b'@'
                    ∷ b'\n'
                    ∷ (emit b' ' (take (from - ctx_lo) (drop ctx_lo old_lines))
                        ++ (emit b'-' (take (to - from) (drop from old_lines))
                            ++ (emit b'+' span.neu
                                ++ emit b' ' (take (ctx_hi - to) (drop to old_lines)))))))))

-- `spans[s + 1].from`, or the size of the file for the last span.
unfoldable pub next_start : List Bytes → List Span → ℕ
next_start old_lines [] = length old_lines
next_start old_lines (span ∷ spans) = span.from

unfoldable pub diff_loop : List Bytes → ℕ → List Span → Bytes
diff_loop old_lines prev_end [] = []
diff_loop old_lines prev_end (span ∷ spans) =
    hunk_text old_lines prev_end (next_start old_lines spans) span
    ++ diff_loop old_lines (span.from + span.old_len) spans

unfoldable pub diff_header : Bytes → Bool → Bytes
diff_header path created =
    if created
    then codes "--- /dev/null\n+++ " ++ (path ++ b'\n' ∷ [])
    else codes "--- " ++ (path ++ (codes "\n+++ " ++ (path ++ b'\n' ∷ [])))

abbrev pub max_tool_output_chars : ℕ
max_tool_output_chars = 8000

pub format_diff : Bytes → List Bytes → List Span → Bool → Bytes
format_diff path old_lines spans created =
    let out = diff_header path created ++ diff_loop old_lines 0 (sort_ascending spans) in
    if ltb max_tool_output_chars (length out)
    then take max_tool_output_chars out ++ codes "\n... [diff truncated]"
    else out
