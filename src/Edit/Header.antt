-- ===== src/Edit/Header.antt =====
-- Header lines of a patch (src/common/tools/tool_edit_file.cpp): `read_int`, `parse_hunk_header`,
-- `header_path`, `same_target` and `preamble_line`. What is left of a line stands for the index into
-- it. An `int` is the bit pattern of its 32 bits, and the overflow of one wraps.
use llama_onprem_server.Prelude.{
  ℕ, ◌+◌, ◌-◌, ◌*◌, ◌%◌, ◌^◌, Bool, true, false, not, ◌&&◌, ◌||◌, [], ◌∷◌, Option, none, some, leb,
  ◌==◌, if◌then◌else◌, length, take, drop, Bytes, codes, bytes_eq, starts_with, find_byte, back_is,
  has_byte,
}
use llama_onprem_server.Prelude.Options.{◌>>=◌}
use llama_onprem_server.Jobs.TokenBuffer.{is_empty}

-- `std::isdigit` in the "C" locale.
unfoldable pub is_digit : ℕ → Bool
is_digit c = leb b'0' c && leb c b'9'

-- The loop of `read_int`: what was parsed, and what is left.
unfoldable pub digits_loop : ℕ → Bytes → ℕ × Bytes
digits_loop parsed [] = (parsed, [])
digits_loop parsed (c ∷ text) =
    let more = digits_loop ((parsed * 10 + (c - b'0')) % 2 ^ 32) text in
    if is_digit c then more else (parsed, c ∷ text)

unfoldable pub read_int : Bytes → Option (ℕ × Bytes)
read_int [] = none
read_int (c ∷ text) = if is_digit c then some (digits_loop 0 (c ∷ text)) else none

unfoldable pub skip_spaces : Bytes → Bytes
skip_spaces [] = []
skip_spaces (c ∷ text) = let rest = skip_spaces text in if c == b' ' then rest else c ∷ text

-- The count behind a comma, with 1 for its absence.
unfoldable pub read_count : Bytes → Option (ℕ × Bytes)
read_count text = if starts_with text (codes ",") then read_int (drop 1 text) else some (1, text)

-- `none` for `false`, else `old_start` and `old_count`. What stands behind the second count is not
-- read.
unfoldable pub parse_hunk_header : Bytes → Option (ℕ × ℕ)
parse_hunk_header line =
    if not (starts_with line (codes "@@"))
    then none
    else let text = skip_spaces (drop 2 line) in
      if not (starts_with text (codes "-")) then none else do
        (old_start, text) ← read_int (drop 1 text)
        (old_count, text) ← read_count text
        (new_start, text) ← (if starts_with text (codes " +") then read_int (drop 2 text) else none)
        (new_count, text) ← read_count text
        some (old_start, old_count)

-- `text.ends_with(suffix)`.
unfoldable pub ends_with : Bytes → Bytes → Bool
ends_with text suffix =
    leb (length suffix) (length text) && bytes_eq (drop (length text - length suffix) text) suffix

-- `remove_prefix(4)` behind "--- " and "+++ ".
unfoldable pub without_marker : Bytes → Bytes
without_marker line =
    if starts_with line (codes "--- ") || starts_with line (codes "+++ ") then drop 4 line else line

unfoldable pub before_tab : Bytes → Bytes
before_tab line = elim (find_byte b'\t' line) [ none ↦ line | some tab ↦ take tab line ]

unfoldable pub without_quotes : Bytes → Bytes
without_quotes line =
    if leb 2 (length line) && (starts_with line (b'"' ∷ []) && back_is b'"' line)
    then take (length line - 2) (drop 1 line)
    else line

unfoldable pub header_path : Bytes → Bytes
header_path line = without_quotes (before_tab (without_marker line))

-- `std::filesystem::path(file).filename()`: what stands behind the last '/'.
unfoldable pub filename : Bytes → Bytes
filename [] = []
filename (c ∷ file) =
    let rest = filename file in if c == b'/' || has_byte b'/' file then rest else c ∷ file

unfoldable pub without_side : Bytes → Bytes
without_side header =
    if starts_with header (codes "a/") || starts_with header (codes "b/")
    then drop 2 header
    else header

unfoldable pub same_target : Bytes → Bytes → Bool
same_target file header =
    let target = without_side header in
    if is_empty target || bytes_eq target (codes "/dev/null")
    then false
    else if bytes_eq file target || ends_with file (b'/' ∷ target)
    then true
    else not (has_byte b'/' target) && bytes_eq (filename file) target
