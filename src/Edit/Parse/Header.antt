-- ===== src/Edit/Parse/Header.antt =====
-- The header of a hunk as `format_diff` writes it, and `parse_hunk_header`
-- (src/common/tools/tool_edit_file.cpp) on it.
use mathlib.Core.List.{append_assoc}
use llama_onprem_server.Prelude.{ℕ, ◌^◌, ◌<◌, ◌∷◌, ◌++◌, some, Bytes, codes, starts_with, ◌≡◌, refl}
use llama_onprem_server.Prelude.Decimal.{to_string}
use llama_onprem_server.Edit.Decimal.{IsStop, read_int-to_string}
use llama_onprem_server.Edit.Diff.{range_text}
use llama_onprem_server.Edit.Header.{parse_hunk_header, read_count, skip_spaces, is_digit}

-- "@@ -a,b +c,d @@".
unfoldable pub header_line : ℕ → ℕ → ℕ → ℕ → Bytes
header_line a b c d =
    codes "@@ -" ++ (range_text a b ++ (codes " +" ++ (range_text c d ++ codes " @@")))

read_count-to_string :
    (n : ℕ) (rest : Bytes)
    → n < 2 ^ 32
    → IsStop rest
    → read_count (b',' ∷ to_string n ++ rest) ≡ some (n, rest)
unfolding read_count starts_with
read_count-to_string n rest w h = read_int-to_string n rest w h

pub parse_hunk_header-header_line :
    (a b c d : ℕ)
    → a < 2 ^ 32
    → b < 2 ^ 32
    → c < 2 ^ 32
    → d < 2 ^ 32
    → parse_hunk_header (header_line a b c d) ≡ some (a, b)
unfolding parse_hunk_header header_line range_text starts_with skip_spaces is_digit
parse_hunk_header-header_line a b c d wa wb wc wd =
    let end = codes " @@" in
    let new = codes " +" ++ (to_string c ++ (b',' ∷ to_string d ++ end)) in
    rw (
      append_assoc (to_string a),
      append_assoc (to_string c),
      read_int-to_string a (b',' ∷ to_string b ++ new) wa refl,
      read_count-to_string b new wb refl,
      read_int-to_string c (b',' ∷ to_string d ++ end) wc refl,
      read_count-to_string d end wd refl,
    )
