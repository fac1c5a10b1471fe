-- ===== src/Devstral.antt =====
-- The scanner for tool calls of Devstral models (src/common/devstral_call.hpp). No index stands for
-- npos. The counts are `int` in the source and natural numbers here.
pub mod Nesting
pub mod Call
pub mod Balance
pub mod Found
use llama_onprem_server.Prelude.{
  ℕ, zero, suc, ◌+◌, ◌-◌, Bool, true, false, not, ◌&&◌, ◌||◌, List, [], ◌∷◌, Option, none, some,
  ltb, leb, ◌==◌, if◌then◌else◌, length, drop, Bytes, codes, starts_with, find_text,
}

-- `std::isspace` in the "C" locale.
unfoldable pub is_space : ℕ → Bool
is_space c = c == b' ' || (leb 9 c && leb c 13)

-- The index of the first byte that is no space, from `i` on.
unfoldable pub skip_space : ℕ → Bytes → ℕ
skip_space i [] = i
skip_space i (c ∷ text) = let more = skip_space (i + 1) text in if is_space c then more else i

pub record Nest : Type 0 where
  pub braces : ℕ
  pub brackets : ℕ
  pub in_string : Bool
  pub escape : Bool

abbrev pub at_start : Nest
at_start = record { braces = 0; brackets = 0; in_string = false; escape = false }

-- How a round of the loop ends: with the next byte, or with the function's result.
pub data Round : Type 0 where
  next : Nest → Round
  found mismatched : Round

unfoldable pub string_byte : ℕ → Nest → Nest
string_byte ch s =
    if s.escape
    then record s { escape = false }
    else if ch == b'\\'
    then record s { escape = true }
    else if ch == b'"'
    then record s { in_string = false }
    else s

-- The test at the end of a round.
unfoldable pub balanced : Nest → Round
balanced s = if s.braces == 0 && s.brackets == 0 then found else next s

unfoldable pub nesting_byte : ℕ → Nest → Round
nesting_byte ch s =
    if ch == b'{'
    then balanced (record s { braces = s.braces + 1 })
    else if ch == b'}'
    then if s.braces == 0 then mismatched else balanced (record s { braces = s.braces - 1 })
    else if ch == b'['
    then balanced (record s { brackets = s.brackets + 1 })
    else if ch == b']'
    then if s.brackets == 0 then mismatched else balanced (record s { brackets = s.brackets - 1 })
    else balanced s

unfoldable pub scan_byte : ℕ → Nest → Round
scan_byte ch s =
    if s.in_string
    then next (string_byte ch s)
    else if ch == b'"'
    then next (record s { in_string = true })
    else nesting_byte ch s

-- The loop over `i`, with the text from `i` on.
unfoldable pub scan_loop : ℕ → Nest → Bytes → Option ℕ
scan_loop i s [] = none
scan_loop i s (ch ∷ text) = elim (scan_byte ch s) [
  | next s' ↦ scan_loop (i + 1) s' text
  | found ↦ some (i + 1)
  | mismatched ↦ none
]

-- `text[i] == '{' || text[i] == '['`, behind the test of the size.
unfoldable pub opens : Bytes → Bool
opens [] = false
opens (c ∷ text) = c == b'{' || c == b'['

unfoldable pub json_value_end : Bytes → ℕ → Option ℕ
json_value_end text from =
    let start = skip_space from (drop from text) in
    let value = drop start text in
    if not (opens value) then none else scan_loop start at_start value

abbrev pub devstral_tool_calls : Bytes
devstral_tool_calls = codes "[TOOL_CALLS]"

abbrev pub devstral_tool_args : Bytes
devstral_tool_args = codes "[ARGS]"

-- The end of `devstral_call_end`, for the index behind [TOOL_CALLS] and the spaces.
unfoldable pub call_at : Bytes → ℕ → Option ℕ
call_at text cursor =
    let rest = drop cursor text in
    if length rest == 0
    then none
    else if opens rest
    then json_value_end text cursor
    else elim (find_text devstral_tool_args rest) [
      | none ↦ none
      | some args ↦ json_value_end text (cursor + args + length devstral_tool_args)
    ]

unfoldable pub devstral_call_end : Bytes → ℕ → Option ℕ
devstral_call_end text from =
    if ltb (length text) from || not (starts_with (drop from text) devstral_tool_calls)
    then none
    else let cursor = from + length devstral_tool_calls in
      call_at text (skip_space cursor (drop cursor text))
