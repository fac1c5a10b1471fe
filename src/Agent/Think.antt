-- ===== src/Agent/Think.antt =====
-- The split of an answer into reasoning and visible text (split_thinking_channel of
-- src/server/agent/response_parse.cpp). No index stands for npos, and an index counts from where the
-- search starts.
pub mod Find
pub mod Parts
use llama_onprem_server.Prelude.{
  ℕ, zero, suc, ◌+◌, ◌-◌, Bool, true, false, not, ◌&&◌, ◌||◌, List, [], ◌∷◌, ◌++◌, Option, none,
  some, leb, ◌==◌, if◌then◌else◌, length, take, drop, Bytes, codes, starts_with, find_byte,
}
use llama_onprem_server.Jobs.TokenBuffer.{is_empty}

-- `std::tolower` in the "C" locale.
unfoldable pub lower : ℕ → ℕ
lower c = if leb b'A' c && leb c b'Z' then c + 32 else c

-- The loop of `starts_ieq`, behind the tests of the sizes.
unfoldable pub same_ieq : Bytes → Bytes → Bool
same_ieq text [] = true
same_ieq [] (l ∷ lit) = false
same_ieq (x ∷ text) (l ∷ lit) = lower x == lower l && same_ieq text lit

unfoldable pub starts_ieq : Bytes → Bytes → Bool
starts_ieq text [] = false
starts_ieq text (l ∷ lit) = same_ieq text (l ∷ lit)

unfoldable pub find_ieq : Bytes → Bytes → Option ℕ
find_ieq lit [] = none
find_ieq lit (c ∷ text) =
    let rest = find_ieq lit text in
    if starts_ieq (c ∷ text) lit then some 0 else elim rest [ none ↦ none | some i ↦ some (i + 1) ]

abbrev pub think_names : List Bytes
think_names = codes "think" ∷ codes "thinking" ∷ codes "thought" ∷ codes "reasoning" ∷ []

pub record OpenTag : Type 0 where
  pub name : Bytes
  pub open_end : ℕ

-- The byte behind the name of a tag.
unfoldable pub ends_name : ℕ → Bool
ends_name next = (next == b'>' || next == b' ') || (next == b'\t' || next == b'/')

-- The loop over the names, with the text behind '<'.
unfoldable pub match_names : List Bytes → Bytes → Option OpenTag
match_names [] text = none
match_names (n ∷ names) text =
    let more = match_names names text in
    if not (starts_ieq text n) then more else elim (drop (length n) text) [
      | [] ↦ none
      | next ∷ behind ↦
          if not (ends_name next) then more else elim (find_byte b'>' (next ∷ behind)) [
            | none ↦ none
            | some gt ↦ some (record { name = n; open_end = length n + gt + 2 })
          ]
    ]

unfoldable pub match_open_think : Bytes → Option OpenTag
match_open_think [] = none
match_open_think (c ∷ text) = if not (c == b'<') then none else match_names think_names text

pub record ThinkingSplit : Type 0 where
  pub reasoning : Bytes
  pub visible : Bytes
  pub closed : Bool

-- What is appended to the reasoning, with a line break in front where there is some.
unfoldable pub add_reasoning : Bytes → Bytes → Bytes
add_reasoning reasoning body =
    if not (is_empty reasoning) then reasoning ++ (b'\n' ∷ body) else reasoning ++ body

abbrev pub closer_of : Bytes → Bytes
closer_of name = codes "</" ++ (name ++ b'>' ∷ [])

unfoldable pub closes_itself : Bytes → ℕ → Bool
closes_itself text open_end = leb 2 open_end && starts_with (drop (open_end - 2) text) (b'/' ∷ [])

-- The loop over `i`, with the text from there on; a round reads at least one byte.
unfoldable pub think_loop : ℕ → Bytes → Bytes → Bytes → ThinkingSplit
think_loop zero reasoning visible text = record {
  reasoning = reasoning;
  visible = visible;
  closed = true;
}
think_loop (suc fuel) reasoning visible [] = record {
  reasoning = reasoning;
  visible = visible;
  closed = true;
}
think_loop (suc fuel) reasoning visible (c ∷ cs) =
    let text = c ∷ cs in
    elim (match_open_think text) [
      | none ↦ think_loop fuel reasoning (visible ++ c ∷ []) cs
      | some tag ↦
          let body = drop tag.open_end text in
          let skipped = think_loop fuel reasoning visible body in
          if closes_itself text tag.open_end
          then skipped
          else elim (find_ieq (closer_of tag.name) body) [
            | none ↦ record {
              reasoning = add_reasoning reasoning body;
              visible = visible;
              closed = false;
            }
            | some close_at ↦
                think_loop fuel (add_reasoning reasoning (take close_at body)) visible
                  (drop (close_at + length (closer_of tag.name)) body)
          ]
    ]

abbrev pub think_close : Bytes
think_close = codes "</think>"

unfoldable pub split_thinking_channel : Bytes → Bool → ThinkingSplit
split_thinking_channel text prompt_opened_think =
    if prompt_opened_think
    then elim (find_ieq think_close text) [
      | none ↦ record { reasoning = text; visible = []; closed = false }
      | some at ↦
          let rest = drop (at + length think_close) text in
          think_loop (length rest) (take at text) [] rest
    ]
    else think_loop (length text) [] [] text
