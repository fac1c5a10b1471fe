-- ===== src/History.antt =====
-- Stored results of tools in a session's history (src/server/sessions/tool_history.cpp): the opening tag
-- of a result, and the one line that a long result is cut down to. An empty text stands for the empty
-- view that stands for no text in the source.
pub mod Find
pub mod Tag
pub mod Record
pub mod Shrink
use llama_onprem_server.Prelude.{
  ℕ, zero, suc, ◌+◌, ◌-◌, Bool, true, false, not, ◌&&◌, ◌||◌, List, [], ◌∷◌, ◌++◌, Option, none,
  some, ltb, leb, ◌==◌, if◌then◌else◌, length, take, drop, Bytes, bytes_eq, codes, starts_with,
  find_byte, has_byte, back_is, find_text,
}
use llama_onprem_server.Prelude.Decimal.{to_string}
use llama_onprem_server.Jobs.TokenBuffer.{is_empty}

abbrev pub keep_chars : ℕ
keep_chars = 240

abbrev pub keep_lines : ℕ
keep_lines = 3

abbrev pub detail_chars : ℕ
detail_chars = 160

abbrev pub close_tag : Bytes
close_tag = codes "</tool_response>"

abbrev pub open_mark : Bytes
open_mark = codes "<tool_response"

unfoldable pub is_edge : ℕ → Bool
is_edge c = (c == b' ' || c == b'\n') || (c == b'\r' || c == b'\t')

unfoldable pub trim_front : Bytes → Bytes
trim_front [] = []
trim_front (c ∷ text) = let rest = trim_front text in if is_edge c then rest else c ∷ text

unfoldable pub trim_back : Bytes → Bytes
trim_back [] = []
trim_back (c ∷ text) =
    let rest = trim_back text in if is_edge c && is_empty rest then [] else c ∷ rest

unfoldable pub trim_edges : Bytes → Bytes
trim_edges text = trim_back (trim_front text)

unfoldable pub newlines : Bytes → ℕ
newlines [] = 0
newlines (c ∷ text) = let rest = newlines text in if c == b'\n' then rest + 1 else rest

unfoldable pub line_count : Bytes → ℕ
line_count text =
    let count = newlines text + 1 in
    if is_empty text then 0 else if back_is b'\n' text then count - 1 else count

-- `std::isalnum(c) != 0 || c == '_' || c == '-'`, in the "C" locale.
pub is_name_byte : ℕ → Bool
is_name_byte c =
    ((leb b'0' c && leb c b'9') || ((leb b'A' c && leb c b'Z') || (leb b'a' c && leb c b'z')))
    || (c == b'_' || c == b'-')

pub all_name_bytes : Bytes → Bool
all_name_bytes [] = true
all_name_bytes (c ∷ name) = if not (is_name_byte c) then false else all_name_bytes name

pub safe_name : Bytes → Bool
safe_name name = if is_empty name || ltb 64 (length name) then false else all_name_bytes name

unfoldable pub detail_byte : ℕ → ℕ
detail_byte c = if (c == b'"' || c == b'<') || (c == b'>' || c == b'\t') then b' ' else c

-- The first loop of `sanitize_detail`, with the bytes that there is room for.
unfoldable pub sanitize_loop : ℕ → Bytes → Bytes
sanitize_loop room [] = []
sanitize_loop zero (c ∷ text) = []
sanitize_loop (suc room) (c ∷ text) =
    let rest = sanitize_loop room text in
    if c == b'\n' || c == b'\r' then [] else detail_byte c ∷ rest

unfoldable pub drop_spaces : Bytes → Bytes
drop_spaces [] = []
drop_spaces (c ∷ text) = let rest = drop_spaces text in if c == b' ' then rest else c ∷ text

unfoldable pub pop_spaces : Bytes → Bytes
pop_spaces [] = []
pop_spaces (c ∷ text) =
    let rest = pop_spaces text in if c == b' ' && is_empty rest then [] else c ∷ rest

unfoldable pub sanitize_detail : Bytes → Bytes
sanitize_detail text = drop_spaces (pop_spaces (sanitize_loop detail_chars text))

abbrev pub needle_of : Bytes → Bytes
needle_of key = key ++ codes "=\""

unfoldable pub attribute : Bytes → Bytes → Bytes
attribute tag key = elim (find_text (needle_of key) tag) [
  | none ↦ []
  | some pos ↦
      let value = drop (pos + length (needle_of key)) tag in
      elim (find_byte b'"' value) [ none ↦ [] | some end ↦ take end value ]
]

unfoldable pub contains_text : Bytes → Bytes → Bool
contains_text needle text = elim (find_text needle text) [ none ↦ false | some i ↦ true ]

unfoldable pub first_line : Bytes → Bytes
first_line body = elim (find_byte b'\n' body) [ none ↦ body | some nl ↦ take nl body ]

unfoldable pub line_window : Bytes → Bytes
line_window body =
    let first = first_line body in
    if ltb 80 (length first)
      || (not (starts_with first (codes "lines ")) || not (contains_text (codes " of ") first))
    then []
    else first

abbrev pub label_of : Bytes → Bytes
label_of name = if is_empty name then codes "tool" else name

unfoldable pub already_record : Bytes → Bytes → Bool
already_record body name =
    if has_byte b'\n' body
    then false
    else if starts_with body (codes "omitted ")
    then true
    else if not (starts_with body (label_of name))
    then false
    else contains_text (codes ", lines ") body || contains_text (codes " lines") body

-- The label, and the detail behind it where there is one.
abbrev pub subject_of : Bytes → Bytes → Bytes
subject_of name detail = if is_empty detail then label_of name else label_of name ++ (b' ' ∷ detail)

unfoldable pub record_line : Bytes → Bytes → Bytes → Bytes
record_line name detail body =
    let window = line_window body in
    if not (is_empty window)
    then subject_of name detail ++ (codes ", " ++ window)
    else subject_of name detail ++ (codes ", " ++ (to_string (line_count body) ++ codes " lines"))

pub tool_response_open : Bytes → Bytes → Bytes
tool_response_open name detail =
    let named = safe_name name in
    let clean = sanitize_detail detail in
    let name_part = if named then codes " name=\"" ++ (name ++ b'"' ∷ []) else [] in
    let detail_part =
      if not (is_empty clean) then codes " detail=\"" ++ (clean ++ b'"' ∷ []) else [] in
    if not named && is_empty clean
    then codes "<tool_response>"
    else open_mark ++ (name_part ++ (detail_part ++ b'>' ∷ []))

abbrev pub subagent_names : List Bytes
subagent_names =
    codes "sub_agent"
    ∷ codes "subagent"
    ∷ codes "delegate_subagent"
    ∷ codes "delegate_task"
    ∷ codes "spawn_subagent"
    ∷ codes "run_subagent"
    ∷ codes "sub_task"
    ∷ codes "subtask"
    ∷ codes "run_task"
    ∷ codes "task_agent"
    ∷ codes "tasks"
    ∷ codes "run_tasks"
    ∷ []

unfoldable pub known_in : List Bytes → Bytes → Bool
known_in [] name = false
known_in (known ∷ names) name = if bytes_eq known name then true else known_in names name

unfoldable pub is_subagent_name : Bytes → Bool
is_subagent_name name = known_in subagent_names name

-- Whether the loop leaves a response as it is.
unfoldable pub is_kept : Bytes → Bytes → Bool
is_kept name body =
    let small = leb (length body) keep_chars && leb (line_count body) keep_lines in
    is_subagent_name name || (already_record body name || small)

-- What the loop writes for a response: `raw` stands between its tags.
unfoldable pub shrunk : Bytes → Bytes → Bytes
shrunk tag raw =
    let body = trim_edges raw in
    let name = attribute tag (codes "name") in
    if is_kept name body
    then tag ++ (raw ++ close_tag)
    else tag
      ++ (b'\n' ∷ record_line name (attribute tag (codes "detail")) body ++ b'\n' ∷ close_tag)

-- The loop over `pos`, with the text from there on; a round reads at least one byte.
unfoldable pub shrink_loop : ℕ → Bytes → Bytes
shrink_loop zero text = []
shrink_loop (suc fuel) [] = []
shrink_loop (suc fuel) (c ∷ cs) =
    let text = c ∷ cs in
    elim (find_text open_mark text) [
      | none ↦ text
      | some start ↦
          let tail = drop start text in
          take start text ++ (elim (find_byte b'>' tail) [
            | none ↦ tail
            | some tag_end ↦ elim (find_text close_tag tail) [
              | none ↦ tail
              | some end ↦
                  let rest = shrink_loop fuel (drop (end + length close_tag) tail) in
                  if ltb end tag_end
                  then tail
                  else shrunk (take (tag_end + 1) tail)
                      (take (end - (tag_end + 1)) (drop (tag_end + 1) tail))
                    ++ rest
            ]
          ])
    ]

-- The first test of the source is the first round of the loop.
unfoldable pub shrink_tool_responses : Bytes → Bytes
shrink_tool_responses text = shrink_loop (length text) text
