-- ===== src/Edit/Parse.antt =====
-- `parse_patch` (src/common/tools/tool_edit_file.cpp): the loop over the lines of a patch, with its
-- local variables and the hunks so far as its state.
pub mod Header
pub mod Rows
pub mod Clean
pub mod RoundTrip
use llama_onprem_server.Prelude.{
  ℕ, zero, suc, ◌+◌, Bool, true, false, not, ◌&&◌, ◌||◌, List, [], ◌∷◌, ◌++◌, Option, none, some,
  ltb, ◌==◌, if◌then◌else◌, length, take, drop, Bytes, codes, bytes_eq, starts_with,
}
use llama_onprem_server.Jobs.TokenBuffer.{is_empty}
use llama_onprem_server.Edit.{
  PatchLine, Hunk, EditError, empty_hunk, malformed_header, bad_line, more_than_one_file, no_hunks,
  deletes_file, other_target, Result, ok, failed, ◌>>=◌,
}
use llama_onprem_server.Edit.Lines.{patch_lines}
use llama_onprem_server.Edit.Header.{parse_hunk_header, header_path, same_target}

pub record Parser : Type 0 where
  pub in_hunk : Bool
  pub saw_old_null : Bool
  pub saw_new_null : Bool
  pub git_headers : ℕ
  pub new_headers : ℕ
  pub plus_path : Bytes
  pub current : Hunk
  pub hunks : List Hunk

-- `Hunk{}`.
abbrev pub no_hunk : Hunk
no_hunk = record { number = 0; old_start = 0; old_count = 1; pure_insert = false; lines = [] }

abbrev pub initial : Parser
initial = record {
  in_hunk = false;
  saw_old_null = false;
  saw_new_null = false;
  git_headers = 0;
  new_headers = 0;
  plus_path = [];
  current = no_hunk;
  hunks = [];
}

-- The lambda of the same name.
unfoldable pub close_hunk : Parser → Result Parser
close_hunk p =
    if not p.in_hunk
    then ok p
    else if is_empty p.current.lines
    then failed (empty_hunk p.current.number)
    else ok (record p { in_hunk = false; current = no_hunk; hunks = p.hunks ++ p.current ∷ [] })

-- A line that starts with "@@", behind `close_hunk`.
unfoldable pub open_hunk : Bytes → Parser → Result Parser
open_hunk line p = elim (parse_hunk_header line) [
  | none ↦ failed (malformed_header line)
  | some (old_start, old_count) ↦ ok (record p {
    in_hunk = true;
    current = record {
      number = length p.hunks + 1;
      old_start = old_start;
      old_count = old_count;
      pure_insert = old_count == 0;
      lines = p.current.lines;
    };
  })
]

abbrev pub is_kind : ℕ → Bool
is_kind kind = kind == b' ' || (kind == b'+' || kind == b'-')

-- A line of a hunk.
unfoldable pub hunk_line : Bytes → Parser → Result Parser
hunk_line [] p = ok p
hunk_line (kind ∷ text) p =
    if kind == b'\\'
    then ok p
    else if not (is_kind kind)
    then failed (bad_line p.current.number (take 80 (kind ∷ text)))
    else ok (record p {
      current = record p.current {
        lines = p.current.lines ++ record { kind = kind; text = text } ∷ [];
      };
    })

-- A "--- " line outside of a hunk.
unfoldable pub old_header : Bytes → Parser → Parser
old_header line p = record p {
  saw_old_null = p.saw_old_null || bytes_eq (header_path line) (codes "/dev/null");
}

-- A "+++ " line outside of a hunk.
unfoldable pub new_header : Bytes → Parser → Result Parser
new_header line p =
    if ltb 1 (p.new_headers + 1)
    then failed more_than_one_file
    else ok (record p {
      new_headers = p.new_headers + 1;
      plus_path = header_path line;
      saw_new_null = p.saw_new_null || bytes_eq (header_path line) (codes "/dev/null");
    })

-- A line outside of a hunk. What is neither of the headers is passed over, whether
-- `preamble_line` knows it or not.
unfoldable pub outside_line : Bytes → Parser → Result Parser
outside_line line p =
    let is_git = starts_with line (codes "diff --git ") in
    let counted = if is_git then record p { git_headers = p.git_headers + 1 } else p in
    if is_git && ltb 1 (p.git_headers + 1)
    then failed more_than_one_file
    else if starts_with line (codes "--- ")
    then ok (old_header line counted)
    else if starts_with line (codes "+++ ")
    then new_header line counted
    else ok counted

abbrev pub is_file_header : Bytes → Bool
is_file_header line =
    starts_with line (codes "diff --git ")
    || (starts_with line (codes "--- ") || starts_with line (codes "+++ "))

-- One round of the loop.
unfoldable pub parse_line : Parser → Bytes → Result Parser
parse_line p line =
    if starts_with line (codes "@@")
    then close_hunk p >>= open_hunk line
    else (if p.in_hunk && is_file_header line then close_hunk p else ok p) >>= λ p'.
        if p'.in_hunk then hunk_line line p' else outside_line line p'

unfoldable pub parse_loop : Parser → List Bytes → Result Parser
parse_loop p [] = ok p
parse_loop p (line ∷ lines) = parse_line p line >>= λ p'. parse_loop p' lines

-- The checks behind the loop: the hunks, and `new_file`.
unfoldable pub finish_parse : Bytes → Parser → Result (List Hunk × Bool)
finish_parse path p =
    if is_empty p.hunks
    then failed no_hunks
    else if p.saw_new_null
    then failed deletes_file
    else if not (is_empty p.plus_path) && not (same_target path p.plus_path)
    then failed (other_target p.plus_path path)
    else ok (p.hunks, p.saw_old_null)

unfoldable pub parse_patch : Bytes → Bytes → Result (List Hunk × Bool)
parse_patch patch path =
    parse_loop initial (patch_lines patch) >>= λ p. close_hunk p >>= finish_parse path
