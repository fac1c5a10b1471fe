-- ===== src/Edit/Lines.antt =====
-- Lines of a file and of a patch: `split_lines`, `join_lines` and `patch_lines` of
-- src/common/tools/tool_edit_file.cpp. The text that a loop has not read is its argument, and its
-- fuel is the length of that text: a round reads at least one byte.
pub mod Split
pub mod RoundTrip
pub mod Patch
use llama_onprem_server.Prelude.{
  ℕ, zero, suc, ◌+◌, Bool, ◌&&◌, List, [], ◌∷◌, ◌++◌, none, some, ◌==◌, if◌then◌else◌, length, take,
  drop, Bytes, find_byte, back_is, not,
}
use llama_onprem_server.Edit.{FileText}
use llama_onprem_server.Jobs.TokenBuffer.{is_empty}

-- The `break` where nothing is left gives what the test of the loop gives.
unfoldable pub split_loop : ℕ → Bytes → List Bytes
split_loop zero content = []
split_loop (suc fuel) [] = []
split_loop (suc fuel) (c ∷ cs) =
    let content = c ∷ cs in
    elim (find_byte b'\n' content) [
      | none ↦ content ∷ []
      | some nl ↦ take nl content ∷ split_loop fuel (drop (nl + 1) content)
    ]

unfoldable pub split_lines : Bytes → FileText
split_lines content = record {
  lines = split_loop (length content) content;
  trailing_newline = back_is b'\n' content;
}

-- The loop over `i`.
unfoldable pub join_loop : ℕ → Bytes → List Bytes → Bytes
join_loop i out [] = out
join_loop i out (line ∷ lines) =
    join_loop (i + 1) ((if i == 0 then out else out ++ b'\n' ∷ []) ++ line) lines

unfoldable pub join_lines : List Bytes → Bool → Bytes
join_lines lines trailing_newline =
    let out = join_loop 0 [] lines in
    if trailing_newline && not (is_empty lines) then out ++ b'\n' ∷ [] else out

-- `line.pop_back()` behind the test for a last '\r'.
unfoldable pub strip_cr : Bytes → Bytes
strip_cr [] = []
strip_cr (x ∷ []) = if x == b'\r' then [] else x ∷ []
strip_cr (x ∷ y ∷ line) = x ∷ strip_cr (y ∷ line)

unfoldable pub patch_loop : ℕ → Bytes → List Bytes
patch_loop zero patch = []
patch_loop (suc fuel) [] = []
patch_loop (suc fuel) (c ∷ cs) =
    let patch = c ∷ cs in
    elim (find_byte b'\n' patch) [
      | none ↦ strip_cr patch ∷ []
      | some nl ↦ strip_cr (take nl patch) ∷ patch_loop fuel (drop (nl + 1) patch)
    ]

unfoldable pub patch_lines : Bytes → List Bytes
patch_lines patch = patch_loop (length patch) patch
