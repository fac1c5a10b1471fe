-- ===== src/Edit/File.antt =====
-- `edit_file` and `write_atomic` (src/common/tools/tool_edit_file.cpp) over the files as a function from
-- paths to contents. Which calls of the file system fail is an argument. Directories are not part of
-- the state.
pub mod Effect
pub mod Body
pub mod NoChange
use llama_onprem_server.Prelude.{
  ℕ, zero, suc, ◌+◌, ◌-◌, Bool, true, false, not, ◌&&◌, ◌||◌, List, [], ◌∷◌, ◌++◌, map, Option,
  none, some, ltb, ◌==◌, if◌then◌else◌, length, Bytes, bytes_eq, codes,
}
use llama_onprem_server.Jobs.TokenBuffer.{is_empty}
use llama_onprem_server.Edit.{
  FileText, PatchLine, Hunk, Span, EditError, missing_path, missing_patch, failed_to_read,
  already_exists, does_not_exist, no_change, failed_to_open, failed_to_write, error_writing_file,
  Result, ok, failed,
}
use llama_onprem_server.Edit.Lines.{split_lines, join_lines}
use llama_onprem_server.Edit.Parse.{parse_patch}
use llama_onprem_server.Edit.Spans.{place_loop, apply_spans}
use llama_onprem_server.Edit.Diff.{format_diff}

abbrev pub Files : Type 0
Files = Bytes → Option Bytes

unfoldable pub put_file : Bytes → Option Bytes → Files → Files
put_file path content files q = if bytes_eq path q then content else files q

-- Each field says that the call of that name fails, or throws; `write` holds what a write that
-- failed left in its file.
pub record Failures : Type 0 where
  pub open_in : Bool
  pub read : Bool
  pub create_directories : Bool
  pub open_out : Bool
  pub write : Option Bytes
  pub remove : Bool
  pub rename : Bool

-- What is returned, with the files afterwards.
pub record Edited : Type 0 where
  pub result : Result Bytes
  pub files : Files

abbrev pub tmp_path : Bytes → Bytes
tmp_path path = path ++ codes ".agents-tmp"

abbrev fails : EditError → Files → Edited
fails e files = record { result = failed e; files = files }

-- The end of `write_atomic` where the write failed.
pub abandon : Failures → Bytes → Bytes → Files → Edited
abandon f path partial files =
    if f.remove
    then fails error_writing_file (put_file (tmp_path path) (some partial) files)
    else fails (failed_to_write path) (put_file (tmp_path path) none files)

-- `write_atomic`, and the answer `diff` where it succeeds. An exception of it is
-- `error_writing_file` to both callers.
unfoldable pub write_atomic : Failures → Bytes → Bytes → Bytes → Files → Edited
write_atomic f path content diff files =
    if f.open_out then fails (failed_to_open path) files else elim f.write [
      | some partial ↦ abandon f path partial files
      | none ↦
          if f.rename
          then fails error_writing_file (put_file (tmp_path path) (some content) files)
          else record {
            result = ok diff;
            files = put_file (tmp_path path) none (put_file path (some content) files);
          }
    ]

unfoldable pub additions_only_lines : List PatchLine → Bool
additions_only_lines [] = true
additions_only_lines (line ∷ lines) =
    if not (line.kind == b'+') then false else additions_only_lines lines

-- The loop of `additions_only` over the hunks.
unfoldable pub additions_loop : List Hunk → Bool
additions_loop [] = true
additions_loop (hunk ∷ hunks) =
    if additions_only_lines hunk.lines then additions_loop hunks else false

unfoldable pub additions_only : List Hunk → Bool
additions_only hunks = if is_empty hunks then false else additions_loop hunks

unfoldable pub texts : List PatchLine → List Bytes
texts [] = []
texts (line ∷ lines) = line.text ∷ texts lines

unfoldable pub all_texts : List Hunk → List Bytes
all_texts [] = []
all_texts (hunk ∷ hunks) = texts hunk.lines ++ all_texts hunks

-- The branch for a path that could not be opened.
pub create_file : Failures → Bytes → List Hunk → Files → Edited
create_file f path hunks files =
    let lines = all_texts hunks in
    if not (additions_only hunks)
    then fails (does_not_exist path) files
    else if f.create_directories
    then fails error_writing_file files
    else write_atomic f path (join_lines lines (not (is_empty lines)))
        (format_diff path [] (record { from = 0; old_len = 0; neu = lines } ∷ []) true) files

-- What the spans make of the text, with its trailing newline.
unfoldable pub updated_body : Bytes → List Span → Bytes
updated_body original spans =
    let file = split_lines original in
    let updated = apply_spans file.lines spans in
    join_lines updated
      (if is_empty original && not (is_empty updated) then true else file.trailing_newline)

-- The end of `edit_file`, for the spans that were placed.
unfoldable pub write_spans : Failures → Bytes → Bytes → List Span → Files → Edited
write_spans f path original spans files =
    let body = updated_body original spans in
    if bytes_eq body original
    then fails no_change files
    else write_atomic f path body (format_diff path (split_lines original).lines spans false) files

unfoldable pub write_placed : Failures → Bytes → Bytes → Result (List Span) → Files → Edited
write_placed f path original (failed e) files = fails e files
write_placed f path original (ok spans) files = write_spans f path original spans files

unfoldable pub change_file : Failures → Bytes → Bytes → List Hunk → Files → Edited
change_file f path original hunks files =
    write_placed f path original (place_loop path (split_lines original).lines [] hunks) files

-- The path that could be opened has `original` for its content.
unfoldable pub edit_opened : Failures → Bytes → Option Bytes → List Hunk → Bool → Files → Edited
edit_opened f path none hunks new_file files = create_file f path hunks files
edit_opened f path (some original) hunks new_file files =
    if f.read
    then fails (failed_to_read path) files
    else if new_file
    then fails (already_exists path) files
    else change_file f path original hunks files

unfoldable pub edit_parsed : Failures → Bytes → Result (List Hunk × Bool) → Files → Edited
edit_parsed f path (failed e) files = fails e files
edit_parsed f path (ok (hunks, new_file)) files =
    edit_opened f path (if f.open_in then none else files path) hunks new_file files

-- `none` stands for an argument that is missing or no string.
unfoldable pub edit_file : Failures → Option Bytes → Option Bytes → Files → Edited
edit_file f none patch files = fails missing_path files
edit_file f (some path) none files = fails missing_patch files
edit_file f (some path) (some patch) files = edit_parsed f path (parse_patch patch path) files
