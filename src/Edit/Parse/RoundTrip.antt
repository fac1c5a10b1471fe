-- ===== src/Edit/Parse/RoundTrip.antt =====
-- `parse_patch` (src/common/tools/tool_edit_file.cpp) on the text of a patch.
use llama_onprem_server.Prelude.{
  ℕ, Bool, true, false, if◌then◌else◌, List, [], ◌∷◌, ◌++◌, none, leb, length, Bytes, codes,
  bytes_eq, starts_with, find_byte, back_is, ◌≡◌, refl, ap, ◌∙◌, Bool-cases, inl, inr,
}
use llama_onprem_server.Jobs.TokenBuffer.{is_empty}
use llama_onprem_server.Edit.{Result, ok, failed, ◌>>=◌}
use llama_onprem_server.Edit.Header.{
  header_path, without_marker, before_tab, without_quotes, same_target,
}
use llama_onprem_server.Edit.Lines.Patch.{IsClean, unlines, patch_lines-unlines}
use llama_onprem_server.Edit.Parse.{
  Parser, initial, close_hunk, outside_line, old_header, new_header, parse_line, parse_loop,
  finish_parse, parse_patch,
}
use llama_onprem_server.Edit.Parse.Clean.{AllClean, all_rows-IsClean}
use llama_onprem_server.Edit.Parse.Rows.{
  Printed, AllPrintable, hunks_of, all_rows, between, parse_loop-all_rows,
}

-- A path that stands in a header as it is, and that names the file that it is given for.
abbrev pub IsPath : Bytes → Type 0
IsPath path =
    IsClean path
    × (find_byte b'\t' path ≡ none)
    × (starts_with path (b'"' ∷ []) ≡ false)
    × (bytes_eq path (codes "/dev/null") ≡ false)
    × (is_empty path ≡ false)
    × (same_target path path ≡ true)

before_tab-none : (path : Bytes) → find_byte b'\t' path ≡ none → before_tab path ≡ path
unfolding before_tab
before_tab-none path h = rw (before_tab, h)

without_quotes-none :
    (path : Bytes) → starts_with path (b'"' ∷ []) ≡ false → without_quotes path ≡ path
unfolding without_quotes
without_quotes-none path h = elim (Bool-cases (leb 2 (length path))) [
  | inl e ↦ rw (e, h)
  | inr e ↦ rw e
]

plain_path : (path : Bytes) → IsPath path → without_quotes (before_tab path) ≡ path
plain_path path h = ap without_quotes (before_tab-none path h.1) ∙ without_quotes-none path h.2

header_path-old : (path : Bytes) → IsPath path → header_path (codes "--- " ++ path) ≡ path
unfolding header_path without_marker starts_with
header_path-old path h = plain_path path h

header_path-null : header_path (codes "--- /dev/null") ≡ codes "/dev/null"
unfolding header_path without_marker starts_with before_tab without_quotes find_byte
header_path-null = refl

header_path-new : (path : Bytes) → IsPath path → header_path (codes "+++ " ++ path) ≡ path
unfolding header_path without_marker starts_with
header_path-new path h = plain_path path h

ends :
    (a b c : ℕ) (path : Bytes)
    → back_is b'\r' path ≡ false
    → back_is b'\r' (a ∷ b ∷ c ∷ b' ' ∷ path) ≡ false
unfolding back_is
ends a b c [] h = refl
ends a b c (x ∷ path) h = h

-- The name of the old side: a new file has none.
abbrev pub old_name : Bytes → Bool → Bytes
old_name path created = if created then codes "/dev/null" else path

old_line-IsClean : (name : Bytes) → IsClean name → IsClean (codes "--- " ++ name)
unfolding back_is
old_line-IsClean path h = ((refl, (refl, (refl, (refl, h.0)))), ends b'-' b'-' b'-' path h.1)

old_name-IsClean :
    (path : Bytes) (created : Bool) → IsClean path → IsClean (codes "--- " ++ old_name path created)
unfolding back_is
old_name-IsClean path false h = old_line-IsClean path h
old_name-IsClean path true h =
    old_line-IsClean (codes "/dev/null")
      ((refl, (refl, (refl, (refl, (refl, (refl, (refl, (refl, (refl, tt))))))))), refl)

new_name-IsClean : (path : Bytes) → IsClean path → IsClean (codes "+++ " ++ path)
unfolding back_is
new_name-IsClean path h = ((refl, (refl, (refl, (refl, h.0)))), ends b'+' b'+' b'+' path h.1)

-- The text of a patch of one file, for a new file or one that exists.
unfoldable pub patch_rows : Bytes → Bool → List Printed → List Bytes
patch_rows path created ps =
    (codes "--- " ++ old_name path created) ∷ (codes "+++ " ++ path) ∷ all_rows ps

-- The parser behind the headers of the file.
abbrev named : Bytes → Bool → Parser
named path created = record initial { saw_old_null = created; new_headers = 1; plus_path = path }

parse_loop-headers :
    (path : Bytes) (created : Bool) (rows : List Bytes)
    → IsPath path
    → parse_loop initial ((codes "--- " ++ old_name path created) ∷ (codes "+++ " ++ path) ∷ rows)
      ≡ parse_loop (named path created) rows
unfolding parse_loop parse_line outside_line old_header new_header starts_with bytes_eq
parse_loop-headers path true rows h = rw (header_path-null, header_path-new path h, h.3)
parse_loop-headers path false rows h = rw (header_path-old path h, header_path-new path h, h.3)

finish_parse-named :
    (path : Bytes) (created : Bool) (p : Printed) (ps : List Printed)
    → IsPath path
    → finish_parse path (between (named path created) (hunks_of (p ∷ ps)))
      ≡ ok (hunks_of (p ∷ ps), created)
unfolding finish_parse hunks_of
finish_parse-named path created p ps h = rw (h.4, h.5)

-- The end of the loop, with what is behind it.
>>=-close :
    {B : Type 0} (m : Result Parser) (f : Parser → Result B) {q : Parser}
    → (m >>= close_hunk) ≡ ok q
    → (m >>= λ p. close_hunk p >>= f) ≡ f q
>>=-close (ok p) f h = rw h
>>=-close (failed e) f h = cc

-- For a path without a tab or a quote, which names the file that it is given for, and hunks that are
-- numbered from 1, hold a line each, and whose lines are of the three kinds, hold no newline, do not
-- end in '\r' and do not read as a header of a file: `parse_patch` gives the hunks of their printed
-- patch, and says that the file is new where the patch has "/dev/null" as the old side.
pub parse_patch-unlines :
    (path : Bytes) (created : Bool) (p : Printed) (ps : List Printed)
    → IsPath path
    → AllPrintable 1 (p ∷ ps)
    → AllClean (p ∷ ps)
    → parse_patch (unlines (patch_rows path created (p ∷ ps))) path
      ≡ ok (hunks_of (p ∷ ps), created)
unfolding parse_patch patch_rows close_hunk
parse_patch-unlines path created p ps h printable clean =
    rw
      (
        patch_lines-unlines (patch_rows path created (p ∷ ps)) (
          old_name-IsClean path created h.0,
          (new_name-IsClean path h.0, all_rows-IsClean 1 (p ∷ ps) printable clean),
        ),
        parse_loop-headers path created (all_rows (p ∷ ps)) h,
      )
      (>>=-close _ (finish_parse path)
          (parse_loop-all_rows (named path created) (named path created) [] (p ∷ ps) refl printable)
        ∙ finish_parse-named path created p ps h)
