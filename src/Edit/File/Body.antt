-- ===== src/Edit/File/Body.antt =====
-- The body that `edit_file` (src/common/tools/tool_edit_file.cpp) writes, described without the
-- order of the spans, and a theorem about it.
use llama_onprem_server.Prelude.{
  Bool, true, false, not, ◌&&◌, List, [], ◌∷◌, Option, none, some, if◌then◌else◌, Bytes, bytes_eq,
  bytes_eq_iff, ◌≡◌, ◌≢◌, inl, inr, refl, arith, Bool-cases,
}
use llama_onprem_server.Jobs.TokenBuffer.{is_empty}
use llama_onprem_server.Edit.{Hunk, Span, Result, ok, failed}
use llama_onprem_server.Edit.Lines.{split_lines, join_lines}
use llama_onprem_server.Edit.Parse.{parse_patch}
use llama_onprem_server.Edit.Spans.{place_loop}
use llama_onprem_server.Edit.Spans.Patched.{patched}
use llama_onprem_server.Edit.Spans.Order.{place_loop-patched}
use llama_onprem_server.Edit.File.{
  Files, Failures, additions_only, all_texts, create_file, updated_body, write_spans, change_file,
  edit_opened, write_placed, edit_parsed, edit_file,
}
use llama_onprem_server.Edit.File.Effect.{Effect, write_atomic-Effect, Effect-imp}

-- The lines of the file with what each span inserts and without what each span removes. A file that
-- was empty gets a trailing newline, and any other keeps the one that it has or has not.
abbrev pub IsPatched : Bytes → List Span → Bytes → Type 0
IsPatched original spans body =
    let lines = patched 0 (split_lines original).lines spans in
    (body ≢ original)
    × (body
        ≡ join_lines lines (
            if is_empty original && not (is_empty lines)
            then true
            else (split_lines original).trailing_newline))

-- The body comes from the hunks: they were placed in the content that was read, or they make up a
-- new file.
abbrev pub IsBody : Bytes → Option Bytes → List Hunk → Bytes → Type 0
IsBody path (some original) hunks body =
    (spans : List Span) × (place_loop path (split_lines original).lines [] hunks ≡ ok spans)
    × IsPatched original spans body
IsBody path none hunks body =
    (additions_only hunks ≡ true) × (body ≡ join_lines (all_texts hunks) true)

bytes_eq-false : (a b : Bytes) → bytes_eq a b ≡ false → a ≢ b
bytes_eq-false a b h e = ground (arith, bytes_eq_iff a b)

write_spans-Effect :
    (f : Failures) (path original : Bytes) (hunks : List Hunk) (spans : List Span) (files : Files)
    → place_loop path (split_lines original).lines [] hunks ≡ ok spans
    → Effect
        (IsBody path (some original) hunks)
        path
        files
        (write_spans f path original spans files).result
        (write_spans f path original spans files).files
unfolding write_spans updated_body
write_spans-Effect f path original hunks spans files h =
    elim (Bool-cases (bytes_eq (updated_body original spans) original)) [
      | inl e ↦ rw e (λ q. inr refl)
      | inr e ↦ rw e (
          write_atomic-Effect (IsBody path (some original) hunks) f path
            (updated_body original spans) _ files
            (
              spans,
              h,
              (
                bytes_eq-false _ _ e,
                rw (place_loop-patched path (split_lines original).lines hunks spans h),
              ),
            ))
    ]

write_placed-Effect :
    (f : Failures) (path original : Bytes) (hunks : List Hunk) (r : Result (List Span))
    (files : Files)
    → place_loop path (split_lines original).lines [] hunks ≡ r
    → Effect
        (IsBody path (some original) hunks)
        path
        files
        (write_placed f path original r files).result
        (write_placed f path original r files).files
unfolding write_placed
write_placed-Effect f path original hunks (failed e) files h = λ q. inr refl
write_placed-Effect f path original hunks (ok spans) files h =
    write_spans-Effect f path original hunks spans files h

change_file-Effect :
    (f : Failures) (path original : Bytes) (hunks : List Hunk) (files : Files)
    → Effect
        (IsBody path (some original) hunks)
        path
        files
        (change_file f path original hunks files).result
        (change_file f path original hunks files).files
unfolding change_file
change_file-Effect f path original hunks files =
    write_placed-Effect f path original hunks _ files refl

join_lines_new :
    (lines : List Bytes) → join_lines lines (not (is_empty lines)) ≡ join_lines lines true
unfolding join_lines
join_lines_new [] = refl
join_lines_new (line ∷ lines) = refl

create_file-Effect :
    (f : Failures) (path : Bytes) (hunks : List Hunk) (files : Files)
    → Effect
        (IsBody path none hunks)
        path
        files
        (create_file f path hunks files).result
        (create_file f path hunks files).files
unfolding create_file
create_file-Effect f path hunks files = elim (Bool-cases (additions_only hunks)) [
  | inr e ↦ rw e (λ q. inr refl)
  | inl a ↦ elim (Bool-cases f.create_directories) [
    | inl e ↦ simp (a, e) (λ q. inr refl)
    | inr e ↦
        simp (a, e)
          (write_atomic-Effect (IsBody path none hunks) f path _ _ files
            (a, join_lines_new (all_texts hunks)))
  ]
]

edit_opened-Effect :
    (f : Failures) (path : Bytes) (opened : Option Bytes) (hunks : List Hunk) (new_file : Bool)
    (files : Files)
    → Effect
        (IsBody path opened hunks)
        path
        files
        (edit_opened f path opened hunks new_file files).result
        (edit_opened f path opened hunks new_file files).files
unfolding edit_opened
edit_opened-Effect f path none hunks new_file files = create_file-Effect f path hunks files
edit_opened-Effect f path (some original) hunks new_file files = elim (Bool-cases f.read) [
  | inl e ↦ rw e (λ q. inr refl)
  | inr e ↦ elim (Bool-cases new_file) [
    | inl n ↦ simp (e, n) (λ q. inr refl)
    | inr n ↦ simp (e, n) (change_file-Effect f path original hunks files)
  ]
]

-- The content that `edit_file` reads.
abbrev pub opened : Failures → Bytes → Files → Option Bytes
opened f path files = if f.open_in then none else files path

-- The body comes from the patch.
abbrev pub IsBodyOf : Failures → Bytes → Bytes → Files → Bytes → Type 0
IsBodyOf f path patch files body =
    (hunks : List Hunk) × (new_file : Bool) × (parse_patch patch path ≡ ok (hunks, new_file))
    × IsBody path (opened f path files) hunks body

edit_parsed-Effect :
    (f : Failures) (path patch : Bytes) (r : Result (List Hunk × Bool)) (files : Files)
    → parse_patch patch path ≡ r
    → Effect
        (IsBodyOf f path patch files)
        path
        files
        (edit_parsed f path r files).result
        (edit_parsed f path r files).files
unfolding edit_parsed
edit_parsed-Effect f path patch (failed e) files h = λ q. inr refl
edit_parsed-Effect f path patch (ok (hunks, new_file)) files h =
    Effect-imp (IsBody path (opened f path files) hunks) (IsBodyOf f path patch files) path files _
      _ (λ body b. (hunks, new_file, h, b))
      (edit_opened-Effect f path (opened f path files) hunks new_file files)

-- For every path, patch and pattern of failures of the file system: where `edit_file` answers with an
-- error, no file but the temporary one beside the path has changed. Where it answers with a diff, the
-- temporary file is gone, no file but the one at the path has changed, and that one holds, if it
-- could be read before, the joined lines of its old content as the placed hunks of the patch make
-- them, which differ from the old content, and else the added lines of a patch that only adds.
pub edit_file-Effect :
    (f : Failures) (path patch : Bytes) (files : Files)
    → Effect
        (IsBodyOf f path patch files)
        path
        files
        (edit_file f (some path) (some patch) files).result
        (edit_file f (some path) (some patch) files).files
unfolding edit_file
edit_file-Effect f path patch files = edit_parsed-Effect f path patch _ files refl
