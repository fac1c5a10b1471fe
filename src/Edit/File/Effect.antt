-- ===== src/Edit/File/Effect.antt =====
-- The files before and behind `edit_file` (src/common/tools/tool_edit_file.cpp): definitions and lemmas
-- for each of its branches.
use llama_onprem_server.Prelude.{
  Option, none, some, length, length-append, Bytes, bytes_eq, bytes_eq_iff, bytes_eq_refl, codes,
  ◌≡◌, ◌≢◌, ◌⊎◌, inl, inr, refl, sym, ap, ◌∙◌, arith, Bool-cases, Option-cases,
}
use llama_onprem_server.Store.Disk.{bytes_eq_ne}
use llama_onprem_server.Edit.{EditError, Result, ok, failed}
use llama_onprem_server.Edit.File.{Files, put_file, Failures, tmp_path, abandon, write_atomic}

-- The file at `q` is as it was, or it is the temporary file beside `path`.
abbrev pub IsKept : Bytes → Files → Files → Bytes → Type 0
IsKept path before after q = (q ≡ tmp_path path) ⊎ (after q ≡ before q)

put_file-IsKept :
    (path : Bytes) (content : Option Bytes) (files : Files) (q : Bytes)
    → IsKept path files (put_file (tmp_path path) content files) q
unfolding put_file
put_file-IsKept path content files q = elim (Bool-cases (bytes_eq (tmp_path path) q)) [
  | inl e ↦ inl (sym ((bytes_eq_iff (tmp_path path) q).0 e))
  | inr e ↦ inr (rw e)
]

-- `body` stands at `path`, the temporary file is gone and every other file is as it was.
abbrev pub IsWritten : Bytes → Bytes → Files → Files → Type 0
IsWritten path body before after =
    (after path ≡ some body)
    × (after (tmp_path path) ≡ none)
    × ((q : Bytes) → IsKept path before after q ⊎ (q ≡ path))

-- What was answered decides what happened to the files: on an error nothing is written, and else the
-- file holds a body with the property `P`.
abbrev pub Effect : (Bytes → Type 0) → Bytes → Files → Result Bytes → Files → Type 0
Effect P path before (failed e) after = (q : Bytes) → IsKept path before after q
Effect P path before (ok diff) after = (body : Bytes) × P body × IsWritten path body before after

tmp_path_ne : (path : Bytes) → tmp_path path ≢ path
tmp_path_ne path e = omega (arith, ap length e, length-append path (codes ".agents-tmp"))

put_file_same :
    (path : Bytes) (content : Option Bytes) (files : Files)
    → put_file path content files path ≡ content
unfolding put_file
put_file_same path content files = rw (bytes_eq_refl path)

put_file_ne :
    (path : Bytes) (content : Option Bytes) (files : Files) (q : Bytes)
    → path ≢ q
    → put_file path content files q ≡ files q
unfolding put_file
put_file_ne path content files q ne = rw (bytes_eq_ne path q ne)

put_file-IsWritten :
    (path body : Bytes) (files : Files)
    → IsWritten path body files (put_file (tmp_path path) none (put_file path (some body) files))
put_file-IsWritten path body files =
    let after = put_file path (some body) files in
    (
      put_file_ne (tmp_path path) none after path (tmp_path_ne path)
          ∙ put_file_same path (some body) files,
      put_file_same (tmp_path path) none after,
      λ q. kept q,
    )
  where
    kept :
        (q : Bytes)
        → IsKept path files (put_file (tmp_path path) none (put_file path (some body) files)) q
          ⊎ (q ≡ path)
    kept q = elim (Bool-cases (bytes_eq path q)) [
      | inl e ↦ inr (sym ((bytes_eq_iff path q).0 e))
      | inr e ↦ elim (put_file-IsKept path none (put_file path (some body) files) q) [
        | inl t ↦ inl (inl t)
        | inr k ↦ inl (inr (k ∙ (unfold put_file in rw e)))
      ]
    ]

-- An error that left the files alone.
pub fails-Effect :
    (P : Bytes → Type 0) (path : Bytes) (e : EditError) (files : Files)
    → Effect P path files (failed e) files
fails-Effect P path e files = λ q. inr refl

pub write_atomic-Effect :
    (P : Bytes → Type 0) (f : Failures) (path body diff : Bytes) (files : Files)
    → P body
    → Effect P path files
        (write_atomic f path body diff files).result
        (write_atomic f path body diff files).files
unfolding write_atomic abandon
write_atomic-Effect P f path body diff files p = elim (Bool-cases f.open_out) [
  | inl e ↦ rw e (λ q. inr refl)
  | inr e ↦ elim (Option-cases f.write) [
    | inl w ↦ elim (Bool-cases f.rename) [
      | inl r ↦ rw (e, w, r) (λ q. put_file-IsKept path (some body) files q)
      | inr r ↦ rw (e, w, r) (body, p, put_file-IsWritten path body files)
    ]
    | inr (partial, w) ↦ elim (Bool-cases f.remove) [
      | inl r ↦ rw (e, w, r) (λ q. put_file-IsKept path (some partial) files q)
      | inr r ↦ rw (e, w, r) (λ q. put_file-IsKept path none files q)
    ]
  ]
]

pub Effect-imp :
    (P Q : Bytes → Type 0) (path : Bytes) (before : Files) (r : Result Bytes) (after : Files)
    → ((body : Bytes) → P body → Q body)
    → Effect P path before r after
    → Effect Q path before r after
Effect-imp P Q path before (failed e) after f h = h
Effect-imp P Q path before (ok diff) after f (body, p, w) = (body, f body p, w)
