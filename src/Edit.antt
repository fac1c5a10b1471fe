-- ===== src/Edit.antt =====
-- The `edit_file` tool (src/common/tools/tool_edit_file.cpp): a unified diff is parsed, its hunks are
-- located in the file and the file is written anew. Each message that the tool returns is a case of
-- `EditError`, with what the message names.
pub mod Lines
pub mod Header
pub mod Parse
pub mod Match
pub mod Spans
pub mod Decimal
pub mod Diff
pub mod File
use llama_onprem_server.Prelude.{ℕ, Bool, List, Bytes, ◌≡◌, refl}

-- The file as lines, without their newlines.
pub record FileText : Type 0 where
  pub lines : List Bytes
  pub trailing_newline : Bool

pub record PatchLine : Type 0 where
  pub kind : ℕ
  pub text : Bytes

-- The numbers are `int` in the source, where one that is too large is undefined behaviour.
pub record Hunk : Type 0 where
  pub number : ℕ
  pub old_start : ℕ
  pub old_count : ℕ
  pub pure_insert : Bool
  pub lines : List PatchLine

-- `old_len` lines at `from` give way to `neu`.
pub record Span : Type 0 where
  pub from : ℕ
  pub old_len : ℕ
  pub neu : List Bytes

pub data EditError : Type 0 where
  missing_path missing_patch : EditError
  empty_hunk : ℕ → EditError
  malformed_header : Bytes → EditError
  bad_line : ℕ → Bytes → EditError
  more_than_one_file no_hunks deletes_file : EditError
  other_target : Bytes → Bytes → EditError
  failed_to_read already_exists does_not_exist : Bytes → EditError
  no_context : ℕ → EditError
  past_the_end : ℕ → ℕ → Bytes → ℕ → EditError
  matches_more_than_one_place did_not_match : ℕ → Bytes → EditError
  overlaps_earlier_hunk : ℕ → EditError
  no_change : EditError
  failed_to_open failed_to_write : Bytes → EditError
  error_writing_file : EditError

pub data Result {ℓ} (A : Type ℓ) : Type ℓ where
  ok : A → Result A
  failed : EditError → Result A

infixl 5 ◌>>=◌
abbrev pub ◌>>=◌ {ℓ κ} : {A : Type ℓ} {B : Type κ} → Result A → (A → Result B) → Result B
ok a >>= f = f a
failed e >>= f = failed e

-- A chain that succeeds went through its first step.
pub >>=-ok :
    {A : Type 0} {B : Type 0} {b : B} (step : A → Result B) (first : Result A)
    → (first >>= step) ≡ ok b
    → (x : A) × (step x ≡ ok b) × (first ≡ ok x)
>>=-ok step (failed error) e = cc
>>=-ok step (ok x) e = (x, e, refl)
