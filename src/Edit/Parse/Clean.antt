-- ===== src/Edit/Parse/Clean.antt =====
-- Lemmas about the lines of a printed patch and `patch_lines`
-- (src/common/tools/tool_edit_file.cpp).
use llama_onprem_server.Prelude.{
  ℕ, zero, suc, ◌+◌, ◌%◌, ◌/◌, true, false, List, [], ◌∷◌, ◌++◌, map, Bytes, codes, ◌==◌, back_is,
  back_is-append, ◌≡◌, refl, ◌∙◌, arith, All, All-append, Bool-cases, inl, inr,
}
use llama_onprem_server.Jobs.TokenBuffer.{is_empty}
use llama_onprem_server.Edit.{PatchLine}
use llama_onprem_server.Prelude.Decimal.{digits_of, to_string}
use llama_onprem_server.Edit.Diff.{range_text}
use llama_onprem_server.Edit.Lines.Split.{IsLine}
use llama_onprem_server.Edit.Lines.Patch.{IsClean}
use llama_onprem_server.Edit.Parse.{is_kind}
use llama_onprem_server.Edit.Parse.Header.{header_line}
use llama_onprem_server.Edit.Parse.Rows.{row, IsPlain, Printed, AllPrintable, hunk_rows, all_rows}

digit_ne : (n : ℕ) → ((b'0' + n % 10) == b'\n') ≡ false
digit_ne n = ground arith

digits_of-IsLine : (fuel n : ℕ) (text : Bytes) → IsLine text → IsLine (digits_of fuel n text)
unfolding digits_of
digits_of-IsLine zero n text h = h
digits_of-IsLine (suc fuel) n text h = elim (Bool-cases (n / 10 == 0)) [
  | inl e ↦ rw e (digit_ne n, h)
  | inr e ↦ rw e (digits_of-IsLine fuel (n / 10) ((b'0' + n % 10) ∷ text) (digit_ne n, h))
]

to_string-IsLine : (n : ℕ) → IsLine (to_string n)
unfolding to_string
to_string-IsLine n = digits_of-IsLine (n + 1) n [] tt

append-IsLine : (a b : Bytes) → IsLine a → IsLine b → IsLine (a ++ b)
append-IsLine a b h k = All-append (λ c. (c == b'\n') ≡ false) a b h k

range_text-IsLine : (a b : ℕ) → IsLine (range_text a b)
unfolding range_text
range_text-IsLine a b =
    append-IsLine (to_string a) (b',' ∷ to_string b) (to_string-IsLine a) (refl, to_string-IsLine b)

-- A text that ends in another byte than '\r'.
abbrev Ends : Bytes → Type 0
Ends text = (is_empty text ≡ false) × (back_is b'\r' text ≡ false)

append-Ends : (a b : Bytes) → Ends b → Ends (a ++ b)
append-Ends a [] h = cc
append-Ends [] (c ∷ b) h = h
append-Ends (x ∷ a) (c ∷ b) h = (refl, back_is-append b'\r' (x ∷ a) c b ∙ h.1)

header_line-IsClean : (a b c d : ℕ) → IsClean (header_line a b c d)
unfolding header_line back_is
header_line-IsClean a b c d = (
  append-IsLine (codes "@@ -") _ (refl, (refl, (refl, (refl, tt))))
      (append-IsLine (range_text a b) _ (range_text-IsLine a b) (
        append-IsLine (codes " +") _ (refl, (refl, tt))
          (append-IsLine (range_text c d) (codes " @@") (range_text-IsLine c d)
            (refl, (refl, (refl, tt)))))),
  (append-Ends (codes "@@ -") _ (
      append-Ends (range_text a b) _
        (append-Ends (codes " +") _ (append-Ends (range_text c d) (codes " @@") (refl, refl))))).1,
)

row-back_is :
    (kind : ℕ) (text : Bytes)
    → is_kind kind ≡ true
    → back_is b'\r' text ≡ false
    → back_is b'\r' (kind ∷ text) ≡ false
unfolding back_is
row-back_is kind [] k h = ground arith
row-back_is kind (x ∷ text) k h = h

row-IsClean : (line : PatchLine) → is_kind line.kind ≡ true → IsClean line.text → IsClean (row line)
row-IsClean line k c = ((not_newline line.kind k, c.0), row-back_is line.kind line.text k c.1)
  where
    not_newline : (kind : ℕ) → is_kind kind ≡ true → (kind == b'\n') ≡ false
    not_newline kind k = ground arith

rows-IsClean :
    (lines : List PatchLine)
    → All IsPlain lines
    → All (λ l. IsClean l.text) lines
    → All IsClean (map row lines)
rows-IsClean [] p c = tt
rows-IsClean (line ∷ lines) p c = (row-IsClean line p.0.0 c.0, rows-IsClean lines p.1 c.1)

-- The texts of the hunks are clean.
abbrev pub AllClean : List Printed → Type 0
AllClean [] = Unit
AllClean (p ∷ ps) = All (λ l. IsClean l.text) p.hunk.lines × AllClean ps

pub all_rows-IsClean :
    (n : ℕ) (ps : List Printed) → AllPrintable n ps → AllClean ps → All IsClean (all_rows ps)
unfolding all_rows hunk_rows
all_rows-IsClean n [] p c = tt
all_rows-IsClean n (x ∷ ps) p c =
    All-append IsClean (hunk_rows x) (all_rows ps)
      (header_line-IsClean _ _ _ _, rows-IsClean x.hunk.lines p.0.3 c.0)
      (all_rows-IsClean (n + 1) ps p.1 c.1)
