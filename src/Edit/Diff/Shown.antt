-- ===== src/Edit/Diff/Shown.antt =====
-- Lemmas about the hunks of `format_diff` (src/common/tools/tool_edit_file.cpp): what lines and
-- spans a diff can show.
use llama_onprem_server.Prelude.{
  ℕ, ◌+◌, ◌-◌, ◌≤◌, ◌<◌, ◌^◌, Bool, true, false, ◌==◌, if◌then◌else◌, ◌||◌, List, [], ◌∷◌, ◌++◌,
  length, length-append, length-map, length-take, length-drop, take, drop, Bytes, codes,
  starts_with, ◌≡◌, refl, arith, All, All-append, All-take, All-drop,
}
use llama_onprem_server.Jobs.TokenBuffer.{is_empty}
use llama_onprem_server.Edit.{PatchLine, Span}
use llama_onprem_server.Edit.Diff.{next_start}
use llama_onprem_server.Edit.Diff.Rows.{
  as_line, marked, span_lines, span_printed, span_new_count, context_lo, context_hi, diff_printed,
}
use llama_onprem_server.Edit.Lines.Patch.{IsClean}
use llama_onprem_server.Edit.Parse.Clean.{AllClean}
use llama_onprem_server.Edit.Parse.Rows.{IsPlain, IsInt32, AllPrintable}
use llama_onprem_server.Edit.Spans.Apart.{IsWithin}

-- A line of a file that a diff can show: no '\r' at its end, and behind '-' or '+' it is not the start
-- of a header of a file.
abbrev pub IsShown : Bytes → Type 0
IsShown t =
    IsClean t × (starts_with t (codes "-- ") ≡ false) × (starts_with t (codes "++ ") ≡ false)

-- A span that changes something, ends within the file and inserts lines that a diff can show, and
-- leaves a number of lines that is an `int`.
abbrev pub IsShownSpan : ℕ → Span → Type 0
IsShownSpan n span =
    IsWithin n span
    × (0 < span.old_len + length span.neu)
    × All IsShown span.neu
    × (n + length span.neu < 2 ^ 31)

context-IsPlain : (ts : List Bytes) → All IsPlain (marked b' ' ts)
unfolding starts_with
context-IsPlain [] = tt
context-IsPlain (t ∷ ts) = ((refl, refl), context-IsPlain ts)

or_false_right : (a : Bool) → a ≡ false → a || false ≡ false
or_false_right a h = rw h

removed-IsPlain : (ts : List Bytes) → All IsShown ts → All IsPlain (marked b'-' ts)
unfolding starts_with
removed-IsPlain [] h = tt
removed-IsPlain (t ∷ ts) h = ((refl, or_false_right _ h.0.1), removed-IsPlain ts h.1)

added-IsPlain : (ts : List Bytes) → All IsShown ts → All IsPlain (marked b'+' ts)
unfolding starts_with
added-IsPlain [] h = tt
added-IsPlain (t ∷ ts) h = ((refl, h.0.2), added-IsPlain ts h.1)

marked-AllClean :
    (kind : ℕ) (ts : List Bytes) → All IsShown ts → All (λ l. IsClean l.text) (marked kind ts)
marked-AllClean kind [] h = tt
marked-AllClean kind (t ∷ ts) h = (h.0.0, marked-AllClean kind ts h.1)

module _ (P : PatchLine → Type 0) where
  All-append_four :
      (a b c d : List PatchLine)
      → All P a
      → All P b
      → All P c
      → All P d
      → All P (a ++ (b ++ (c ++ d)))
  All-append_four a b c d ha hb hc hd =
      All-append P a _ ha (All-append P b _ hb (All-append P c d hc hd))

is_empty-length : {A : Type 0} (xs : List A) → 0 < length xs → is_empty xs ≡ false
is_empty-length [] h = absurd (omega arith)
is_empty-length (x ∷ xs) h = refl

length-four : (a b c d : List PatchLine) → length b + length c ≤ length (a ++ (b ++ (c ++ d)))
length-four a b c d =
    omega (arith, length-append a (b ++ (c ++ d)), length-append b (c ++ d), length-append c d)

span_lines-is_empty :
    (old_lines : List Bytes) (prev_end next_from : ℕ) (span : Span)
    → IsWithin (length old_lines) span
    → 0 < span.old_len + length span.neu
    → is_empty (span_lines old_lines prev_end next_from span) ≡ false
span_lines-is_empty old_lines prev_end next_from span w h =
    let from = span.from in
    let removed = marked b'-' (take ((from + span.old_len) - from) (drop from old_lines)) in
    is_empty-length _ (
      omega (
        arith,
        length-four _ removed (marked b'+' span.neu) _,
        length-map (take ((from + span.old_len) - from) (drop from old_lines)) (as_line b'-'),
        length-map span.neu (as_line b'+'),
        length-take ((from + span.old_len) - from) (drop from old_lines),
        length-drop from old_lines,
      ))

span_lines-IsPlain :
    (old_lines : List Bytes) (prev_end next_from : ℕ) (span : Span)
    → All IsShown old_lines
    → All IsShown span.neu
    → All IsPlain (span_lines old_lines prev_end next_from span)
span_lines-IsPlain old_lines prev_end next_from span old new =
    All-append_four IsPlain _ _ _ _ (context-IsPlain _)
      (removed-IsPlain _ (All-take IsShown _ _ (All-drop IsShown span.from old_lines old)))
      (added-IsPlain span.neu new) (context-IsPlain _)

span_lines-AllClean :
    (old_lines : List Bytes) (prev_end next_from : ℕ) (span : Span)
    → All IsShown old_lines
    → All IsShown span.neu
    → All (λ l. IsClean l.text) (span_lines old_lines prev_end next_from span)
span_lines-AllClean old_lines prev_end next_from span old new =
    let part : (n m : ℕ) → All IsShown (take n (drop m old_lines)) =
      λ n m. All-take IsShown n _ (All-drop IsShown m old_lines old) in
    All-append_four (λ l. IsClean l.text) _ _ _ _ (marked-AllClean b' ' _ (part _ _))
      (marked-AllClean b'-' _ (part _ _)) (marked-AllClean b'+' span.neu new)
      (marked-AllClean b' ' _ (part _ _))

start_small : (b : Bool) (m n : ℕ) → m < 2 ^ 32 → n < 2 ^ 32 → (if b then m else n) < 2 ^ 32
start_small true m n hm hn = hm
start_small false m n hm hn = hn

span_printed-IsInt32 :
    (old_lines : List Bytes) (number prev_end next_from : ℕ) (span : Span)
    → prev_end ≤ length old_lines
    → IsShownSpan (length old_lines) span
    → IsInt32 (span_printed old_lines number prev_end next_from span)
span_printed-IsInt32 old_lines number prev_end next_from span before h =
    let within : span.from + span.old_len ≤ length old_lines = h.0 in
    let small : length old_lines + length span.neu < 2 ^ 31 = h.3 in
    let old_count = context_hi next_from span - context_lo prev_end span in
    let new_count = span_new_count prev_end next_from span in
    (
      start_small (old_count == 0) span.from _ (omega arith) (omega arith),
      omega arith,
      start_small (new_count == 0) span.from _ (omega arith) (omega arith),
      omega arith,
    )

pub diff_printed-AllPrintable :
    (old_lines : List Bytes) (number prev_end : ℕ) (spans : List Span)
    → prev_end ≤ length old_lines
    → All IsShown old_lines
    → All (IsShownSpan (length old_lines)) spans
    → AllPrintable number (diff_printed old_lines number prev_end spans)
unfolding diff_printed
diff_printed-AllPrintable old_lines number prev_end [] before old h = tt
diff_printed-AllPrintable old_lines number prev_end (span ∷ spans) before old h = (
  (
    refl,
    refl,
    span_lines-is_empty old_lines prev_end (next_start old_lines spans) span h.0.0 h.0.1,
    span_lines-IsPlain old_lines prev_end (next_start old_lines spans) span old h.0.2,
    span_printed-IsInt32 old_lines number prev_end (next_start old_lines spans) span before h.0,
  ),
  diff_printed-AllPrintable old_lines (number + 1) (span.from + span.old_len) spans h.0.0 old h.1,
)

pub diff_printed-AllClean :
    (old_lines : List Bytes) (number prev_end : ℕ) (spans : List Span)
    → All IsShown old_lines
    → All (IsShownSpan (length old_lines)) spans
    → AllClean (diff_printed old_lines number prev_end spans)
unfolding diff_printed
diff_printed-AllClean old_lines number prev_end [] old h = tt
diff_printed-AllClean old_lines number prev_end (span ∷ spans) old h = (
  span_lines-AllClean old_lines prev_end (next_start old_lines spans) span old h.0.2,
  diff_printed-AllClean old_lines (number + 1) (span.from + span.old_len) spans old h.1,
)
