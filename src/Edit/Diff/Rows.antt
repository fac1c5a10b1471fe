-- ===== src/Edit/Diff/Rows.antt =====
-- Lemmas about `format_diff` (src/common/tools/tool_edit_file.cpp), as the lines of a patch.
use mathlib.Core.List.{append_assoc}
use llama_onprem_server.Prelude.{
  ℕ, ◌+◌, ◌-◌, Bool, true, false, List, [], ◌∷◌, ◌++◌, map, min, max, ◌==◌, if◌then◌else◌, length,
  take, drop, Bytes, codes, ◌≡◌, refl, sym, ap, ◌∙◌,
}
use llama_onprem_server.Edit.{PatchLine, Hunk, Span}
use llama_onprem_server.Edit.Diff.{emit, range_text, hunk_text, next_start, diff_loop, diff_header}
use llama_onprem_server.Edit.Lines.Patch.{unlines, unlines-append}
use llama_onprem_server.Edit.Parse.Header.{header_line}
use llama_onprem_server.Edit.Parse.Rows.{row, Printed, hunk_rows, all_rows}
use llama_onprem_server.Edit.Parse.RoundTrip.{patch_rows}

abbrev pub as_line : ℕ → Bytes → PatchLine
as_line kind text = record { kind = kind; text = text }

-- Lines of one kind.
abbrev pub marked : ℕ → List Bytes → List PatchLine
marked kind = map (as_line kind)

-- What the diff shows of the old file around a span: the lines from `lo` on, up to `hi`.
abbrev pub context_lo : ℕ → Span → ℕ
context_lo prev_end span = max prev_end (span.from - 3)

abbrev pub context_hi : ℕ → Span → ℕ
context_hi next_from span = min next_from (span.from + span.old_len + 3)

-- The lines of a span: context, what is removed, what is added, context.
abbrev pub span_lines : List Bytes → ℕ → ℕ → Span → List PatchLine
span_lines old_lines prev_end next_from span =
    let to = span.from + span.old_len in
    let lo = context_lo prev_end span in
    let hi = context_hi next_from span in
    marked b' ' (take (span.from - lo) (drop lo old_lines))
    ++ (marked b'-' (take (to - span.from) (drop span.from old_lines))
        ++ (marked b'+' span.neu ++ marked b' ' (take (hi - to) (drop to old_lines))))

-- The hunk of a span.
abbrev pub span_hunk : List Bytes → ℕ → ℕ → ℕ → Span → Hunk
span_hunk old_lines number prev_end next_from span =
    let lo = context_lo prev_end span in
    let old_count = context_hi next_from span - lo in
    record {
      number = number;
      old_start = if old_count == 0 then span.from else lo + 1;
      old_count = old_count;
      pure_insert = old_count == 0;
      lines = span_lines old_lines prev_end next_from span;
    }

-- The count of the new side.
abbrev pub span_new_count : ℕ → ℕ → Span → ℕ
span_new_count prev_end next_from span =
    ((span.from - context_lo prev_end span) + length span.neu)
    + (context_hi next_from span - (span.from + span.old_len))

abbrev pub span_printed : List Bytes → ℕ → ℕ → ℕ → Span → Printed
span_printed old_lines number prev_end next_from span =
    let new_count = span_new_count prev_end next_from span in
    record {
      hunk = span_hunk old_lines number prev_end next_from span;
      new_start = if new_count == 0 then span.from else context_lo prev_end span + 1;
      new_count = new_count;
    }

-- The hunks of spans in ascending order.
unfoldable pub diff_printed : List Bytes → ℕ → ℕ → List Span → List Printed
unfolding next_start
diff_printed old_lines number prev_end [] = []
diff_printed old_lines number prev_end (span ∷ spans) =
    span_printed old_lines number prev_end (next_start old_lines spans) span
    ∷ diff_printed old_lines (number + 1) (span.from + span.old_len) spans

emit-unlines :
    (kind : ℕ) (texts : List Bytes) → emit kind texts ≡ unlines (map row (marked kind texts))
unfolding emit unlines
emit-unlines kind [] = refl
emit-unlines kind (t ∷ ts) = ap (λ r. kind ∷ t ++ b'\n' ∷ r) (emit-unlines kind ts)

map-append {ℓ κ} :
    {A : Type ℓ} {B : Type κ} (f : A → B) (xs ys : List A) → map f (xs ++ ys) ≡ map f xs ++ map f ys
map-append f [] ys = refl
map-append f (x ∷ xs) ys = ap (◌∷◌ (f x)) (map-append f xs ys)

rows-append :
    (xs ys : List PatchLine)
    → unlines (map row (xs ++ ys)) ≡ unlines (map row xs) ++ unlines (map row ys)
rows-append xs ys = rw (map-append row xs ys) (unlines-append (map row xs) (map row ys))

header_line-append :
    (a b c d : ℕ) (text : Bytes)
    → header_line a b c d ++ text
      ≡ codes "@@ -"
        ++ (range_text a b ++ (codes " +" ++ (range_text c d ++ (codes " @@" ++ text))))
unfolding header_line
header_line-append a b c d text = simp append_assoc

emit-rows :
    (a b c d : List Bytes)
    → emit b' ' a ++ (emit b'-' b ++ (emit b'+' c ++ emit b' ' d))
      ≡ unlines (map row (marked b' ' a ++ (marked b'-' b ++ (marked b'+' c ++ marked b' ' d))))
emit-rows a b c d = rw (
  rows-append (marked b' ' a),
  rows-append (marked b'-' b),
  rows-append (marked b'+' c),
  ← emit-unlines b' ' a,
  ← emit-unlines b'-' b,
  ← emit-unlines b'+' c,
  ← emit-unlines b' ' d,
)

hunk_text-unlines :
    (old_lines : List Bytes) (number prev_end next_from : ℕ) (span : Span)
    → hunk_text old_lines prev_end next_from span
      ≡ unlines (hunk_rows (span_printed old_lines number prev_end next_from span))
unfolding hunk_text hunk_rows unlines
hunk_text-unlines old_lines number prev_end next_from span =
    let printed = span_printed old_lines number prev_end next_from span in
    let a = printed.hunk.old_start in
    let b = printed.hunk.old_count in
    let c = printed.new_start in
    let d = printed.new_count in
    let to = span.from + span.old_len in
    let lo = context_lo prev_end span in
    let hi = context_hi next_from span in
    ap
      (λ t.
        codes "@@ -"
        ++ (range_text a b ++ (codes " +" ++ (range_text c d ++ (codes " @@" ++ b'\n' ∷ t)))))
      (emit-rows (take (span.from - lo) (drop lo old_lines))
        (take (to - span.from) (drop span.from old_lines)) span.neu
        (take (hi - to) (drop to old_lines)))
    ∙ sym (header_line-append a b c d _)

diff_loop-unlines :
    (old_lines : List Bytes) (number prev_end : ℕ) (spans : List Span)
    → diff_loop old_lines prev_end spans
      ≡ unlines (all_rows (diff_printed old_lines number prev_end spans))
unfolding diff_loop all_rows diff_printed unlines
diff_loop-unlines old_lines number prev_end [] = refl
diff_loop-unlines old_lines number prev_end (span ∷ spans) = rw (
  unlines-append
      (hunk_rows (span_printed old_lines number prev_end (next_start old_lines spans) span)),
  ← hunk_text-unlines old_lines number prev_end (next_start old_lines spans) span,
  ← diff_loop-unlines old_lines (number + 1) (span.from + span.old_len) spans,
)

-- The diff of a change is the text of a patch.
pub diff-unlines :
    (path : Bytes) (created : Bool) (old_lines : List Bytes) (spans : List Span)
    → diff_header path created ++ diff_loop old_lines 0 spans
      ≡ unlines (patch_rows path created (diff_printed old_lines 1 0 spans))
unfolding diff_header patch_rows unlines
diff-unlines path true old_lines spans =
    rw (← diff_loop-unlines old_lines 1 0 spans) (simp append_assoc)
diff-unlines path false old_lines spans =
    rw (← diff_loop-unlines old_lines 1 0 spans) (simp append_assoc)
