-- ===== src/Edit/Spans/Order.antt =====
-- Theorems about the order in which `edit_file` (src/common/tools/tool_edit_file.cpp) applies the
-- spans.
use llama_onprem_server.Prelude.{
  ℕ, ◌+◌, List, [], ◌∷◌, ltb, length, Bytes, ◌≡◌, refl, ◌∙◌, arith, All, Bool-cases, inl, inr,
}
use llama_onprem_server.Edit.{Hunk, Span, ok}
use llama_onprem_server.Edit.Spans.{apply_spans, insert_span, sort_spans, place_loop}
use llama_onprem_server.Edit.Spans.Apart.{
  Apart, AllApart, IsWithin, IsPlaced, sort_spans-Descending, sort_spans-All, place_loop-IsPlaced,
}
use llama_onprem_server.Edit.Spans.Patched.{patched, inserted, is_removed}
use llama_onprem_server.Edit.Spans.Applied.{apply_loop-patched}

inserted_swap :
    (i : ℕ) (s t : Span) (spans : List Span)
    → Apart s t
    → inserted i (t ∷ s ∷ spans) ≡ inserted i (s ∷ t ∷ spans)
unfolding inserted
inserted_swap i s t spans a = ground arith

is_removed_swap :
    (i : ℕ) (s t : Span) (spans : List Span)
    → is_removed i (t ∷ s ∷ spans) ≡ is_removed i (s ∷ t ∷ spans)
unfolding is_removed
is_removed_swap i s t spans = ground arith

inserted_cons :
    (i : ℕ) (t : Span) (xs ys : List Span)
    → inserted i xs ≡ inserted i ys
    → inserted i (t ∷ xs) ≡ inserted i (t ∷ ys)
unfolding inserted
inserted_cons i t xs ys h = rw h

is_removed_cons :
    (i : ℕ) (t : Span) (xs ys : List Span)
    → is_removed i xs ≡ is_removed i ys
    → is_removed i (t ∷ xs) ≡ is_removed i (t ∷ ys)
unfolding is_removed
is_removed_cons i t xs ys h = rw h

inserted-insert_span :
    (i : ℕ) (s : Span) (spans : List Span)
    → All (Apart s) spans
    → inserted i (insert_span s spans) ≡ inserted i (s ∷ spans)
unfolding insert_span
inserted-insert_span i s [] a = refl
inserted-insert_span i s (t ∷ spans) a = elim (Bool-cases (ltb s.from t.from)) [
  | inl e ↦ rw e (
      inserted_cons i t (insert_span s spans) (s ∷ spans) (inserted-insert_span i s spans a.1)
      ∙ inserted_swap i s t spans a.0)
  | inr e ↦ rw e
]

is_removed-insert_span :
    (i : ℕ) (s : Span) (spans : List Span)
    → is_removed i (insert_span s spans) ≡ is_removed i (s ∷ spans)
unfolding insert_span
is_removed-insert_span i s [] = refl
is_removed-insert_span i s (t ∷ spans) = elim (Bool-cases (ltb s.from t.from)) [
  | inl e ↦ rw e (
      is_removed_cons i t (insert_span s spans) (s ∷ spans) (is_removed-insert_span i s spans)
      ∙ is_removed_swap i s t spans)
  | inr e ↦ rw e
]

inserted-sort_spans :
    (i : ℕ) (spans : List Span) → AllApart spans → inserted i (sort_spans spans) ≡ inserted i spans
unfolding sort_spans
inserted-sort_spans i [] a = refl
inserted-sort_spans i (s ∷ spans) a =
    inserted-insert_span i s (sort_spans spans) (sort_spans-All (Apart s) spans a.0)
    ∙ inserted_cons i s (sort_spans spans) spans (inserted-sort_spans i spans a.1)

is_removed-sort_spans :
    (i : ℕ) (spans : List Span) → is_removed i (sort_spans spans) ≡ is_removed i spans
unfolding sort_spans
is_removed-sort_spans i [] = refl
is_removed-sort_spans i (s ∷ spans) =
    is_removed-insert_span i s (sort_spans spans)
    ∙ is_removed_cons i s (sort_spans spans) spans (is_removed-sort_spans i spans)

patched-sort_spans :
    (i : ℕ) (file : List Bytes) (spans : List Span)
    → AllApart spans
    → patched i file (sort_spans spans) ≡ patched i file spans
unfolding patched
patched-sort_spans i [] spans a = inserted-sort_spans i spans a
patched-sort_spans i (line ∷ lines) spans a = rw (
  inserted-sort_spans i spans a,
  is_removed-sort_spans i spans,
  patched-sort_spans (i + 1) lines spans a,
)

-- Spans that end within the file and do not overlap, in any order: the loop gives the patched file.
pub apply_spans-patched :
    (file : List Bytes) (spans : List Span)
    → IsPlaced (length file) spans
    → apply_spans file spans ≡ patched 0 file spans
unfolding apply_spans
apply_spans-patched file spans p =
    apply_loop-patched file (sort_spans spans) (sort_spans-Descending spans p.1)
      (sort_spans-All (IsWithin (length file)) spans p.0)
    ∙ patched-sort_spans 0 file spans p.1

-- Where every hunk is placed, applying the spans from the last to the first gives the file patched
-- line by line: before each line stands what a span inserts there, and the lines that a span removes
-- are left out.
pub place_loop-patched :
    (path : Bytes) (file : List Bytes) (hunks : List Hunk) (spans : List Span)
    → place_loop path file [] hunks ≡ ok spans
    → apply_spans file spans ≡ patched 0 file spans
place_loop-patched path file hunks spans h =
    apply_spans-patched file spans (place_loop-IsPlaced path file [] hunks spans (tt, tt) h)
