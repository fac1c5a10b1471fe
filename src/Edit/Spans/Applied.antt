-- ===== src/Edit/Spans/Applied.antt =====
-- The loop of `edit_file` (src/common/tools/tool_edit_file.cpp) that applies the spans from the last
-- to the first.
use mathlib.Core.List.{append_assoc}
use llama_onprem_server.Prelude.{
  ℕ, zero, suc, ◌+◌, ◌≤◌, List, [], ◌∷◌, ◌++◌, length, take, drop, Bytes, ◌≡◌, refl, sym, ap, ◌∙◌,
  arith, All, All-imp, length-append, length-take_of_le,
}
use llama_onprem_server.Edit.{Span}
use llama_onprem_server.Edit.Spans.{apply_span, apply_loop}
use llama_onprem_server.Edit.Spans.Apart.{IsWithin, Before, Descending}
use llama_onprem_server.Edit.Spans.Patched.{patched, patched_up_to, patched_nil}

take_within : {A : Type 0} (n : ℕ) (xs ys : List A) → n ≤ length xs → take n (xs ++ ys) ≡ take n xs
take_within zero xs ys h = refl
take_within (suc n) [] ys h = absurd (omega arith)
take_within (suc n) (x ∷ xs) ys h = ap (◌∷◌ x) (take_within n xs ys (omega arith))

drop_within :
    {A : Type 0} (n : ℕ) (xs ys : List A) → n ≤ length xs → drop n (xs ++ ys) ≡ drop n xs ++ ys
drop_within zero xs ys h = refl
drop_within (suc n) [] ys h = absurd (omega arith)
drop_within (suc n) (x ∷ xs) ys h = drop_within n xs ys (omega arith)

apply_span-append_right :
    (pre suf : List Bytes) (s : Span)
    → IsWithin (length pre) s
    → apply_span (pre ++ suf) s ≡ apply_span pre s ++ suf
unfolding apply_span
apply_span-append_right pre suf s w =
    rw (take_within s.from pre suf (omega arith), drop_within (s.from + s.old_len) pre suf w)
      (regroup2 (take s.from pre) s.neu (drop (s.from + s.old_len) pre) suf)
  where
    regroup2 : (a b c d : List Bytes) → a ++ (b ++ (c ++ d)) ≡ (a ++ (b ++ c)) ++ d
    regroup2 a b c d = simp append_assoc

length-apply_span :
    (file : List Bytes) (s : Span) → IsWithin (length file) s → s.from ≤ length (apply_span file s)
unfolding apply_span
length-apply_span file s w = omega (
  arith,
  length-append (take s.from file) (s.neu ++ drop (s.from + s.old_len) file),
  length-take_of_le s.from file (omega arith),
)

apply_loop-append :
    (pre suf : List Bytes) (spans : List Span)
    → Descending spans
    → All (IsWithin (length pre)) spans
    → apply_loop (pre ++ suf) spans ≡ apply_loop pre spans ++ suf
unfolding apply_loop
apply_loop-append pre suf [] d w = refl
apply_loop-append pre suf (s ∷ spans) d w = rw (apply_span-append_right pre suf s w.0) (
    apply_loop-append (apply_span pre s) suf spans d.1 (
      All-imp (λ t. Before t.from t.old_len s.from) (IsWithin (length (apply_span pre s)))
        (λ t b. omega (arith, length-apply_span pre s w.0)) spans d.0))

-- Applied from the last to the first, the spans of a descending list patch the file.
pub apply_loop-patched :
    (file : List Bytes) (spans : List Span)
    → Descending spans
    → All (IsWithin (length file)) spans
    → apply_loop file spans ≡ patched 0 file spans
unfolding apply_loop apply_span
apply_loop-patched file [] d w = sym (patched_nil 0 file)
apply_loop-patched file (s ∷ spans) d w =
    let len = length-take_of_le s.from file (omega arith) in
    let inside =
      All-imp (λ t. Before t.from t.old_len s.from) (IsWithin (length (take s.from file)))
        (λ t b. omega (arith, len)) spans d.0 in
    apply_loop-append (take s.from file) (s.neu ++ drop (s.from + s.old_len) file) spans d.1 inside
    ∙ ap (λ t. t ++ (s.neu ++ drop (s.from + s.old_len) file))
        (apply_loop-patched (take s.from file) spans d.1 inside)
    ∙ sym (patched_up_to s.from 0 file s spans (omega arith) (omega arith) d.0)
