-- ===== src/Edit/Spans/Patched.antt =====
-- What the spans of a patch make of the file, line by line: a description of the loop of `edit_file`
-- (src/common/tools/tool_edit_file.cpp) that knows no order of the spans.
use mathlib.Core.List.{append_assoc, append-nil}
use llama_onprem_server.Prelude.{
  drop_nil, drop_none, drop_one, ℕ, zero, suc, ◌+◌, ◌-◌, ◌≤◌, ◌<◌, Bool, true, false, ◌&&◌, ◌||◌,
  List, [], ◌∷◌, ◌++◌, ltb, leb, ◌==◌, length, take, drop, Bytes, ◌≡◌, refl, sym, ap, subst, ◌∙◌,
  arith, All, Bool-cases, if◌then◌else◌, inl, inr,
}
use llama_onprem_server.Edit.{Span}
use llama_onprem_server.Edit.Spans.Apart.{Before}

-- The lines that the spans put before line `i`.
unfoldable pub inserted : ℕ → List Span → List Bytes
inserted i [] = []
inserted i (s ∷ spans) = let rest = inserted i spans in if s.from == i then s.neu ++ rest else rest

abbrev pub removes : ℕ → Span → Bool
removes i s = leb s.from i && ltb i (s.from + s.old_len)

unfoldable pub is_removed : ℕ → List Span → Bool
is_removed i [] = false
is_removed i (s ∷ spans) = removes i s || is_removed i spans

-- The lines from line `i` on: before each stands what is inserted there, and one that is removed is
-- left out. The order of the spans plays no part.
unfoldable pub patched : ℕ → List Bytes → List Span → List Bytes
patched i [] spans = inserted i spans
patched i (line ∷ lines) spans =
    let rest = patched (i + 1) lines spans in
    inserted i spans ++ (if is_removed i spans then rest else line ∷ rest)

inserted_past :
    (i from : ℕ) (spans : List Span)
    → from ≤ i
    → All (λ t. Before t.from t.old_len from) spans
    → inserted i spans ≡ []
unfolding inserted
inserted_past i from [] h a = refl
inserted_past i from (t ∷ spans) h a = ground (arith, inserted_past i from spans h a.1)

is_removed_past :
    (i from : ℕ) (spans : List Span)
    → from ≤ i
    → All (λ t. Before t.from t.old_len from) spans
    → is_removed i spans ≡ false
unfolding is_removed
is_removed_past i from [] h a = refl
is_removed_past i from (t ∷ spans) h a = ground (arith, is_removed_past i from spans h a.1)

same : (n : ℕ) → (n == n) ≡ true
same n = ground arith

inserted_at :
    (s : Span) (spans : List Span)
    → All (λ t. Before t.from t.old_len s.from) spans
    → inserted s.from (s ∷ spans) ≡ s.neu
unfolding inserted
inserted_at s spans a =
    rw (inserted_past s.from s.from spans (omega arith) a) (rw (same s.from) (append-nil s.neu))

inserted_skip :
    (i : ℕ) (s : Span) (spans : List Span)
    → (s.from == i) ≡ false
    → inserted i (s ∷ spans) ≡ inserted i spans
unfolding inserted
inserted_skip i s spans h = rw h

is_removed_skip :
    (i : ℕ) (s : Span) (spans : List Span)
    → removes i s ≡ false
    → is_removed i (s ∷ spans) ≡ is_removed i spans
unfolding is_removed
is_removed_skip i s spans h = rw h

is_removed_at :
    (i : ℕ) (s : Span) (spans : List Span)
    → s.from ≤ i
    → All (λ t. Before t.from t.old_len s.from) spans
    → is_removed i (s ∷ spans) ≡ ltb i (s.from + s.old_len)
unfolding is_removed
is_removed_at i s spans h a = rw (is_removed_past i s.from spans h a) (ground arith)

inserted_later :
    (i : ℕ) (s : Span) (spans : List Span)
    → s.from < i
    → All (λ t. Before t.from t.old_len s.from) spans
    → inserted i (s ∷ spans) ≡ []
inserted_later i s spans h a =
    inserted_skip i s spans (ground arith) ∙ inserted_past i s.from spans (omega arith) a

-- Behind the start of the last span, what it removes is dropped.
patched_later :
    (i : ℕ) (file : List Bytes) (s : Span) (spans : List Span)
    → s.from < i
    → All (λ t. Before t.from t.old_len s.from) spans
    → patched i file (s ∷ spans) ≡ drop (s.from + s.old_len - i) file
unfolding patched
patched_later i [] s spans h a =
    inserted_later i s spans h a ∙ sym (drop_nil (s.from + s.old_len - i))
patched_later i (line ∷ lines) s spans h a =
    let rest = patched_later (i + 1) lines s spans (omega arith) a in
    let removed = is_removed_at i s spans (omega arith) a in
    elim (Bool-cases (ltb i (s.from + s.old_len))) [
      | inl e ↦
          rw (inserted_later i s spans h a, removed, e, rest)
            (sym (
              drop_one (s.from + s.old_len - i) (s.from + s.old_len - (i + 1)) line lines
                (ground arith)))
      | inr e ↦
          rw (inserted_later i s spans h a, removed, e, rest)
            (ap (◌∷◌ line) (drop_none (s.from + s.old_len - (i + 1)) lines (ground arith))
              ∙ sym (drop_none (s.from + s.old_len - i) (line ∷ lines) (ground arith)))
    ]

-- At the last span, its lines stand for those that it removes.
patched_at :
    (file : List Bytes) (s : Span) (spans : List Span)
    → All (λ t. Before t.from t.old_len s.from) spans
    → patched s.from file (s ∷ spans) ≡ s.neu ++ drop s.old_len file
unfolding patched
patched_at [] s spans a = inserted_at s spans a ∙ rw (drop_nil s.old_len) (sym (append-nil s.neu))
patched_at (line ∷ lines) s spans a =
    let rest = patched_later (s.from + 1) lines s spans (omega arith) a in
    let removed = is_removed_at s.from s spans (omega arith) a in
    elim (Bool-cases (ltb s.from (s.from + s.old_len))) [
      | inl e ↦
          rw (inserted_at s spans a, removed, e, rest)
            (ap (λ t. s.neu ++ t)
              (sym
                (drop_one s.old_len (s.from + s.old_len - (s.from + 1)) line lines (ground arith))))
      | inr e ↦
          rw (inserted_at s spans a, removed, e, rest)
            (ap (λ t. s.neu ++ t)
              (ap (◌∷◌ line) (drop_none (s.from + s.old_len - (s.from + 1)) lines (ground arith))
                ∙ sym (drop_none s.old_len (line ∷ lines) (ground arith))))
    ]

regroup :
    (removed : Bool) (before : List Bytes) (line : Bytes) (xs tail : List Bytes)
    → before ++ (if removed then xs ++ tail else line ∷ (xs ++ tail))
      ≡ (before ++ (if removed then xs else line ∷ xs)) ++ tail
regroup true before line xs tail = sym (append_assoc before xs tail)
regroup false before line xs tail = sym (append_assoc before (line ∷ xs) tail)

-- Up to the last span, the other spans decide.
pub patched_up_to :
    (k i : ℕ) (file : List Bytes) (s : Span) (spans : List Span)
    → s.from ≡ i + k
    → k ≤ length file
    → All (λ t. Before t.from t.old_len s.from) spans
    → patched i file (s ∷ spans)
      ≡ patched i (take k file) spans ++ (s.neu ++ drop (k + s.old_len) file)
unfolding patched
patched_up_to zero i file s spans e h a =
    let here : s.from ≡ i = omega arith in
    rw (inserted_past i s.from spans (omega arith) a) (
      subst (λ n. patched n file (s ∷ spans) ≡ s.neu ++ drop (0 + s.old_len) file) here
        (patched_at file s spans a ∙ ap (λ n. s.neu ++ drop n file) (omega arith)))
patched_up_to (suc k) i [] s spans e h a = absurd (omega arith)
patched_up_to (suc k) i (line ∷ lines) s spans e h a =
    let rest = patched_up_to k (i + 1) lines s spans (omega arith) (omega arith) a in
    rw
      (
        inserted_skip i s spans (ground arith),
        is_removed_skip i s spans (ground arith),
        rest,
        drop_one (suc k + s.old_len) (k + s.old_len) line lines (omega arith),
      )
      (regroup (is_removed i spans) (inserted i spans) line (patched (i + 1) (take k lines) spans)
        (s.neu ++ drop (k + s.old_len) lines))

pub patched_nil : (i : ℕ) (file : List Bytes) → patched i file [] ≡ file
unfolding patched inserted is_removed
patched_nil i [] = refl
patched_nil i (line ∷ lines) = ap (◌∷◌ line) (patched_nil (i + 1) lines)
