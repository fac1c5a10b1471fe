-- ===== src/Edit/Spans/Hunks.antt =====
-- Theorems about the span of one hunk (`edit_file`, src/common/tools/tool_edit_file.cpp).
use mathlib.Core.List.{append_assoc}
use llama_onprem_server.Prelude.{
  ℕ, ◌+◌, ◌^◌, ◌||◌, leb, ◌≤◌, true, false, List, [], ◌++◌, ltb, length, take, drop, Bytes, ◌≡◌,
  sym, ap, subst, ◌∙◌, arith, All, Bool-cases, length-append, drop-append_both, take-append_length,
  take-append-drop, length-take_of_le, inl, inr,
}
use llama_onprem_server.Jobs.TokenBuffer.{is_empty}
use llama_onprem_server.Edit.{PatchLine, Hunk, Span, ok}
use llama_onprem_server.Edit.Match.{
  side, old_side, new_side, lines_match, Located, ambiguous, not_found, located,
}
use llama_onprem_server.Edit.Match.Closest.{Answers, locate_hunk-Answers}
use llama_onprem_server.Edit.Spans.{leading, changed, place_hunk, place_found, hint_of, apply_span}
use llama_onprem_server.Edit.Match.Sides.{
  IsContext, lines_match-append, side-append, side-IsContext, length-side,
}
use llama_onprem_server.Edit.Spans.Trimmed.{is_empty-eq, take-leading, without_tail-append}

pub ok_inj : {A : Type 0} (a b : A) → ok a ≡ ok b → a ≡ b
ok_inj a b h = cc

-- A hunk is context, what it changes, and context.
hunk-parts :
    (hunk : Hunk)
    → (before : List PatchLine) × (after : List PatchLine) × (hunk.lines
        ≡ before ++ (changed hunk ++ after))
      × (length before ≡ leading hunk.lines)
      × All IsContext before
      × All IsContext after
unfolding changed
hunk-parts hunk =
    let (all, len) = take-leading hunk.lines in
    let (after, q, all') = without_tail-append (drop (leading hunk.lines) hunk.lines) in
    (
      take (leading hunk.lines) hunk.lines,
      after,
      sym (take-append-drop (leading hunk.lines) hunk.lines)
          ∙ ap (λ t. take (leading hunk.lines) hunk.lines ++ t) q,
      len,
      all,
      all',
    )

apply_span-append :
    (p o n q : List Bytes)
    → apply_span (p ++ (o ++ q)) (record { from = length p; old_len = length o; neu = n })
      ≡ p ++ (n ++ q)
unfolding apply_span
apply_span-append p o n q =
    rw (take-append_length p (o ++ q)) (ap (λ t. p ++ (n ++ t)) (drop-append_both p o q))

apply_span-eq :
    (file p o n q : List Bytes) (from : ℕ)
    → file ≡ p ++ (o ++ q)
    → length p ≡ from
    → apply_span file (record { from = from; old_len = length o; neu = n }) ≡ p ++ (n ++ q)
apply_span-eq file p o n q from e l = rw (e, ← l) (apply_span-append p o n q)

regroup : (a b c d e : List Bytes) → a ++ ((b ++ (c ++ d)) ++ e) ≡ (a ++ b) ++ (c ++ (d ++ e))
regroup a b c d e = simp append_assoc

-- The file with the old side in it, and what the span makes of it.
abbrev Replaces : List Bytes → Hunk → Span → List Bytes → List Bytes → Type 0
Replaces file hunk span pre post =
    (file ≡ pre ++ (old_side hunk ++ post))
    × (apply_span file span ≡ pre ++ (new_side hunk ++ post))
    × (span.from + span.old_len ≤ length file)

side-parts :
    (k : ℕ) (lines before middle after : List PatchLine)
    → lines ≡ before ++ (middle ++ after)
    → side k lines ≡ side k before ++ (side k middle ++ side k after)
side-parts k lines before middle after h =
    rw (h, side-append k before (middle ++ after), side-append k middle after)

located-Replaces :
    (file : List Bytes) (hunk : Hunk) (at : ℕ)
    → lines_match file at (old_side hunk) ≡ true
    → (post : List Bytes) × Replaces file hunk
        (record {
          from = at + leading hunk.lines;
          old_len = length (side b'-' (changed hunk));
          neu = side b'+' (changed hunk);
        })
        (take at file)
        post
unfolding old_side new_side
located-Replaces file hunk at h =
    let (post, q, le) = lines_match-append file at (old_side hunk) h in
    let (before, after, parts, len, context, context') = hunk-parts hunk in
    let middle = changed hunk in
    let old = side-parts b'-' hunk.lines before middle after parts in
    let new = side-parts b'+' hunk.lines before middle after parts in
    let pre = take at file ++ side b'-' before in
    let tail = side b'-' after ++ post in
    let split : file ≡ pre ++ (side b'-' middle ++ tail) =
      q
      ∙ ap (λ t. take at file ++ (t ++ post)) old
      ∙ regroup (take at file) (side b'-' before) (side b'-' middle) (side b'-' after) post in
    let start : length pre ≡ at + leading hunk.lines =
      length-append (take at file) (side b'-' before)
      ∙ omega
          (arith, length-take_of_le at file (omega arith), length-side b'-' before context, len) in
    let result : pre ++ (side b'+' middle ++ tail) ≡ take at file ++ (new_side hunk ++ post) = sym (
      ap (λ t. take at file ++ (t ++ post))
        (new ∙ (λ i.
          side-IsContext b'+' b'-' before context i
          ++ (side b'+' middle ++ side-IsContext b'+' b'-' after context' i)))
      ∙ regroup (take at file) (side b'-' before) (side b'+' middle) (side b'-' after) post) in
    (
      post,
      (
        q,
        apply_span-eq file pre (side b'-' middle) (side b'+' middle) tail _ split start ∙ result,
        omega (
          arith,
          start,
          ap length split,
          length-append pre (side b'-' middle ++ tail),
          length-append (side b'-' middle) tail,
        ),
      ),
    )

-- The span replaces the hunk's old side by its new side.
abbrev pub IsReplaced : List Bytes → Hunk → Span → Type 0
IsReplaced file hunk span =
    (pre : List Bytes) × (post : List Bytes) × Replaces file hunk span pre post

place_found-IsReplaced :
    (path : Bytes) (file : List Bytes) (hunk : Hunk) (r : Located) (span : Span)
    → Answers file (old_side hunk) (hint_of hunk.old_start) r
    → place_found path hunk r ≡ ok span
    → IsReplaced file hunk span
unfolding place_found
place_found-IsReplaced path file hunk ambiguous span a h = cc
place_found-IsReplaced path file hunk not_found span a h = cc
place_found-IsReplaced path file hunk (located at) span a h =
    let (post, r) = located-Replaces file hunk at a.0 in
    subst (IsReplaced file hunk) (ok_inj _ _ h) (take at file, post, r)

inserted-Replaces :
    (file : List Bytes) (hunk : Hunk)
    → is_empty (old_side hunk) ≡ true
    → ltb (length file) hunk.old_start ≡ false
    → Replaces file hunk
        (record { from = hunk.old_start; old_len = 0; neu = new_side hunk })
        (take hunk.old_start file)
        (drop hunk.old_start file)
inserted-Replaces file hunk e within =
    let split = sym (take-append-drop hunk.old_start file) in
    let le : hunk.old_start ≤ length file = ground arith in
    (
      rw (is_empty-eq (old_side hunk) e) split,
      apply_span-eq file (take hunk.old_start file) [] (new_side hunk) (drop hunk.old_start file)
          hunk.old_start split (length-take_of_le hunk.old_start file le),
      omega arith,
    )

-- Where `place_hunk` gives a span, the file is a text with the hunk's old side in it, applying the
-- span gives the same text with the new side in its place, and the span ends within the file.
pub place_hunk-IsReplaced :
    (path : Bytes) (file : List Bytes) (hunk : Hunk) (span : Span)
    → place_hunk path file hunk ≡ ok span
    → IsReplaced file hunk span
unfolding place_hunk new_side
place_hunk-IsReplaced path file hunk span h = elim (Bool-cases (is_empty (old_side hunk))) [
  | inr e ↦
      place_found-IsReplaced path file hunk _ span
        (locate_hunk-Answers file (old_side hunk) (hint_of hunk.old_start)) (rw e at h)
  | inl e ↦ elim (Bool-cases hunk.pure_insert) [
    | inr p ↦ cc
    | inl p ↦ elim (Bool-cases (leb (2 ^ 31) hunk.old_start || ltb (length file) hunk.old_start)) [
      | inl past ↦ cc
      | inr within ↦ subst (IsReplaced file hunk) (ok_inj _ _ (rw (e, p, within) at h)) (
        take hunk.old_start file,
        drop hunk.old_start file,
        inserted-Replaces file hunk e (ground (arith, within)),
      )
    ]
  ]
]
