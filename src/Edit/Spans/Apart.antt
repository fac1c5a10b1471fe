-- ===== src/Edit/Spans/Apart.antt =====
-- Spans that do not overlap (`ranges_overlap` and the loop over the hunks in `edit_file`,
-- src/common/tools/tool_edit_file.cpp).
use llama_onprem_server.Prelude.{
  ℕ, ◌+◌, ◌≤◌, ◌<◌, Bool, true, false, ◌&&◌, ◌||◌, List, [], ◌∷◌, ◌++◌, ltb, leb, ◌==◌, length,
  Bytes, ◌≡◌, ◌⊎◌, inl, inr, refl, subst, arith, All, All-imp, Bool-cases, ltb→lt,
}
use llama_onprem_server.Jobs.TokenBuffer.{is_empty}
use llama_onprem_server.Edit.{Hunk, Span, ok, ◌>>=◌, >>=-ok}
use llama_onprem_server.Edit.Match.{ranges_overlap}
use llama_onprem_server.Edit.Spans.{
  overlaps_any, add_span, place_hunk, place_loop, insert_span, sort_spans,
}
use llama_onprem_server.Edit.Spans.Hunks.{ok_inj, place_hunk-IsReplaced}

-- The range at `a` ends before the one at `b` begins, and begins before it.
abbrev pub Before : ℕ → ℕ → ℕ → Type 0
Before a a_len b = (a + a_len ≤ b) × (a < b)

pub ranges_overlap-Before :
    (left left_len right right_len : ℕ)
    → ranges_overlap left left_len right right_len ≡ false
    → Before left left_len right ⊎ Before right right_len left
unfolding ranges_overlap
ranges_overlap-Before left left_len right right_len h =
    elim (Bool-cases (leb (left + left_len) right && ltb left right)) [
      | inl e ↦ inl (ground arith)
      | inr e ↦ inr (ground arith)
    ]

pub Before-ranges_overlap :
    (left left_len right right_len : ℕ)
    → Before left left_len right ⊎ Before right right_len left
    → ranges_overlap left left_len right right_len ≡ false
unfolding ranges_overlap
Before-ranges_overlap left left_len right right_len (inl h) = ground arith
Before-ranges_overlap left left_len right right_len (inr h) = ground arith

abbrev pub Apart : Span → Span → Type 0
Apart s t = Before s.from s.old_len t.from ⊎ Before t.from t.old_len s.from

abbrev pub AllApart : List Span → Type 0
AllApart [] = Unit
AllApart (s ∷ spans) = All (Apart s) spans × AllApart spans

-- The span ends within the file.
abbrev pub IsWithin : ℕ → Span → Type 0
IsWithin n s = s.from + s.old_len ≤ n

-- In the order in which they are applied.
abbrev pub Descending : List Span → Type 0
Descending [] = Unit
Descending (s ∷ spans) = All (λ t. Before t.from t.old_len s.from) spans × Descending spans

or-false : (a b : Bool) → a || b ≡ false → (a ≡ false) × (b ≡ false)
or-false false b h = (refl, h)
or-false true b h = cc

overlaps_any-Apart :
    (spans : List Span) (s : Span) → overlaps_any spans s ≡ false → All (λ t. Apart t s) spans
unfolding overlaps_any
overlaps_any-Apart [] s h = tt
overlaps_any-Apart (t ∷ spans) s h =
    let (apart, rest) = or-false _ _ h in
    (ranges_overlap-Before _ _ _ _ apart, overlaps_any-Apart spans s rest)

pub All-snoc {ℓ} :
    (P : Span → Type ℓ) (spans : List Span) (s : Span) → All P spans → P s → All P (spans ++ s ∷ [])
All-snoc P [] s h p = (p, tt)
All-snoc P (t ∷ spans) s h p = (h.0, All-snoc P spans s h.1 p)

snoc-AllApart :
    (spans : List Span) (s : Span)
    → AllApart spans
    → All (λ t. Apart t s) spans
    → AllApart (spans ++ s ∷ [])
snoc-AllApart [] s a h = (tt, tt)
snoc-AllApart (t ∷ spans) s a h =
    (All-snoc (Apart t) spans s a.0 h.0, snoc-AllApart spans s a.1 h.1)

insert_span-All {ℓ} :
    (P : Span → Type ℓ) (s : Span) (spans : List Span)
    → P s
    → All P spans
    → All P (insert_span s spans)
unfolding insert_span
insert_span-All P s [] p h = (p, tt)
insert_span-All P s (t ∷ spans) p h = elim (Bool-cases (ltb s.from t.from)) [
  | inl e ↦ rw e (h.0, insert_span-All P s spans p h.1)
  | inr e ↦ rw e (p, h)
]

pub sort_spans-All {ℓ} :
    (P : Span → Type ℓ) (spans : List Span) → All P spans → All P (sort_spans spans)
unfolding sort_spans
sort_spans-All P [] h = tt
sort_spans-All P (s ∷ spans) h =
    insert_span-All P s (sort_spans spans) h.0 (sort_spans-All P spans h.1)

Apart-Before : (s t : Span) → Apart s t → s.from < t.from → Before s.from s.old_len t.from
Apart-Before s t (inl b) h = b
Apart-Before s t (inr b) h = absurd (omega arith)

Apart-After : (s t : Span) → Apart s t → t.from ≤ s.from → Before t.from t.old_len s.from
Apart-After s t (inl b) h = absurd (omega arith)
Apart-After s t (inr b) h = b

Before-trans :
    (s t u : Span)
    → Before t.from t.old_len s.from
    → Before u.from u.old_len t.from
    → Before u.from u.old_len s.from
Before-trans s t u h k = (omega arith, omega arith)

insert_span-Descending :
    (s : Span) (spans : List Span)
    → All (Apart s) spans
    → Descending spans
    → Descending (insert_span s spans)
unfolding insert_span
insert_span-Descending s [] a d = (tt, tt)
insert_span-Descending s (t ∷ spans) a d = elim (Bool-cases (ltb s.from t.from)) [
  | inl e ↦ rw e (
    insert_span-All (λ u. Before u.from u.old_len t.from) s spans
        (Apart-Before s t a.0 (ltb→lt _ _ e)) d.0,
    insert_span-Descending s spans a.1 d.1,
  )
  | inr e ↦ rw e (
    (
      Apart-After s t a.0 (ground arith),
      All-imp (λ u. Before u.from u.old_len t.from) (λ u. Before u.from u.old_len s.from)
          (λ u. Before-trans s t u (Apart-After s t a.0 (ground arith))) spans d.0,
    ),
    d,
  )
]

pub sort_spans-Descending : (spans : List Span) → AllApart spans → Descending (sort_spans spans)
unfolding sort_spans
sort_spans-Descending [] h = tt
sort_spans-Descending (s ∷ spans) h =
    insert_span-Descending s (sort_spans spans) (sort_spans-All (Apart s) spans h.0)
      (sort_spans-Descending spans h.1)

-- What holds of the spans that are placed so far: they end within the file and do not overlap.
abbrev pub IsPlaced : ℕ → List Span → Type 0
IsPlaced n spans = All (IsWithin n) spans × AllApart spans

add_span-IsPlaced :
    (n : ℕ) (hunk : Hunk) (spans : List Span) (s : Span) (spans' : List Span)
    → IsWithin n s
    → IsPlaced n spans
    → add_span hunk spans s ≡ ok spans'
    → IsPlaced n spans'
unfolding add_span
add_span-IsPlaced n hunk spans s spans' w p h =
    elim (Bool-cases (s.old_len == 0 && is_empty s.neu)) [
      | inl skip ↦ subst (IsPlaced n) (ok_inj _ _ (rw skip at h)) p
      | inr e ↦ elim (Bool-cases (overlaps_any spans s)) [
        | inl o ↦ cc
        | inr a ↦ subst (IsPlaced n) (ok_inj _ _ (rw (e, a) at h)) (
          All-snoc (IsWithin n) spans s p.0 w,
          snoc-AllApart spans s p.1 (overlaps_any-Apart spans s a),
        )
      ]
    ]

-- Where the loop over the hunks starts with spans that end within the file and do not overlap, and
-- gives spans, these end within the file, and no two of them overlap.
pub place_loop-IsPlaced :
    (path : Bytes) (file : List Bytes) (spans : List Span) (hunks : List Hunk) (spans' : List Span)
    → IsPlaced (length file) spans
    → place_loop path file spans hunks ≡ ok spans'
    → IsPlaced (length file) spans'
unfolding place_loop
place_loop-IsPlaced path file spans [] spans' p h = subst (IsPlaced (length file)) (ok_inj _ _ h) p
place_loop-IsPlaced path file spans (hunk ∷ hunks) spans' p h =
    let placing = place_hunk path file hunk >>= add_span hunk spans in
    let (added, rest, h1) = >>=-ok (λ t. place_loop path file t hunks) placing h in
    let (s, h2, placed) = >>=-ok (add_span hunk spans) (place_hunk path file hunk) h1 in
    let (pre, post, (e, a, within)) = place_hunk-IsReplaced path file hunk s placed in
    place_loop-IsPlaced path file added hunks spans'
      (add_span-IsPlaced (length file) hunk spans s added within p h2) rest
