-- ===== src/Edit/Match/Sides.antt =====
-- `lines_match` and the sides of a hunk (src/common/tools/tool_edit_file.cpp) as parts of lists.
use llama_onprem_server.Prelude.{
  ℕ, ◌+◌, ◌≤◌, true, ◌||◌, List, [], ◌∷◌, ◌++◌, ltb, ◌==◌, length, take, drop, Bytes, bytes_eq,
  bytes_eq_iff, ◌≡◌, refl, sym, ap, ◌∙◌, arith, All, Bool-cases, take-append-drop, inl, inr,
}
use llama_onprem_server.Edit.{PatchLine}
use llama_onprem_server.Edit.Match.{side, match_loop, lines_match}

pub match_loop-append :
    (file old : List Bytes)
    → match_loop file old ≡ true
    → (post : List Bytes) × (file ≡ old ++ post)
unfolding match_loop
match_loop-append file [] h = (file, refl)
match_loop-append [] (line ∷ old) h = cc
match_loop-append (x ∷ file) (line ∷ old) h = elim (Bool-cases (bytes_eq x line)) [
  | inl e ↦
      let (post, q) = match_loop-append file old (rw e at h) in
      (post, λ i. (bytes_eq_iff x line).0 e i ∷ q i)
  | inr e ↦ cc
]

-- The lines stand at `at`.
pub lines_match-append :
    (file : List Bytes) (at : ℕ) (old : List Bytes)
    → lines_match file at old ≡ true
    → (post : List Bytes) × (file ≡ take at file ++ (old ++ post)) × (at + length old ≤ length file)
unfolding lines_match
lines_match-append file at old h = elim (Bool-cases (ltb (length file) (at + length old))) [
  | inl e ↦ cc
  | inr e ↦
      let (post, q) = match_loop-append (drop at file) old (rw e at h) in
      (post, sym (take-append-drop at file) ∙ ap (λ t. take at file ++ t) q, ground arith)
]

-- A line of context.
abbrev pub IsContext : PatchLine → Type 0
IsContext line = (line.kind == b' ') ≡ true

pub side-append : (k : ℕ) (xs ys : List PatchLine) → side k (xs ++ ys) ≡ side k xs ++ side k ys
unfolding side
side-append k [] ys = refl
side-append k (x ∷ xs) ys = elim (Bool-cases (x.kind == b' ' || x.kind == k)) [
  | inl e ↦ rw (e, side-append k xs ys)
  | inr e ↦ rw (e, side-append k xs ys)
]

-- Context is on both sides.
pub side-IsContext : (k j : ℕ) (xs : List PatchLine) → All IsContext xs → side k xs ≡ side j xs
unfolding side
side-IsContext k j [] h = refl
side-IsContext k j (x ∷ xs) h = rw (h.0, side-IsContext k j xs h.1)

pub length-side : (k : ℕ) (xs : List PatchLine) → All IsContext xs → length (side k xs) ≡ length xs
unfolding side
length-side k [] h = refl
length-side k (x ∷ xs) h = rw (h.0, length-side k xs h.1)
