-- ===== src/Edit/Spans/Trimmed.antt =====
-- The context around what a hunk changes (`edit_file`, src/common/tools/tool_edit_file.cpp).
use native.Mathlib.Numerals.{add-one}
use llama_onprem_server.Prelude.{
  suc, Bool, true, false, List, [], ◌∷◌, ◌++◌, ◌==◌, ◌&&◌, length, take, ◌≡◌, refl, ap, ◌∙◌, All,
  Bool-cases, inl, inr,
}
use llama_onprem_server.Jobs.TokenBuffer.{is_empty}
use llama_onprem_server.Edit.{PatchLine}
use llama_onprem_server.Edit.Spans.{leading, without_tail}
use llama_onprem_server.Edit.Match.Sides.{IsContext}

-- The context before the first change.
pub take-leading :
    (lines : List PatchLine)
    → All IsContext (take (leading lines) lines)
      × (length (take (leading lines) lines) ≡ leading lines)
unfolding leading
take-leading [] = (tt, refl)
take-leading (x ∷ xs) = elim (Bool-cases (x.kind == b' ')) [
  | inl e ↦
      rw (e, add-one (leading xs)) (let (all, len) = take-leading xs in ((e, all), ap suc len))
  | inr e ↦ rw e (tt, refl)
]

and-true : (a b : Bool) → a && b ≡ true → (a ≡ true) × (b ≡ true)
and-true true b h = (refl, h)
and-true false b h = cc

pub is_empty-eq : {A : Type 0} (xs : List A) → is_empty xs ≡ true → xs ≡ []
is_empty-eq [] h = refl
is_empty-eq (x ∷ xs) h = cc

-- The context behind the last change.
pub without_tail-append :
    (lines : List PatchLine)
    → (tail : List PatchLine) × (lines ≡ without_tail lines ++ tail) × All IsContext tail
unfolding without_tail
without_tail-append [] = ([], refl, tt)
without_tail-append (x ∷ xs) =
    let (tail, q, all) = without_tail-append xs in
    elim (Bool-cases (x.kind == b' ' && is_empty (without_tail xs))) [
      | inl e ↦
          let (context, nothing) = and-true (x.kind == b' ') (is_empty (without_tail xs)) e in
          let same = q ∙ ap (λ t. t ++ tail) (is_empty-eq (without_tail xs) nothing) in
          rw e (x ∷ tail, ap (◌∷◌ x) same, (context, all))
      | inr e ↦ rw e (tail, ap (λ t. x ∷ t) q, all)
    ]
