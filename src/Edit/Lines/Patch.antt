-- ===== src/Edit/Lines/Patch.antt =====
-- `patch_lines` (src/common/tools/tool_edit_file.cpp) against the lines of a file, and on a text that
-- was put together from lines.
use mathlib.Core.List.{append_assoc}
use llama_onprem_server.Prelude.{
  ℕ, zero, suc, ◌+◌, ◌≤◌, List, [], ◌∷◌, ◌++◌, ◌≡◌, refl, sym, ap, ◌∙◌, inl, inr, length,
  length-append, take, drop, map, Bytes, find_byte, arith, All, Option-cases, false, back_is,
}
use llama_onprem_server.Edit.Lines.{split_loop, split_lines, patch_loop, patch_lines, strip_cr}
use llama_onprem_server.Edit.Lines.Split.{IsLine, split_loop-append}

patch_loop-map :
    (fuel : ℕ) (patch : Bytes) → patch_loop fuel patch ≡ map strip_cr (split_loop fuel patch)
unfolding patch_loop split_loop
patch_loop-map zero patch = refl
patch_loop-map (suc fuel) [] = refl
patch_loop-map (suc fuel) (c ∷ cs) = elim (Option-cases (find_byte b'\n' (c ∷ cs))) [
  | inl e ↦ rw (patch_loop, split_loop, e)
  | inr (nl, e) ↦
      rw (patch_loop, split_loop, e)
        (ap (λ t. strip_cr (take nl (c ∷ cs)) ∷ t) (patch_loop-map fuel (drop (nl + 1) (c ∷ cs))))
]

-- The lines of a patch are those of a file with the same content, each without a last '\r'.
pub patch_lines-split_lines :
    (patch : Bytes) → patch_lines patch ≡ map strip_cr (split_lines patch).lines
unfolding patch_lines split_lines
patch_lines-split_lines patch = patch_loop-map (length patch) patch

-- Each line with a newline behind it.
unfoldable pub unlines : List Bytes → Bytes
unlines [] = []
unlines (l ∷ ls) = l ++ b'\n' ∷ unlines ls

pub unlines-append : (xs ys : List Bytes) → unlines (xs ++ ys) ≡ unlines xs ++ unlines ys
unfolding unlines
unlines-append [] ys = refl
unlines-append (x ∷ xs) ys =
    rw (unlines-append xs ys) (sym (append_assoc x (b'\n' ∷ unlines xs) (unlines ys)))

-- A line of a text that holds no newline and does not end in '\r'.
abbrev pub IsClean : Bytes → Type 0
IsClean l = IsLine l × (back_is b'\r' l ≡ false)

strip_cr-IsClean : (l : Bytes) → back_is b'\r' l ≡ false → strip_cr l ≡ l
unfolding strip_cr back_is
strip_cr-IsClean [] h = refl
strip_cr-IsClean (x ∷ []) h = rw h
strip_cr-IsClean (x ∷ y ∷ l) h = ap (◌∷◌ x) (strip_cr-IsClean (y ∷ l) h)

split_loop-unlines :
    (fuel : ℕ) (ls : List Bytes)
    → length (unlines ls) ≤ fuel
    → All IsClean ls
    → split_loop fuel (unlines ls) ≡ ls
unfolding split_loop unlines
split_loop-unlines zero [] h a = refl
split_loop-unlines (suc fuel) [] h a = refl
split_loop-unlines zero (l ∷ ls) h a = absurd (omega (arith, length-append l (b'\n' ∷ unlines ls)))
split_loop-unlines (suc fuel) (l ∷ ls) h a =
    split_loop-append fuel l (unlines ls) a.0.0
    ∙ ap (◌∷◌ l)
        (split_loop-unlines fuel ls (omega (arith, length-append l (b'\n' ∷ unlines ls))) a.1)

map-strip_cr : (ls : List Bytes) → All IsClean ls → map strip_cr ls ≡ ls
map-strip_cr [] a = refl
map-strip_cr (l ∷ ls) a = λ i. strip_cr-IsClean l a.0.1 i ∷ map-strip_cr ls a.1 i

-- Clean lines are read back from their text.
pub patch_lines-unlines : (ls : List Bytes) → All IsClean ls → patch_lines (unlines ls) ≡ ls
unfolding patch_lines
patch_lines-unlines ls a =
    patch_loop-map (length (unlines ls)) (unlines ls)
    ∙ ap (map strip_cr) (split_loop-unlines (length (unlines ls)) ls (omega arith) a)
    ∙ map-strip_cr ls a
