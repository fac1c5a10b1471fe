-- ===== src/Edit/Match.antt =====
-- Where a hunk stands in the file (src/common/tools/tool_edit_file.cpp): its two sides,
-- `lines_match`, `locate_hunk` and `ranges_overlap`.
pub mod Closest
pub mod Sides
use llama_onprem_server.Prelude.{
  ℕ, zero, suc, ◌+◌, ◌-◌, Bool, true, false, not, ◌&&◌, ◌||◌, List, [], ◌∷◌, ◌++◌, Option, none,
  some, ltb, leb, ◌==◌, if◌then◌else◌, length, drop, Bytes, bytes_eq, ℤ, pos, negsuc,
}
use llama_onprem_server.Edit.{PatchLine, Hunk}

-- The texts of the lines of one kind and of the context.
unfoldable pub side : ℕ → List PatchLine → List Bytes
side kind [] = []
side kind (line ∷ lines) =
    let rest = side kind lines in
    if line.kind == b' ' || line.kind == kind then line.text ∷ rest else rest

unfoldable pub old_side : Hunk → List Bytes
old_side hunk = side b'-' hunk.lines

unfoldable pub new_side : Hunk → List Bytes
new_side hunk = side b'+' hunk.lines

-- The loop of `lines_match` over the file's lines from `at` on. Where they end first, the test of
-- the sizes before the loop has failed.
unfoldable pub match_loop : List Bytes → List Bytes → Bool
match_loop file [] = true
match_loop [] (line ∷ old) = false
match_loop (x ∷ file) (line ∷ old) = if bytes_eq x line then match_loop file old else false

unfoldable pub lines_match : List Bytes → ℕ → List Bytes → Bool
lines_match file at old =
    if ltb (length file) (at + length old) then false else match_loop (drop at file) old

-- `std::labs(at - hint)`.
abbrev pub distance : ℕ → ℤ → ℕ
distance at (pos hint) = (at - hint) + (hint - at)
distance at (negsuc n) = at + n + 1

-- `best`, `best_distance` and `ties` of `locate_hunk`; no `best` is the source's -1.
pub record Nearest : Type 0 where
  pub best : Option ℕ
  pub best_distance : ℕ
  pub ties : ℕ

abbrev pub nothing_found : Nearest
nothing_found = record { best = none; best_distance = 0; ties = 0 }

abbrev pub no_best : Nearest → Bool
no_best n = elim n.best [ none ↦ true | some at ↦ false ]

-- One round for an `at` that matches.
unfoldable pub locate_step : ℤ → ℕ → Nearest → Nearest
locate_step hint at n =
    if no_best n || ltb (distance at hint) n.best_distance
    then record { best = some at; best_distance = distance at hint; ties = 1 }
    else if distance at hint == n.best_distance
    then record n { ties = n.ties + 1 }
    else n

-- The rounds that are left, from `at` on.
unfoldable pub locate_loop : List Bytes → List Bytes → ℤ → ℕ → ℕ → Nearest → Nearest
locate_loop file old hint zero at n = n
locate_loop file old hint (suc rounds) at n =
    locate_loop file old hint rounds (at + 1)
      (if lines_match file at old then locate_step hint at n else n)

pub data Located : Type 0 where
  ambiguous not_found : Located
  located : ℕ → Located

-- `last` is negative, and there is no round, where the old side is the longer one.
unfoldable pub locate_hunk : List Bytes → List Bytes → ℤ → Located
locate_hunk file old hint =
    let rounds = (length file + 1) - length old in
    let n = locate_loop file old hint rounds 0 nothing_found in
    if ltb 1 n.ties then ambiguous else elim n.best [ none ↦ not_found | some at ↦ located at ]

unfoldable pub ranges_overlap : ℕ → ℕ → ℕ → ℕ → Bool
ranges_overlap left left_len right right_len =
    if left_len == 0 && right_len == 0
    then left == right
    else if left_len == 0
    then leb right left && ltb left (right + right_len)
    else if right_len == 0
    then leb left right && ltb right (left + left_len)
    else ltb left (right + right_len) && ltb right (left + left_len)
