-- ===== src/Edit/Lines/RoundTrip.antt =====
-- Theorems about `join_lines` and `split_lines` (src/common/tools/tool_edit_file.cpp).
use mathlib.Core.List.{append_assoc}
use native.Mathlib.Numerals.{add-one}
use llama_onprem_server.Prelude.{
  ℕ, zero, suc, ◌≤◌, List, [], ◌∷◌, ◌++◌, ◌≡◌, refl, sym, ap, ◌∙◌, inl, inr, ◌==◌, length,
  length-append, Bytes, back_is, back_is-append, arith, true, false, Bool, All, if◌then◌else◌,
}
use llama_onprem_server.Edit.Lines.{split_loop, split_lines, join_loop, join_lines}
use llama_onprem_server.Edit.Lines.Split.{
  IsLine, IsLine-cases, split_loop-IsLine, split_loop-append,
}

-- The lines with a newline between them, and behind the last where `b` says so.
abbrev joined : List Bytes → Bool → Bytes
joined [] b = []
joined (l ∷ []) b = if b then l ++ b'\n' ∷ [] else l
joined (l ∷ m ∷ ls) b = l ++ b'\n' ∷ joined (m ∷ ls) b

suc-==-zero : (i : ℕ) → (suc i == 0) ≡ false
suc-==-zero i = ground arith

join_loop-suc :
    (i : ℕ) (out l : Bytes) (ls : List Bytes)
    → join_loop (suc i) out (l ∷ ls) ≡ join_loop (suc (suc i)) (out ++ b'\n' ∷ l) ls
unfolding join_loop
join_loop-suc i out l ls = rw (suc-==-zero i, add-one (suc i), append_assoc out (b'\n' ∷ []) l)

join_loop-joined :
    (i : ℕ) (out : Bytes) (l : Bytes) (ls : List Bytes)
    → join_loop (suc i) out (l ∷ ls) ≡ out ++ b'\n' ∷ joined (l ∷ ls) false
unfolding join_loop
join_loop-joined i out l [] = join_loop-suc i out l []
join_loop-joined i out l (m ∷ ls) =
    join_loop-suc i out l (m ∷ ls)
    ∙ join_loop-joined (suc i) (out ++ b'\n' ∷ l) m ls
    ∙ append_assoc out (b'\n' ∷ l) (b'\n' ∷ joined (m ∷ ls) false)

joined-true :
    (l : Bytes) (ls : List Bytes) → joined (l ∷ ls) true ≡ joined (l ∷ ls) false ++ b'\n' ∷ []
joined-true l [] = refl
joined-true l (m ∷ ls) =
    rw (joined-true m ls) (sym (append_assoc l (b'\n' ∷ joined (m ∷ ls) false) (b'\n' ∷ [])))

join_loop_start : (l : Bytes) (ls : List Bytes) → join_loop 0 [] (l ∷ ls) ≡ joined (l ∷ ls) false
unfolding join_loop
join_loop_start l [] = refl
join_loop_start l (m ∷ ls) = join_loop-joined 0 l m ls

join_lines-joined : (ls : List Bytes) (b : Bool) → join_lines ls b ≡ joined ls b
unfolding join_lines join_loop
join_lines-joined [] false = refl
join_lines-joined [] true = refl
join_lines-joined (l ∷ ls) false = join_loop_start l ls
join_lines-joined (l ∷ ls) true = rw (join_loop_start l ls) (sym (joined-true l ls))

split_loop_nil : (fuel : ℕ) → split_loop fuel [] ≡ []
unfolding split_loop
split_loop_nil zero = refl
split_loop_nil (suc fuel) = refl

-- More lines follow a line where text follows it.
joined-cons :
    (l : Bytes) (ls : List Bytes) (b : Bool) (d : ℕ) (r : Bytes)
    → joined ls b ≡ d ∷ r
    → joined (l ∷ ls) b ≡ l ++ b'\n' ∷ d ∷ r
joined-cons l [] b d r h = cc
joined-cons l (m ∷ ls) b d r h = ap (λ t. l ++ b'\n' ∷ t) h

rest-lt : (l r c : Bytes) (fuel : ℕ) → length c ≤ suc fuel → c ≡ l ++ b'\n' ∷ r → length r ≤ fuel
rest-lt l r c fuel h e = omega (arith, length-append l (b'\n' ∷ r), ap length e)

back_is-IsLine : (l : Bytes) → IsLine l → back_is b'\n' l ≡ false
unfolding back_is
back_is-IsLine [] h = refl
back_is-IsLine (x ∷ []) h = h.0
back_is-IsLine (x ∷ y ∷ l) h = back_is-IsLine (y ∷ l) h.1

back_is-append_last : (l : Bytes) → back_is b'\n' (l ++ b'\n' ∷ []) ≡ true
unfolding back_is
back_is-append_last l = back_is-append b'\n' l b'\n' []

back_is-append_more :
    (l : Bytes) (d : ℕ) (r : Bytes) → back_is b'\n' (l ++ b'\n' ∷ d ∷ r) ≡ back_is b'\n' (d ∷ r)
unfolding back_is
back_is-append_more l d r = back_is-append b'\n' l b'\n' (d ∷ r)

back_is-append_true : (l r : Bytes) → back_is b'\n' r ≡ true → back_is b'\n' (l ++ b'\n' ∷ r) ≡ true
unfolding back_is
back_is-append_true l [] h = cc
back_is-append_true l (d ∷ r) h = back_is-append_more l d r ∙ h

joined-split_loop :
    (fuel : ℕ) (content : Bytes)
    → length content ≤ fuel
    → joined (split_loop fuel content) (back_is b'\n' content) ≡ content
unfolding split_loop
joined-split_loop zero [] h = refl
joined-split_loop zero (c ∷ cs) h = absurd (omega arith)
joined-split_loop (suc fuel) [] h = refl
joined-split_loop (suc fuel) (c ∷ cs) h = elim (IsLine-cases (c ∷ cs)) [
  | inl line ↦ rw (split_loop-IsLine fuel c cs line, back_is-IsLine (c ∷ cs) line)
  | inr (l, [], line, e) ↦
      rw (e, split_loop-append fuel l [] line, back_is-append_last l, split_loop_nil fuel)
  | inr (l, d ∷ r, line, e) ↦
      rw (e, split_loop-append fuel l (d ∷ r) line, back_is-append_more l d r)
        (joined-cons l _ _ d r (joined-split_loop fuel (d ∷ r) (rest-lt l (d ∷ r) _ fuel h e)))
]

-- For every content, the lines joined again, with the trailing newline as it was found, are the
-- content.
pub join_lines-split_lines :
    (content : Bytes)
    → join_lines (split_lines content).lines (split_lines content).trailing_newline ≡ content
unfolding split_lines
join_lines-split_lines content =
    join_lines-joined (split_loop (length content) content) (back_is b'\n' content)
    ∙ joined-split_loop (length content) content (omega arith)

split_loop-joined :
    (fuel : ℕ) (l : Bytes) (ls : List Bytes)
    → length (joined (l ∷ ls) true) ≤ fuel
    → All IsLine (l ∷ ls)
    → split_loop fuel (joined (l ∷ ls) true) ≡ l ∷ ls
split_loop-joined zero l [] h all = absurd (omega (arith, length-append l (b'\n' ∷ [])))
split_loop-joined zero l (m ∷ ls) h all =
    absurd (omega (arith, length-append l (b'\n' ∷ joined (m ∷ ls) true)))
split_loop-joined (suc fuel) l [] h all =
    split_loop-append fuel l [] all.0 ∙ ap (λ ls. l ∷ ls) (split_loop_nil fuel)
split_loop-joined (suc fuel) l (m ∷ ls) h all =
    split_loop-append fuel l (joined (m ∷ ls) true) all.0
    ∙ ap (λ ls. l ∷ ls) (split_loop-joined fuel m ls (rest-lt l _ _ fuel h refl) all.1)

back_is-joined : (l : Bytes) (ls : List Bytes) → back_is b'\n' (joined (l ∷ ls) true) ≡ true
back_is-joined l [] = back_is-append_last l
back_is-joined l (m ∷ ls) = back_is-append_true l (joined (m ∷ ls) true) (back_is-joined m ls)

-- Lines that hold no newline, at least one of them, are read back as they were written with a
-- trailing newline.
pub split_lines-join_lines :
    (l : Bytes) (ls : List Bytes)
    → All IsLine (l ∷ ls)
    → split_lines (join_lines (l ∷ ls) true) ≡ record { lines = l ∷ ls; trailing_newline = true }
unfolding split_lines
split_lines-join_lines l ls all = rw (
  join_lines-joined (l ∷ ls) true,
  back_is-joined l ls,
  split_loop-joined (length (joined (l ∷ ls) true)) l ls (omega arith) all,
)
