-- ===== src/Edit/Lines/Split.antt =====
-- Lemmas about the loops over lines (src/common/tools/tool_edit_file.cpp) at a newline and without
-- one.
use llama_onprem_server.Prelude.{
  ℕ, suc, ◌+◌, [], ◌∷◌, ◌++◌, none, some, ◌≡◌, refl, sym, ap, ◌∙◌, ◌⊎◌, inl, inr, ◌==◌, length,
  drop, take-append_length, Bytes, find_byte, arith, false, All, Bool-cases, ==_iff,
}
use llama_onprem_server.Edit.Lines.{split_loop}

-- No newline in the text.
abbrev pub IsLine : Bytes → Type 0
IsLine = All (λ c. (c == b'\n') ≡ false)

add_one : (n : ℕ) → n + 1 ≡ suc n
add_one n = omega arith

pub find_byte-IsLine : (l : Bytes) → IsLine l → find_byte b'\n' l ≡ none
unfolding find_byte
find_byte-IsLine [] h = refl
find_byte-IsLine (x ∷ l) h = rw (h.0, find_byte-IsLine l h.1)

pub find_byte-append : (l r : Bytes) → IsLine l → find_byte b'\n' (l ++ b'\n' ∷ r) ≡ some (length l)
unfolding find_byte
find_byte-append [] r h = refl
find_byte-append (x ∷ l) r h = rw (h.0, find_byte-append l r h.1) (ap some (add_one (length l)))

-- A text is one line, or a line, a newline and a rest.
pub IsLine-cases : (t : Bytes) → IsLine t ⊎ ((l r : Bytes) × IsLine l × (t ≡ l ++ b'\n' ∷ r))
IsLine-cases [] = inl tt
IsLine-cases (c ∷ cs) = elim (Bool-cases (c == b'\n')) [
  | inl e ↦ inr ([], cs, tt, ap (λ b. b ∷ cs) ((==_iff c b'\n').0 e))
  | inr e ↦ elim (IsLine-cases cs) [
    | inl h ↦ inl (e, h)
    | inr (l, r, h, q) ↦ inr (c ∷ l, r, (e, h), ap (◌∷◌ c) q)
  ]
]

pub drop_past : (l r : Bytes) → drop (length l + 1) (l ++ b'\n' ∷ r) ≡ r
drop_past [] r = refl
drop_past (x ∷ l) r =
    ap (λ n. drop n ((x ∷ l) ++ b'\n' ∷ r)) (add_one (length (x ∷ l)))
    ∙ ap (λ n. drop n (l ++ b'\n' ∷ r)) (sym (add_one (length l)))
    ∙ drop_past l r

pub split_loop-IsLine :
    (fuel : ℕ) (c : ℕ) (cs : Bytes)
    → IsLine (c ∷ cs)
    → split_loop (suc fuel) (c ∷ cs) ≡ (c ∷ cs) ∷ []
unfolding split_loop
split_loop-IsLine fuel c cs h = rw (split_loop, find_byte-IsLine (c ∷ cs) h)

pub split_loop-append :
    (fuel : ℕ) (l r : Bytes)
    → IsLine l
    → split_loop (suc fuel) (l ++ b'\n' ∷ r) ≡ l ∷ split_loop fuel r
unfolding split_loop
split_loop-append fuel [] r h = rw (split_loop, find_byte-append [] r tt)
split_loop-append fuel (c ∷ cs) r h =
    rw (split_loop, find_byte-append (c ∷ cs) r h)
      (λ i. take-append_length (c ∷ cs) (b'\n' ∷ r) i ∷ split_loop fuel (drop_past (c ∷ cs) r i))
