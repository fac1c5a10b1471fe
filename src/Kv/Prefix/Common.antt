-- ===== src/Kv/Prefix/Common.antt =====
-- Theorems about `common_prefix_length` (src/common/span_prefix.hpp).
use llama_onprem_server.Prelude.{
  ℕ, zero, suc, ◌+◌, ◌≤◌, ◌<◌, true, false, List, [], ◌∷◌, min, ◌≡◌, refl, ◌↔◌, ◌⊎◌, inl, inr,
  arith, dec_lt, ==_iff, Bool-cases, length, take,
}
use llama_onprem_server.Kv.Prefix.{same_at, common_prefix_loop, common_prefix_length}

-- The sequences agree on every index below `j`.
abbrev pub Agree : List ℕ → List ℕ → ℕ → Type 0
Agree a b j = (i : ℕ) → i < j → same_at a b i ≡ true

-- `k` is where agreement ends: everything below agrees, and `k` is out of range or differs.
pub record IsEnd (a b : List ℕ) (k : ℕ) : Type 0 where
  pub le_left : k ≤ length a
  pub le_right : k ≤ length b
  pub agrees : Agree a b k
  pub stops : (k ≡ min (length a) (length b)) ⊎ (same_at a b k ≡ false)

pub Agree-suc : (a b : List ℕ) (j : ℕ) → Agree a b j → same_at a b j ≡ true → Agree a b (j + 1)
Agree-suc a b j h e i lt = elim (dec_lt i j) [
  | yes p ↦ h i p
  | no p ↦ let e' : i ≡ j = omega arith in rw e' e
]

common_prefix_loop-IsEnd :
    (a b : List ℕ) (rounds i : ℕ)
    → i + rounds ≡ min (length a) (length b)
    → Agree a b i
    → IsEnd a b (common_prefix_loop a b rounds i)
unfolding common_prefix_loop
common_prefix_loop-IsEnd a b zero i e h = record {
  le_left = omega arith;
  le_right = omega arith;
  agrees = h;
  stops = inl (omega arith);
}
common_prefix_loop-IsEnd a b (suc rounds) i e h = elim (Bool-cases (same_at a b i)) [
  | inl same ↦
      rw same (common_prefix_loop-IsEnd a b rounds (i + 1) (omega arith) (Agree-suc a b i h same))
  | inr differs ↦
      rw differs
        (record { le_left = omega arith; le_right = omega arith; agrees = h; stops = inr differs })
]

pub common_prefix_length-IsEnd : (a b : List ℕ) → IsEnd a b (common_prefix_length a b)
unfolding common_prefix_length
common_prefix_length-IsEnd a b =
    common_prefix_loop-IsEnd a b (min (length a) (length b)) 0 (omega arith)
      (λ i h. absurd (omega arith))

Agree-le-IsEnd :
    (a b : List ℕ) (j k : ℕ) → IsEnd a b k → j ≤ length a → j ≤ length b → Agree a b j → j ≤ k
Agree-le-IsEnd a b j k e ha hb h = elim (dec_lt k j) [
  | yes p ↦ ground (arith, h k)
  | no p ↦ omega arith
]

pub IsEnd-unique : (a b : List ℕ) (j k : ℕ) → IsEnd a b j → IsEnd a b k → j ≡ k
IsEnd-unique a b j k s t = omega (
  arith,
  Agree-le-IsEnd a b j k t s.le_left s.le_right s.agrees,
  Agree-le-IsEnd a b k j s t.le_left t.le_right t.agrees,
)

-- Agreement below `j` is equality of the first `j` elements.
take_of_Agree :
    (a b : List ℕ) (j : ℕ) → j ≤ length a → j ≤ length b → Agree a b j → take j a ≡ take j b
take_of_Agree a b zero ha hb h = refl
take_of_Agree [] b (suc j) ha hb h = absurd (omega arith)
take_of_Agree (x ∷ a) [] (suc j) ha hb h = absurd (omega arith)
take_of_Agree (x ∷ a) (y ∷ b) (suc j) ha hb h =
    let tails = take_of_Agree a b j (omega arith) (omega arith) (λ i lt. h (suc i) (omega arith)) in
    rw ((==_iff x y).0 (h 0 (omega arith)), tails)

Agree-of_take :
    (a b : List ℕ) (j : ℕ) → j ≤ length a → j ≤ length b → take j a ≡ take j b → Agree a b j
Agree-of_take a b zero ha hb e i lt = absurd (omega arith)
Agree-of_take [] b (suc j) ha hb e i lt = absurd (omega arith)
Agree-of_take (x ∷ a) [] (suc j) ha hb e i lt = absurd (omega arith)
Agree-of_take (x ∷ a) (y ∷ b) (suc j) ha hb e zero lt = (==_iff x y).1 (cc)
Agree-of_take (x ∷ a) (y ∷ b) (suc j) ha hb e (suc i) lt =
    Agree-of_take a b j (omega arith) (omega arith) (cc) i (omega arith)

-- For every j within both sequences, the first j tokens are equal exactly when j is at most
-- the result: it is the length of the longest common prefix.
common_prefix_length_longest :
    (a b : List ℕ) (j : ℕ)
    → j ≤ length a
    → j ≤ length b
    → (take j a ≡ take j b) ↔ (j ≤ common_prefix_length a b)
common_prefix_length_longest a b j ha hb =
    let e = common_prefix_length-IsEnd a b in
    (
      λ h. Agree-le-IsEnd a b j _ e ha hb (Agree-of_take a b j ha hb h),
      λ h. take_of_Agree a b j ha hb (λ i lt. e.agrees i (omega arith)),
    )
