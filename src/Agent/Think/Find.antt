-- ===== src/Agent/Think/Find.antt =====
-- Theorems about `find_ieq` (src/server/agent/response_parse.cpp).
use llama_onprem_server.Prelude.{
  ℕ, ◌+◌, Bool, true, false, ◌&&◌, [], ◌∷◌, ◌++◌, none, some, ◌==◌, length, Bytes, ◌≡◌, refl, ap,
  arith, All, Bool-cases, Option-cases, inl, inr,
}
use llama_onprem_server.Agent.Think.{lower, same_ieq, starts_ieq, find_ieq}

-- A text starts with itself.
same_ieq-append : (lit rest : Bytes) → same_ieq (lit ++ rest) lit ≡ true
unfolding same_ieq
same_ieq-append [] rest = refl
same_ieq-append (l ∷ lit) rest = ground (arith, same_ieq-append lit rest)

abbrev pub NoOpen : Bytes → Type 0
NoOpen = All (λ c. (lower c == b'<') ≡ false)

differ : (b : ℕ) (rest : Bool) → (b == b'<') ≡ false → (b'<' == b) && rest ≡ false
differ b rest h = ground arith

at_open :
    (l : ℕ) (lit rest : Bytes)
    → (lower l == b'<') ≡ false
    → same_ieq (b'<' ∷ rest) (l ∷ lit) ≡ false
unfolding same_ieq lower
at_open l lit rest h = differ (lower l) (same_ieq rest lit) h

-- What has no '<' and stands in front of one starts there only if it ends there.
same_ieq-front :
    (s lit rest : Bytes)
    → NoOpen lit
    → same_ieq s lit ≡ false
    → same_ieq (s ++ b'<' ∷ rest) lit ≡ false
unfolding same_ieq
same_ieq-front s [] rest h k = cc
same_ieq-front [] (l ∷ lit) rest h k = at_open l lit rest h.0
same_ieq-front (x ∷ s) (l ∷ lit) rest h k = elim (Bool-cases (lower x == lower l)) [
  | inl e ↦ rw e (same_ieq-front s lit rest h.1 (rw e at k))
  | inr e ↦ rw e refl
]

starts_ieq-front :
    (x : ℕ) (s lit rest : Bytes)
    → NoOpen lit
    → starts_ieq (x ∷ s) (b'<' ∷ lit) ≡ false
    → starts_ieq (x ∷ s ++ b'<' ∷ rest) (b'<' ∷ lit) ≡ false
unfolding starts_ieq same_ieq
starts_ieq-front x s lit rest h k = elim (Bool-cases (lower x == lower b'<')) [
  | inl e ↦ rw e (same_ieq-front s lit rest h (rw e at k))
  | inr e ↦ rw e refl
]

starts_ieq-append : (lit rest : Bytes) → starts_ieq (b'<' ∷ lit ++ rest) (b'<' ∷ lit) ≡ true
unfolding starts_ieq
starts_ieq-append lit rest = same_ieq-append (b'<' ∷ lit) rest

some_ne_none : (i : ℕ) → ¬ (some i ≡ none)
some_ne_none i h = cc

-- A text with '<' in front of no other is found where it stands first.
pub find_ieq-append :
    (s lit rest : Bytes)
    → NoOpen lit
    → find_ieq (b'<' ∷ lit) s ≡ none
    → find_ieq (b'<' ∷ lit) (s ++ (b'<' ∷ lit ++ rest)) ≡ some (length s)
unfolding find_ieq
find_ieq-append [] lit rest h k = rw (starts_ieq-append lit rest) refl
find_ieq-append (x ∷ s) lit rest h k = elim (Bool-cases (starts_ieq (x ∷ s) (b'<' ∷ lit))) [
  | inl e ↦ absurd (some_ne_none 0 (rw e at k))
  | inr e ↦ elim (Option-cases (find_ieq (b'<' ∷ lit) s)) [
    | inl f ↦
        rw (starts_ieq-front x s lit (lit ++ rest) h e, find_ieq-append s lit rest h f)
          (ap some (omega arith))
    | inr (i, f) ↦ absurd (some_ne_none (i + 1) (rw (e, f) at k))
  ]
]
