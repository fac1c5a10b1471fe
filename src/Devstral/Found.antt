-- ===== src/Devstral/Found.antt =====
-- Theorems about `json_value_end` (src/common/devstral_call.hpp) in any text.
use llama_onprem_server.Prelude.{
  ℕ, ◌+◌, ◌<◌, true, [], ◌∷◌, ◌++◌, none, some, length, drop, drop_add, drop-append_length, Bytes,
  ◌≡◌, refl, sym, ap, ◌∙◌, inl, inr, arith, Bool-cases,
}
use llama_onprem_server.Devstral.Call.{AllSpace}
use llama_onprem_server.Devstral.{at_start, opens, json_value_end, is_space, skip_space}
use llama_onprem_server.Devstral.Balance.{Balances, scan_loop-Balances}

skip_space-parts :
    (i : ℕ) (text : Bytes)
    → (spaces : Bytes) × (rest : Bytes) × (text ≡ spaces ++ rest)
      × AllSpace spaces
      × (skip_space i text ≡ i + length spaces)
unfolding skip_space
skip_space-parts i [] = ([], [], refl, tt, omega arith)
skip_space-parts i (c ∷ text) = elim (Bool-cases (is_space c)) [
  | inl h ↦
      let (spaces, rest, q, all, l) = skip_space-parts (i + 1) text in
      rw h (c ∷ spaces, rest, ap (◌∷◌ c) q, (h, all), l ∙ omega arith)
  | inr h ↦ rw h ([], c ∷ text, refl, tt, omega arith)
]

none_ne_some : (e : ℕ) → none ≡ some e → ⊥
none_ne_some e h = cc

opens-prefix : (v rest : Bytes) → 0 < length v → opens (v ++ rest) ≡ true → opens v ≡ true
unfolding opens
opens-prefix [] rest p h = absurd (omega arith)
opens-prefix (c ∷ v) rest p h = h

-- Where `json_value_end` gives an end in a text, the part up to that end is spaces and then a part
-- that begins with a brace or a bracket and in which, outside of strings, as many braces are closed as
-- are opened, and as many brackets.
pub json_value_end-Balances :
    (text : Bytes) (from e : ℕ)
    → json_value_end text from ≡ some e
    → (spaces : Bytes) × (v : Bytes) × (rest : Bytes) × (drop from text ≡ spaces ++ (v ++ rest))
      × (e ≡ from + length spaces + length v)
      × AllSpace spaces
      × (opens v ≡ true)
      × Balances at_start v
unfolding json_value_end
json_value_end-Balances text from e h =
    let (spaces, more, q, all, l) = skip_space-parts from (drop from text) in
    let value : drop (skip_space from (drop from text)) text ≡ more =
      ap (λ n. drop n text) l
      ∙ drop_add from (length spaces) text
      ∙ ap (drop (length spaces)) q
      ∙ drop-append_length spaces more in
    elim (Bool-cases (opens more)) [
      | inl o ↦
          let (v, rest, split, end, positive, bal) =
            scan_loop-Balances (skip_space from (drop from text)) at_start more e
              (rw (value, o) at h) in
          (
            spaces,
            v,
            rest,
            q ∙ ap (λ t. spaces ++ t) split,
            end ∙ ap (λ n. n + length v) l,
            all,
            opens-prefix v rest positive (ap opens (sym split) ∙ o),
            bal,
          )
      | inr o ↦ absurd (none_ne_some e (rw (value, o) at h))
    ]
