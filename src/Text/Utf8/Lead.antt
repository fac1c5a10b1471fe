-- ===== src/Text/Utf8/Lead.antt =====
-- The bytes of UTF-8 by their ranges, and lemmas about the masks of `Utf8Util`
-- (src/server/llm/utf8_stream.hpp).
use llama_onprem_server.Prelude.{
  ℕ, zero, suc, ◌≤◌, ◌<◌, Bool, true, false, not, ◌&&◌, ◌||◌, [], ◌∷◌, ◌++◌, ◌≡◌, refl, arith, ltb,
  ◌==◌, if◌then◌else◌, length, Bytes,
}
use llama_onprem_server.Text.Utf8.{is_continuation, expected_len}

abbrev pub IsContinuation : ℕ → Type 0
IsContinuation c = (0x80 ≤ c) × (c < 0xC0)

-- The length of the character that a first byte announces, and 0 for a byte that begins none.
abbrev pub lead_len : ℕ → ℕ
lead_len c =
    if ltb c 0x80
    then 1
    else if ltb c 0xC0
    then 0
    else if ltb c 0xE0
    then 2
    else if ltb c 0xF0
    then 3
    else if ltb c 0xF8
    then 4
    else 0

holds_below : ℕ → (ℕ → Bool) → Bool
holds_below zero p = true
holds_below (suc n) p = p n && holds_below n p

holds_below_at : (n c : ℕ) (p : ℕ → Bool) → holds_below n p ≡ true → c < n → p c ≡ true
unfolding holds_below
holds_below_at zero c p h lt = absurd (omega arith)
holds_below_at (suc n) c p h lt = ground (arith, holds_below_at n c p)

continuation_table : holds_below 0xC0 (λ c. ltb c 0x80 || is_continuation c) ≡ true
unfolding holds_below is_continuation
continuation_table = refl

lead_table :
    holds_below 0xF8
      (λ c. lead_len c == 0 || not (is_continuation c) && expected_len c == lead_len c)
    ≡ true
unfolding holds_below is_continuation expected_len
lead_table = refl

pub is_continuation_lem : (c : ℕ) → IsContinuation c → is_continuation c ≡ true
is_continuation_lem c h =
    ground
      (arith, holds_below_at 0xC0 c (λ c. ltb c 0x80 || is_continuation c) continuation_table h.1)

pub lead_lem :
    (c n : ℕ) → lead_len c ≡ suc n → (is_continuation c ≡ false) × (expected_len c ≡ suc n)
lead_lem c n h = ground (
  arith,
  holds_below_at 0xF8 c
      (λ c. lead_len c == 0 || not (is_continuation c) && expected_len c == lead_len c) lead_table,
)

abbrev pub Continuations : Bytes → Type 0
Continuations [] = Unit {0}
Continuations (c ∷ cs) = IsContinuation c × Continuations cs

-- Whole characters, one behind the other.
pub data IsUtf8 : Bytes → Type 0 where
  nil : IsUtf8 []
  char :
      (c : ℕ) (cs rest : Bytes)
      → lead_len c ≡ suc (length cs)
      → Continuations cs
      → IsUtf8 rest
      → IsUtf8 (c ∷ (cs ++ rest))

-- The beginning of one character, short of its end.
pub data IsPartial : Bytes → Type 0 where
  none_yet : IsPartial []
  begun :
      (c : ℕ) (cs : Bytes) → suc (length cs) < lead_len c → Continuations cs → IsPartial (c ∷ cs)
