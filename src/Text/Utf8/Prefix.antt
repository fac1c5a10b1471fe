-- ===== src/Text/Utf8/Prefix.antt =====
-- Theorems about `get_complete_utf8_prefix_len` (src/server/llm/utf8_stream.hpp).
use mathlib.Core.List.{append-nil, append_assoc}
use llama_onprem_server.Prelude.{
  ℕ, zero, suc, ◌+◌, ◌-◌, ◌≤◌, ◌<◌, true, false, [], ◌∷◌, ◌++◌, ◌≡◌, refl, sym, ap, ◌∙◌, ◌⊎◌, inl,
  inr, arith, dec_lt, min, ltb, if◌then◌else◌, length, length-append, get_or, Bytes,
}
use llama_onprem_server.Text.Utf8.{
  is_continuation, expected_len, lookback, get_complete_utf8_prefix_len,
}
use llama_onprem_server.Text.Utf8.Lead.{
  lead_len, Continuations, IsUtf8, nil, char, IsPartial, none_yet, begun, is_continuation_lem,
  lead_lem,
}

get_or-append_right :
    (pre xs : Bytes) (k d : ℕ) → get_or (pre ++ xs) (length pre + k) d ≡ get_or xs k d
get_or-append_right [] xs k d = ap (λ i. get_or xs i d) (omega arith)
get_or-append_right (x ∷ pre) xs k d =
    let e : suc (length pre) + k ≡ suc (length pre + k) = omega arith in
    rw e (get_or-append_right pre xs k d)

Continuations-at :
    (cs : Bytes) (k : ℕ) → Continuations cs → k < length cs → is_continuation (get_or cs k 0) ≡ true
Continuations-at [] k h lt = absurd (omega arith)
Continuations-at (c ∷ cs) zero h lt = is_continuation_lem c h.0
Continuations-at (c ∷ cs) (suc k) h lt = Continuations-at cs k h.1 (omega arith)

-- A text that ends in a first byte `c` and its continuation bytes `cs`, seen from the end.
module _ (pre : Bytes) (c : ℕ) (cs : Bytes) (conts : Continuations cs) where
  abbrev whole : Bytes
  whole = pre ++ (c ∷ cs)

  length-whole : length whole ≡ length pre + suc (length cs)
  length-whole = length-append pre (c ∷ cs)

  -- `i` bytes from the end stands a continuation byte, as long as `c` is not reached.
  byte_at_tail :
      (i : ℕ) → 1 ≤ i → i ≤ length cs → is_continuation (get_or whole (length whole - i) 0) ≡ true
  byte_at_tail i low high =
      let e : length whole - i ≡ length pre + suc (length cs - i) = omega (arith, length-whole) in
      rw (e, get_or-append_right pre (c ∷ cs) (suc (length cs - i)) 0)
        (Continuations-at cs (length cs - i) conts (omega arith))

  byte_at_lead : get_or whole (length whole - suc (length cs)) 0 ≡ c
  byte_at_lead =
      let e : length whole - suc (length cs) ≡ length pre + 0 = omega (arith, length-whole) in
      rw (e, get_or-append_right pre (c ∷ cs) 0 0)

  lookback_lem :
      (rounds i : ℕ)
      → is_continuation c ≡ false
      → 1 ≤ i
      → i ≤ suc (length cs)
      → suc (length cs) < i + rounds
      → lookback whole rounds i
        ≡ (if ltb (suc (length cs)) (expected_len c) then length pre else length whole)
  unfolding lookback
  lookback_lem zero i lead low high reach = absurd (omega arith)
  lookback_lem (suc rounds) i lead low high reach = elim (dec_lt (length cs) i) [
    | yes p ↦
        let e : i ≡ suc (length cs) = omega arith in
        rw e (ground (arith, byte_at_lead, length-whole))
    | no p ↦ ground (
      arith,
      byte_at_tail i low (omega arith),
      lookback_lem rounds (i + 1) lead (omega arith) (omega arith) (omega arith),
    )
  ]

  -- With the rounds that the code allows, the last first byte is found.
  found :
      1 ≤ lead_len c
      → suc (length cs) ≤ lead_len c
      → get_complete_utf8_prefix_len whole
        ≡ (if ltb (suc (length cs)) (lead_len c) then length pre else length whole)
  unfolding get_complete_utf8_prefix_len
  found some_len fits =
      let lead = lead_lem c (lead_len c - 1) (omega arith) in
      let expected : expected_len c ≡ lead_len c = omega (arith, lead.1) in
      let small : lead_len c ≤ 4 = ground arith in
      rw (← expected) (
        ground (
          arith,
          length-whole,
          lookback_lem (min 4 (length whole)) 1 lead.0 (omega arith) (omega arith)
              (omega (arith, length-whole)),
        ))

record EndsInChar (s : Bytes) : Type 0 where
  before : Bytes
  lead : ℕ
  conts : Bytes
  splits : s ≡ before ++ (lead ∷ conts)
  whole_char : lead_len lead ≡ suc (length conts)
  are_conts : Continuations conts

ends_in_char : (s : Bytes) → IsUtf8 s → (s ≡ []) ⊎ EndsInChar s
ends_in_char _ nil = inl refl
ends_in_char _ (char c cs rest h k u) = elim (ends_in_char rest u) [
  | inl e ↦ inr (record {
    before = [];
    lead = c;
    conts = cs;
    splits = rw (e, append-nil cs);
    whole_char = h;
    are_conts = k;
  })
  | inr e ↦ inr (record {
    before = c ∷ (cs ++ e.before);
    lead = e.lead;
    conts = e.conts;
    splits = ap (λ l. c ∷ (cs ++ l)) e.splits ∙ ap (◌∷◌ c) (sym (append_assoc cs e.before _));
    whole_char = e.whole_char;
    are_conts = e.are_conts;
  })
]

prefix_len_whole : (s : Bytes) → IsUtf8 s → get_complete_utf8_prefix_len s ≡ length s
prefix_len_whole s u = elim (ends_in_char s u) [
  | inl e ↦ rw e (unfold get_complete_utf8_prefix_len in refl)
  | inr e ↦ rw e.splits (
      ground (
        arith,
        found e.before e.lead e.conts e.are_conts (omega (arith, e.whole_char))
            (omega (arith, e.whole_char)),
        e.whole_char,
      ))
]

-- For whole characters followed by the beginning of one more, or by nothing, the result is the
-- length of the whole characters.
pub get_complete_utf8_prefix_len-boundary :
    (s p : Bytes) → IsUtf8 s → IsPartial p → get_complete_utf8_prefix_len (s ++ p) ≡ length s
get_complete_utf8_prefix_len-boundary s _ u none_yet = rw append-nil (prefix_len_whole s u)
get_complete_utf8_prefix_len-boundary s _ u (begun c cs short conts) =
    ground (arith, found s c cs conts (omega arith) (omega arith))
