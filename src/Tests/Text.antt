-- ===== src/Tests/Text.antt =====
-- Tests of Text: cutting UTF-8.
use llama_onprem_server.Prelude.{true, ℕ, List, [], ◌∷◌, ◌++◌, ◌≡◌, refl, arith, length, Bytes}
use llama_onprem_server.Text.Utf8.Lead.{IsUtf8, nil, char, begun}
use llama_onprem_server.Text.Utf8.Prefix.{get_complete_utf8_prefix_len-boundary}
use llama_onprem_server.Text.Utf8.Stream.{AllUtf8, concat, stream-AllUtf8}
use llama_onprem_server.Text.Utf8.{
  get_complete_utf8_prefix_len, lookback, empty, reset, is_continuation, expected_len, stream,
}

-- An "a", then an "é", cut inside the "é".
abbrev pieces : List Bytes
pieces = (97 ∷ 195 ∷ []) ∷ (169 ∷ []) ∷ []

stream_runs : stream [] pieces ≡ (97 ∷ []) ∷ (195 ∷ 169 ∷ []) ∷ [] ∷ []
unfolding stream get_complete_utf8_prefix_len lookback is_continuation expected_len
stream_runs = refl

text-IsUtf8 : IsUtf8 (concat pieces)
text-IsUtf8 = char 97 [] (195 ∷ 169 ∷ []) refl tt (char 195 (169 ∷ []) [] refl (omega arith) nil)

stream-AllUtf8_example : AllUtf8 (stream [] pieces) × (concat (stream [] pieces) ≡ concat pieces)
stream-AllUtf8_example = stream-AllUtf8 pieces text-IsUtf8

boundary_example : get_complete_utf8_prefix_len ((97 ∷ []) ++ (195 ∷ [])) ≡ length {A = ℕ} (97 ∷ [])
boundary_example =
    get_complete_utf8_prefix_len-boundary (97 ∷ []) (195 ∷ []) (char 97 [] [] refl tt nil)
      (begun 195 [] (omega arith) tt)

reset_runs : empty (reset (97 ∷ [])) ≡ true
unfolding empty reset
reset_runs = refl
