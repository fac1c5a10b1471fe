-- ===== src/Store/Header/RoundTrip.antt =====
-- Lemmas about the header of a session file and `read_token_count`
-- (src/server/llm/session_kv_store.cpp).
use llama_onprem_server.Prelude.{
  ℕ, ◌+◌, ◌*◌, ◌/◌, ◌%◌, ◌^◌, ◌≤◌, ◌<◌, ◌≡◌, refl, arith, List, [], ◌∷◌, ◌++◌, some, length,
  length-append, Bytes,
}
use llama_onprem_server.Store.Header.{
  max_tokens, all_bytes, checked_count, read_header, file_content,
}

-- The four bytes of a `uint32_t` add up to it.
u32_value :
    (n : ℕ)
    → n < 2 ^ 32
    → n % 256 + n / 256 % 256 * 256 + n / 65536 % 256 * 65536 + n / 16777216 % 256 * 16777216 ≡ n
u32_value n h = omega arith

length-all_bytes : (tokens : List ℕ) → length (all_bytes tokens) ≡ length tokens * 4
unfolding all_bytes
length-all_bytes [] = refl
length-all_bytes (t ∷ tokens) = omega (arith, length-all_bytes tokens)

module _ (seq_magic seq_version : ℕ) where
  -- With at most `max_tokens` tokens, the count that is read back from the written content is
  -- their number, whatever the state's body is.
  pub read_header-file_content :
      (tokens : List ℕ) (body : Bytes)
      → seq_magic < 2 ^ 32
      → seq_version < 2 ^ 32
      → length tokens ≤ max_tokens
      → read_header seq_magic seq_version (file_content seq_magic seq_version tokens body)
        ≡ some (length tokens)
  unfolding read_header file_content
  read_header-file_content tokens body m v h =
      let small : length tokens % 2 ^ 32 ≡ length tokens = omega arith in
      let size : 12 + length tokens * 4 ≤ 12 + length (all_bytes tokens ++ body) =
        omega (arith, length-append (all_bytes tokens) body, length-all_bytes tokens) in
      rw
        (
          small,
          u32_value seq_magic m,
          u32_value seq_version v,
          u32_value (length tokens) (omega arith),
        )
        (unfold checked_count in ground (arith, size))
