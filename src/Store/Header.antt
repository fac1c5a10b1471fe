-- ===== src/Store/Header.antt =====
-- The header of a session file (src/server/llm/session_kv_store.cpp): three little-endian
-- `uint32_t`s, then the token ids. llama.cpp's two constants are parameters.
pub mod RoundTrip
use llama_onprem_server.Prelude.{
  ℕ, zero, suc, ◌+◌, ◌*◌, ◌/◌, ◌%◌, ◌^◌, Bool, true, false, not, ◌||◌, List, [], ◌∷◌, ◌++◌, Option,
  none, some, ltb, ◌==◌, if◌then◌else◌, length, Bytes,
}
use llama_onprem_server.Prelude.Options.{◌>>=◌}
use llama_onprem_server.Store.Disk.{File}

abbrev pub max_tokens : ℕ
max_tokens = 1_048_576

-- The bytes of a `uint32_t` in memory, on a little-endian machine; an `int32_t` token is its bit
-- pattern.
abbrev pub u32_bytes : ℕ → Bytes
u32_bytes n = n % 256 ∷ n / 256 % 256 ∷ n / 65536 % 256 ∷ n / 16777216 % 256 ∷ []

-- A value that was read, and the bytes behind it.
pub record Read : Type 0 where
  pub value : ℕ
  pub rest : Bytes

-- `read_pod` of a `uint32_t`.
abbrev pub read_u32 : Bytes → Option Read
read_u32 (a ∷ b ∷ c ∷ d ∷ rest) =
    some (record { value = a + b * 256 + c * 65536 + d * 16777216; rest = rest })
read_u32 _ = none

pub all_bytes : List ℕ → Bytes
all_bytes [] = []
all_bytes (token ∷ tokens) = u32_bytes token ++ all_bytes tokens

module _ (seq_magic seq_version : ℕ) where
  -- The tests behind the three reads.
  pub checked_count : ℕ → ℕ → ℕ → ℕ → Option ℕ
  checked_count magic version n_tokens file_size =
      if not (magic == seq_magic) || not (version == seq_version) || ltb max_tokens n_tokens
      then none
      else if ltb file_size (4 * 3 + n_tokens * 4)
      then none
      else some n_tokens

  -- What is read from the content of a file that opens.
  pub read_header : Bytes → Option ℕ
  unfolding checked_count
  read_header content = do
    magic ← read_u32 content
    version ← read_u32 magic.rest
    n_tokens ← read_u32 version.rest
    checked_count magic.value version.value n_tokens.value (length content)

  -- A missing file does not open, and neither reads nor sizes what is no regular file.
  unfoldable pub read_token_count : Option File → Option ℕ
  unfolding read_header
  read_token_count none = none
  read_token_count (some file) = if file.regular then read_header file.content else none

  -- The content that `save_captured` writes: the header, the tokens, and the state's body.
  unfoldable pub file_content : List ℕ → Bytes → Bytes
  unfolding all_bytes
  file_content tokens body =
      u32_bytes seq_magic
      ++ (u32_bytes seq_version
          ++ (u32_bytes (length tokens % 2 ^ 32) ++ (all_bytes tokens ++ body)))
