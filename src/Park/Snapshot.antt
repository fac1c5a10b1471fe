-- ===== src/Park/Snapshot.antt =====
-- `SessionSnapshot` and its price (src/server/llm/session_park.cpp).
pub mod Price
use llama_onprem_server.Prelude.{
  ℕ, ◌+◌, ◌-◌, ◌*◌, ◌/◌, List, ltb, if◌then◌else◌, length, u64_max, Bytes,
}

-- One parked sequence: token ids by their bit patterns, and llama.cpp's state bytes.
pub record SessionSnapshot : Type 0 where
  pub tokens : List ℕ
  pub state : Bytes

abbrev pub sizeof_int32 : ℕ
sizeof_int32 = 4

-- Saturates at the largest `uint64_t`.
unfoldable pub parked_session_bytes : SessionSnapshot → ℕ
parked_session_bytes snapshot =
    let state_bytes = length snapshot.state in
    let token_bytes = length snapshot.tokens * sizeof_int32 in
    if ltb (u64_max / sizeof_int32) (length snapshot.tokens)
    then u64_max
    else if ltb (u64_max - token_bytes) state_bytes
    then u64_max
    else state_bytes + token_bytes
