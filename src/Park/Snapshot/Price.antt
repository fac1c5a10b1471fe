-- ===== src/Park/Snapshot/Price.antt =====
-- Lemmas about `parked_session_bytes` (src/server/llm/session_park.cpp).
use llama_onprem_server.Prelude.{◌+◌, ◌*◌, ◌≤◌, min, ◌≡◌, arith, length, u64_max}
use llama_onprem_server.Park.Snapshot.{SessionSnapshot, parked_session_bytes}

-- The price is the state's bytes and four for each token, or the largest `uint64_t` where that
-- sum is larger.
pub parked_session_bytes-eq-min :
    (s : SessionSnapshot)
    → parked_session_bytes s ≡ min u64_max (length s.state + 4 * length s.tokens)
unfolding parked_session_bytes
parked_session_bytes-eq-min s = ground arith

pub parked_session_bytes-le : (s : SessionSnapshot) → parked_session_bytes s ≤ u64_max
parked_session_bytes-le s = omega (arith, parked_session_bytes-eq-min s)
