-- ===== src/Engine/Clone.antt =====
-- `clone_session` and `session_token_count` of the engine (src/server/llm/llm_engine.cpp).
pub mod Sound
use llama_onprem_server.Prelude.{
  ℕ, ◌-◌, ◌^◌, not, ◌||◌, Option, none, some, ◌==◌, if◌then◌else◌, length, min, Bytes, bytes_eq,
}
use llama_onprem_server.Engine.Parking.{Parking, store_snapshot}
use llama_onprem_server.Engine.Session.{
  Host, LlamaEngine, capture_live_sequence, store_captured, save_live,
}
use llama_onprem_server.Park.Memory
use llama_onprem_server.Park.Snapshot.{SessionSnapshot}

module _ (H : Host) where
  -- The live session: a capture goes to RAM or disk, and where that fails the live sequence is saved.
  pub clone_live : Bytes → LlamaEngine H → LlamaEngine H
  clone_live to e =
      let r = store_captured H to (capture_live_sequence H e) e.parking in
      let e' = if H.session_memory_bytes == 0 then e else record e { parking = r.parking } in
      let direct = record e' { parking = record e'.parking { store = (save_live H to e').1 } } in
      if not e.has_ctx || length e.live.tokens == 0
      then e
      else if not (H.session_memory_bytes == 0)
      then if r.stored then e' else direct
      else direct

  -- A session that is not live, as `find` found it in RAM, or its file.
  pub clone_parked : Bytes → Bytes → Option SessionSnapshot → Parking H.files → Parking H.files
  clone_parked from to (some snapshot) p = (store_snapshot H.files to snapshot p).parking
  clone_parked from to none p =
      let (copied, s) = H.files.copy from to p.store in
      record p { store = if copied then H.files.trim s else s }

  unfoldable pub clone_session : Bytes → Bytes → LlamaEngine H → LlamaEngine H
  unfolding clone_live clone_parked
  clone_session from to e =
      if length from == 0 || length to == 0 || bytes_eq from to
      then e
      else if bytes_eq from e.active_session_id
      then clone_live to e
      else record e { parking = clone_parked from to (Memory.find from e.parking.memory) e.parking }

  abbrev value_or_zero : Option ℕ → ℕ
  value_or_zero none = 0
  value_or_zero (some n) = n

  abbrev parked_count : Bytes → Option ℕ → LlamaEngine H → ℕ
  parked_count id none e = value_or_zero (H.files.token_count id e.parking.store)
  parked_count id (some n) e = n

  -- `std::numeric_limits<int>::max()` caps the result.
  unfoldable pub session_token_count : Bytes → LlamaEngine H → ℕ
  session_token_count id e =
      let count =
        if bytes_eq id e.active_session_id
        then length e.live.tokens
        else parked_count id (Memory.token_count id e.parking.memory) e in
      if length id == 0 then 0 else min count (2 ^ 31 - 1)
