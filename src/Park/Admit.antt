-- ===== src/Park/Admit.antt =====
-- `plan_memory_admit` (src/server/llm/session_park.cpp): which parked sessions make room for one
-- more snapshot in RAM.
pub mod Plan
use llama_onprem_server.Prelude.{
  ℕ, ◌-◌, Bool, true, false, ◌||◌, List, [], ltb, leb, ◌==◌, if◌then◌else◌, Bytes,
}
use llama_onprem_server.Park.Budget.{Dropped, saturating_total, drop_oldest}

pub record ParkedBytes : Type 0 where
  pub id : Bytes
  pub bytes : ℕ

pub record MemoryAdmit : Type 0 where
  pub keep_incoming : Bool
  pub spill : List Bytes

abbrev pub parked_id : ParkedBytes → Bytes
parked_id p = p.id

abbrev pub parked_bytes : ParkedBytes → ℕ
parked_bytes p = p.bytes

unfoldable pub plan_memory_admit : List ParkedBytes → ℕ → ℕ → MemoryAdmit
plan_memory_admit oldest_first incoming_bytes limit_bytes =
    let used = saturating_total parked_id parked_bytes oldest_first 0 in
    let room = limit_bytes - incoming_bytes in
    let spilled = drop_oldest parked_id parked_bytes room oldest_first used in
    if limit_bytes == 0 || incoming_bytes == 0 || ltb limit_bytes incoming_bytes
    then record { keep_incoming = false; spill = [] }
    else record { keep_incoming = leb spilled.left room; spill = spilled.names }
