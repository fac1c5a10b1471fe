-- ===== src/Park/Memory.antt =====
-- `SessionMemory` (src/server/llm/session_park.hpp, session_park.cpp): the sessions parked in RAM,
-- oldest first.
pub mod Lookup
pub mod Accounts
pub mod Spill
pub mod Limit
use llama_onprem_server.Prelude.{
  ℕ, ◌+◌, ◌-◌, Bool, true, false, List, [], ◌∷◌, ◌++◌, map, Option, none, some, ltb, leb,
  if◌then◌else◌, length, u64_max, Bytes, bytes_eq,
}
use llama_onprem_server.Park.Admit.{ParkedBytes, MemoryAdmit, plan_memory_admit}
use llama_onprem_server.Park.Budget.{sub_or_zero}
use llama_onprem_server.Park.Snapshot.{SessionSnapshot, parked_session_bytes}

pub record Entry : Type 0 where
  pub id : Bytes
  pub snapshot : SessionSnapshot
  pub bytes : ℕ

pub record SessionMemory : Type 0 where
  pub limit_bytes : ℕ
  pub used_bytes : ℕ
  pub entries : List Entry

-- `SessionMemory(limit_bytes)`.
abbrev pub empty_memory : ℕ → SessionMemory
empty_memory limit_bytes = record { limit_bytes = limit_bytes; used_bytes = 0; entries = [] }

unfoldable pub find_entry : Bytes → List Entry → Option Entry
find_entry id [] = none
find_entry id (entry ∷ entries) = if bytes_eq entry.id id then some entry else find_entry id entries

abbrev snapshot_of : Option Entry → Option SessionSnapshot
snapshot_of none = none
snapshot_of (some entry) = some entry.snapshot

unfoldable pub find : Bytes → SessionMemory → Option SessionSnapshot
unfolding find_entry
find id m = snapshot_of (find_entry id m.entries)

unfoldable pub contains : Bytes → SessionMemory → Bool
unfolding find
contains id m = elim (find id m) [ none ↦ false | some snapshot ↦ true ]

unfoldable pub token_count : Bytes → SessionMemory → Option ℕ
unfolding find
token_count id m = elim (find id m) [ none ↦ none | some snapshot ↦ some (length snapshot.tokens) ]

-- `entries_.erase(it)`, for the first entry under the id.
pub erase_entry : Bytes → List Entry → List Entry
erase_entry id [] = []
erase_entry id (entry ∷ entries) =
    if bytes_eq entry.id id then entries else entry ∷ erase_entry id entries

pub record Taken : Type 0 where
  pub snapshot : Option SessionSnapshot
  pub memory : SessionMemory

-- `take`, with the entry that `find_if` stopped at.
pub take_found : Option Entry → Bytes → SessionMemory → Taken
unfolding erase_entry sub_or_zero
take_found none id m = record { snapshot = none; memory = m }
take_found (some entry) id m = record {
  snapshot = some entry.snapshot;
  memory = record m {
    used_bytes = sub_or_zero m.used_bytes entry.bytes;
    entries = erase_entry id m.entries;
  };
}

unfoldable pub take : Bytes → SessionMemory → Taken
unfolding take_found find_entry
take id m = take_found (find_entry id m.entries) id m

unfoldable pub erase : Bytes → SessionMemory → SessionMemory
erase id m = (take id m).memory

-- `insert`, behind its call of `erase`.
unfoldable pub append_entry : Bytes → SessionSnapshot → SessionMemory → SessionMemory
append_entry id snapshot m =
    let bytes = parked_session_bytes snapshot in
    record m {
      used_bytes = if ltb (u64_max - bytes) m.used_bytes then u64_max else m.used_bytes + bytes;
      entries = m.entries ++ record { id = id; snapshot = snapshot; bytes = bytes } ∷ [];
    }

unfoldable pub insert : Bytes → SessionSnapshot → SessionMemory → SessionMemory
insert id snapshot m = append_entry id snapshot (erase id m)

-- The loop of `plan` that leaves out the session that is replaced.
pub held_without : Bytes → List Entry → List ParkedBytes
held_without replacing [] = []
held_without replacing (entry ∷ entries) =
    let rest = held_without replacing entries in
    if bytes_eq entry.id replacing
    then rest
    else record { id = entry.id; bytes = entry.bytes } ∷ rest

unfoldable pub plan : ℕ → Bytes → SessionMemory → MemoryAdmit
unfolding held_without
plan incoming_bytes replacing m =
    plan_memory_admit (held_without replacing m.entries) incoming_bytes m.limit_bytes

unfoldable pub ids_oldest_first : SessionMemory → List Bytes
ids_oldest_first m = map (λ entry. entry.id) m.entries
