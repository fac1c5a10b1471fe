-- ===== src/Engine/Parking.antt =====
-- Parking of sessions in RAM and on disk (src/server/llm/llm_engine.cpp): `store_snapshot` with its
-- spills, the loop of `flush_parked_sessions`, and the parts of `release_session` and
-- `clone_session` that concern parked sessions.
pub mod Bounds
pub mod Track
pub mod Keeps
pub mod Result
pub mod Contents
use llama_onprem_server.Prelude.{
  Bool, true, false, ◌||◌, List, [], ◌∷◌, Option, none, some, ltb, ◌==◌, if◌then◌else◌, length,
  Bytes,
}
use llama_onprem_server.Engine.KvStore.{KvStore}
use llama_onprem_server.Park.Memory.{SessionMemory, take, erase, insert, plan, ids_oldest_first}
use llama_onprem_server.Park.Snapshot.{SessionSnapshot, parked_session_bytes}
use llama_onprem_server.Store.Files.{seq_memory_prefix}

module _ (K : KvStore) where
  -- The sessions that are not active: `memory_` and `kv_store_` of the engine.
  pub record Parking : Type 0 where
    pub memory : SessionMemory
    pub store : K.Store

  -- A Boolean result with the state behind it.
  pub record Stored : Type 0 where
    pub stored : Bool
    pub parking : Parking

  -- `save_captured`, and `trim_session_disk` behind a success.
  pub save_and_trim : Bytes → SessionSnapshot → K.Store → Bool × K.Store
  save_and_trim id snapshot s =
      let (saved, s') = K.save_captured id snapshot s in (saved, if saved then K.trim s' else s')

  -- The block that `store_snapshot` has twice: the incoming session goes to disk.
  pub save_incoming : Bytes → SessionSnapshot → Parking → Stored
  unfolding save_and_trim
  save_incoming id snapshot p =
      let (saved, s) = save_and_trim id snapshot p.store in
      record { stored = saved; parking = record { memory = erase id p.memory; store = s } }

  -- What `take` returned goes to disk, or back into RAM.
  pub save_taken : Bytes → Option SessionSnapshot → SessionMemory → K.Store → Stored
  unfolding save_and_trim
  save_taken id none m s = record { stored = true; parking = record { memory = m; store = s } }
  save_taken id (some snapshot) m s =
      let (saved, s') = save_and_trim id snapshot s in
      record {
        stored = saved;
        parking = record { memory = if saved then m else insert id snapshot m; store = s' };
      }

  -- One round of the spill loop. `stored` is false where the spill failed.
  unfoldable pub spill_session : Bytes → Parking → Stored
  unfolding save_taken
  spill_session id p =
      let taken = take id p.memory in save_taken id taken.snapshot taken.memory p.store

  -- The loop of `store_snapshot`: it runs to its end, or the function returns from it.
  pub data Spilling : Type 0 where
    spilled : Parking → Spilling
    returned : Stored → Spilling

  pub spill_loop : Bytes → SessionSnapshot → List Bytes → Parking → Spilling
  unfolding spill_session save_incoming
  spill_loop id snapshot [] p = spilled p
  spill_loop id snapshot (spill_id ∷ spill) p =
      let r = spill_session spill_id p in
      let rest = spill_loop id snapshot spill r.parking in
      if r.stored then rest else returned (save_incoming id snapshot r.parking)

  -- Behind the loop the incoming session goes into RAM, and its old file is removed.
  pub admit_spilled : Bytes → SessionSnapshot → Spilling → Stored
  admit_spilled id snapshot (returned r) = r
  admit_spilled id snapshot (spilled p) = record {
    stored = true;
    parking = record { memory = insert id snapshot p.memory; store = K.remove id p.store };
  }

  unfoldable pub store_snapshot : Bytes → SessionSnapshot → Parking → Stored
  unfolding spill_loop admit_spilled save_incoming
  store_snapshot id snapshot p =
      let admit = plan (parked_session_bytes snapshot) id p.memory in
      if length snapshot.tokens == 0 || ltb (length snapshot.state) seq_memory_prefix
      then record { stored = false; parking = p }
      else if admit.keep_incoming
      then admit_spilled id snapshot (spill_loop id snapshot admit.spill p)
      else save_incoming id snapshot p

  -- `flush_parked_sessions`.
  pub flush_loop : List Bytes → Parking → Parking
  unfolding spill_session
  flush_loop [] p = p
  flush_loop (id ∷ ids) p = flush_loop ids (spill_session id p).parking

  pub flush_parked_sessions : Parking → Parking
  unfolding flush_loop
  flush_parked_sessions p =
      let flushed = flush_loop (ids_oldest_first p.memory) p in
      record flushed { store = K.trim flushed.store }
