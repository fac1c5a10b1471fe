-- ===== src/Engine/Session.antt =====
-- The live session and its switches (src/server/llm/llm_engine.cpp, llm_engine.hpp). llama.cpp's
-- calls and the store of session files are parameters. Where an allocation throws is not modelled.
pub mod InStep
pub mod Switch
pub mod Release
use llama_onprem_server.Prelude.{
  ℕ, Bool, true, false, not, ◌&&◌, ◌||◌, List, [], ◌∷◌, Option, none, some, ltb, ◌==◌,
  if◌then◌else◌, length, take, min, Bytes, bytes_eq,
}
use llama_onprem_server.Engine.KvStore.{KvStore}
use llama_onprem_server.Engine.Parking.{Parking, Stored, store_snapshot}
use llama_onprem_server.Kv.Trim.{LlamaMemory, Sequence, make_kv_trim}
use llama_onprem_server.Park.Memory
use llama_onprem_server.Park.Memory.{SessionMemory}
use llama_onprem_server.Park.Snapshot.{SessionSnapshot}
use llama_onprem_server.Store.Files.{seq_memory_prefix, SeqSaved, SeqLoaded}

-- What the engine was set up with, and the calls that it makes for sequence 0: the size of the
-- state, the state into a buffer of so many bytes (how many were written, and the buffer), a state
-- back into the memory (0 is a failure), and the two calls on session files. The one that loads gets
-- what stands in the file and the size of the buffer for the ids.
pub record Host : Type 1 where
  pub llama : LlamaMemory
  pub files : KvStore
  pub session_memory_bytes : ℕ
  pub hybrid_or_recurrent : Bool
  pub state_seq_get_size : llama.Memory → ℕ
  pub state_seq_get_data : llama.Memory → ℕ → ℕ × Bytes
  pub state_seq_set_data : Bytes → llama.Memory → ℕ × llama.Memory
  pub state_seq_save_file : llama.Memory → List ℕ → SeqSaved
  pub state_seq_load_file : Option Bytes → llama.Memory → ℕ → SeqLoaded × llama.Memory

abbrev is_nil {ℓ} : {A : Type ℓ} → List A → Bool
is_nil [] = true
is_nil (x ∷ xs) = false

-- Ends behind the last token are popped off the back.
clip_message_ends : List ℕ → ℕ → List ℕ
clip_message_ends [] n_tokens = []
clip_message_ends (stop ∷ ends) n_tokens =
    let rest = clip_message_ends ends n_tokens in
    if is_nil rest && ltb n_tokens stop then [] else stop ∷ rest

module _ (H : Host) where
  pub record LlamaEngine : Type 0 where
    pub has_ctx : Bool
    pub live : Sequence H.llama
    pub message_ends : List ℕ
    pub active_session_id : Bytes
    pub parking : Parking H.files

  -- A Boolean result with the engine behind it.
  pub record Did : Type 0 where
    pub result : Bool
    pub engine : LlamaEngine

  abbrev with_tokens : LlamaEngine → List ℕ → List ℕ → LlamaEngine
  with_tokens e tokens ends = record e {
    live = record { memory = e.live.memory; tokens = tokens };
    message_ends = ends;
  }

  pub trim_kv_to : ℕ → LlamaEngine → Did
  unfolding clip_message_ends
  trim_kv_to n_tokens e =
      let n = min n_tokens (length e.live.tokens) in
      let trimmed = make_kv_trim H.llama H.hybrid_or_recurrent e.live n in
      if not e.has_ctx
      then record {
        result = true;
        engine = with_tokens e (take n e.live.tokens) (clip_message_ends e.message_ends n);
      }
      else record {
        result = trimmed.kept;
        engine = record e {
          live = trimmed.sequence;
          message_ends =
              if not trimmed.kept
              then []
              else clip_message_ends e.message_ends (length trimmed.sequence.tokens);
        };
      }

  unfoldable pub capture_live_sequence : LlamaEngine → Option SessionSnapshot
  capture_live_sequence e =
      let size = H.state_seq_get_size e.live.memory in
      let (got, state) = H.state_seq_get_data e.live.memory size in
      if not e.has_ctx || length e.live.tokens == 0
      then none
      else if ltb size seq_memory_prefix
      then none
      else if ltb got seq_memory_prefix || ltb size got
      then none
      else some (record { tokens = e.live.tokens; state = take got state })

  -- `kv_store_.save`, and `trim_session_disk` behind a success.
  pub save_live : Bytes → LlamaEngine → Bool × H.files.Store
  save_live id e =
      let seq = H.state_seq_save_file e.live.memory e.live.tokens in
      let (saved, s) = H.files.save e.has_ctx seq id e.live.tokens e.parking.store in
      (saved, if saved then H.files.trim s else s)

  pub write_live_to_disk : Bytes → LlamaEngine → LlamaEngine
  unfolding save_live
  write_live_to_disk id e = record e {
    parking = record { memory = Memory.erase id e.parking.memory; store = (save_live id e).1 };
  }

  -- The live sequence under an id, in RAM or on disk: true where it is placed.
  pub store_captured : Bytes → Option SessionSnapshot → Parking H.files → Stored H.files
  store_captured id none p = record { stored = false; parking = p }
  store_captured id (some snapshot) p = store_snapshot H.files id snapshot p

  pub park_active_session : LlamaEngine → LlamaEngine
  unfolding store_captured write_live_to_disk
  park_active_session e =
      let id = e.active_session_id in
      let r = store_captured id (capture_live_sequence e) e.parking in
      let e' = record e { parking = r.parking } in
      if length id == 0 || not e.has_ctx || length e.live.tokens == 0
      then e
      else if H.session_memory_bytes == 0
      then write_live_to_disk id e
      else if r.stored
      then e'
      else write_live_to_disk id e'

  -- The end of `unpark_session` for a snapshot from RAM, with what the call of llama.cpp returned.
  pub restored : Bytes → SessionSnapshot → LlamaEngine → ℕ × H.llama.Memory → Did
  restored id snapshot e (loaded, memory) =
      if loaded == 0
      then record {
        result = false;
        engine = record e {
          live = record { memory = memory; tokens = [] };
          message_ends = [];
          parking = record e.parking { memory = Memory.insert id snapshot e.parking.memory };
        };
      }
      else record {
        result = true;
        engine = record e {
          live = record { memory = memory; tokens = snapshot.tokens };
          message_ends = [];
        };
      }

  pub unpark_snapshot : Bytes → SessionSnapshot → LlamaEngine → Did
  unfolding trim_kv_to restored
  unpark_snapshot id snapshot e =
      let e' = (trim_kv_to 0 e).engine in
      let set = H.state_seq_set_data snapshot.state e'.live.memory in
      restored id snapshot e' (if e.has_ctx then set else (0, e'.live.memory))

  -- The end for a file, with what `load` returned.
  pub loaded_file : LlamaEngine → Option (List ℕ) → H.llama.Memory → Did
  loaded_file e none memory = record {
    result = false;
    engine = record e { live = record { memory = memory; tokens = [] }; message_ends = [] };
  }
  loaded_file e (some tokens) memory = record {
    result = true;
    engine = record e { live = record { memory = memory; tokens = tokens }; message_ends = [] };
  }

  -- The memory behind `load`: llama.cpp is called if the header has a number of tokens.
  pub memory_after : (ℕ → SeqLoaded × H.llama.Memory) → Option ℕ → H.llama.Memory → H.llama.Memory
  memory_after seq none m = m
  memory_after seq (some count) m = if count == 0 then m else (seq count).1

  -- `kv_store_.load`: the tokens if it succeeds, and the memory.
  pub kv_load : Bool → Bytes → H.files.Store → H.llama.Memory → Option (List ℕ) × H.llama.Memory
  unfolding memory_after
  kv_load has_ctx id s m =
      let seq = H.state_seq_load_file (H.files.content id s) m in
      let r = H.files.load has_ctx (λ count. (seq count).0) id s in
      let behind = memory_after seq (H.files.token_count id s) m in
      (if r.loaded then some r.tokens else none, if has_ctx then behind else m)

  pub unpark_file : Bytes → LlamaEngine → Did
  unfolding trim_kv_to loaded_file kv_load
  unpark_file id e =
      let e' = (trim_kv_to 0 e).engine in
      let loaded = kv_load e.has_ctx id e'.parking.store e'.live.memory in
      loaded_file e' loaded.0 loaded.1

  abbrev unpark_missing : Bytes → Option ℕ → LlamaEngine → Did
  unpark_missing id none e = record { result = false; engine = e }
  unpark_missing id (some count) e = unpark_file id e

  pub unpark_taken : Bytes → Option SessionSnapshot → LlamaEngine → Did
  unfolding unpark_snapshot unpark_file
  unpark_taken id (some snapshot) e = unpark_snapshot id snapshot e
  unpark_taken id none e = unpark_missing id (H.files.token_count id e.parking.store) e

  pub unpark_session : Bytes → LlamaEngine → Did
  unfolding unpark_taken
  unpark_session id e =
      let taken = Memory.take id e.parking.memory in
      unpark_taken id taken.snapshot
        (record e { parking = record e.parking { memory = taken.memory } })

  unfoldable pub activate_session : Bytes → LlamaEngine → LlamaEngine
  unfolding park_active_session unpark_session trim_kv_to
  activate_session id e =
      let parked = park_active_session e in
      let r = unpark_session id (record (with_tokens parked [] []) { active_session_id = id }) in
      if bytes_eq id e.active_session_id
      then e
      else if r.result
      then r.engine
      else (trim_kv_to 0 r.engine).engine

  unfoldable pub release_session : Bytes → LlamaEngine → LlamaEngine
  unfolding trim_kv_to
  release_session id e =
      let e' = record e {
        parking = record {
          memory = Memory.erase id e.parking.memory;
          store = H.files.remove id e.parking.store;
        };
      } in
      if bytes_eq e.active_session_id id then (trim_kv_to 0 e').engine else e'

  unfoldable pub reset : LlamaEngine → LlamaEngine
  unfolding trim_kv_to
  reset e = (trim_kv_to 0 e).engine
