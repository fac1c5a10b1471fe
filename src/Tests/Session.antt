-- ===== src/Tests/Session.antt =====
-- Tests of Engine/Session: a context that counts its positions, with one session in RAM.
use llama_onprem_server.Prelude.{
  ℕ, ◌≡◌, inl, inr, refl, arith, true, false, [], ◌∷◌, some, replicate, length-replicate, Bytes,
  codes, bytes_eq, Bool-cases,
}
use llama_onprem_server.Engine.Clone.Sound.{SameLive, clone_session-IsSound}
use llama_onprem_server.Engine.Clone.{clone_session}
use llama_onprem_server.Engine.Parking.Contents.{Everywhere}
use llama_onprem_server.Engine.Session.InStep.{Restorable, Faithful, IsSound}
use llama_onprem_server.Engine.Session.Release.{IsReleased, release_session-IsReleased}
use llama_onprem_server.Engine.Session.Switch.{activate_session-IsSound}
use llama_onprem_server.Engine.Session.{
  Host, LlamaEngine, activate_session, release_session, capture_live_sequence,
}
use llama_onprem_server.Engine.Parking.{store_snapshot}
use llama_onprem_server.Park.Admit.{plan_memory_admit}
use llama_onprem_server.Park.Budget.{drop_oldest, saturating_total}
use llama_onprem_server.Kv.Trim.{kv_tail_matches}
use llama_onprem_server.Park.Memory
use llama_onprem_server.Park.Memory.{SessionMemory}
use llama_onprem_server.Park.Memory.Limit.{IsWithin}
use llama_onprem_server.Park.Snapshot.{SessionSnapshot, parked_session_bytes}
use llama_onprem_server.Store.Disk.{lookup, put, unlink}
use llama_onprem_server.Store.Header.{file_content, read_token_count}
use llama_onprem_server.Store.Names.{valid_id}
use llama_onprem_server.Store.Files.{
  SeqLoaded, save_captured, write_content, replace_file, renamed, written, token_count, load,
  remove, remove_file,
}
use llama_onprem_server.Tests.Engine.{kv, empty_directory}
use llama_onprem_server.Tests.Kv.{counting, counting-ClearsAll}

-- The state of so many positions is that number and seven more bytes.
first_byte : Bytes → ℕ
first_byte [] = 0
first_byte (b ∷ bs) = b

abbrev loaded_ids : ℕ → SeqLoaded
loaded_ids count = record { bytes = 1; loaded_count = count; ids = replicate count 0 }

abbrev host : Host
host = record {
  llama = counting;
  files = kv;
  session_memory_bytes = 30;
  hybrid_or_recurrent = false;
  state_seq_get_size = λ cells. 8;
  state_seq_get_data = λ cells size. (8, cells ∷ replicate 7 0);
  state_seq_set_data = λ state cells. (8, first_byte state);
  state_seq_save_file = λ cells tokens. record { wrote = 1; left = some (codes "state") };
  state_seq_load_file = λ content cells count. (loaded_ids count, count);
}

cells_match : (n : ℕ) → kv_tail_matches n (counting.seq_pos_max n) ≡ true
unfolding kv_tail_matches
cells_match n = ground arith

host-Faithful : Faithful host
unfolding first_byte
host-Faithful = record {
  clears_all = counting-ClearsAll;
  restores = λ cells n h other. inr (inr h);
  loads = λ content cells count empty h. cells_match count;
  fills = λ content cells count. length-replicate count 0;
}

-- Two positions and two tokens.
abbrev two : SessionSnapshot
two = record { tokens = 5 ∷ 6 ∷ []; state = 2 ∷ replicate 7 0 }

abbrev in_ram : SessionMemory
in_ram = record {
  limit_bytes = 60;
  used_bytes = 16;
  entries = record { id = codes "a"; snapshot = two; bytes = 16 } ∷ [];
}

in_ram-IsWithin : IsWithin in_ram
unfolding Memory.find_entry parked_session_bytes
in_ram-IsWithin = record {
  consistent = record { distinct = (refl, tt); priced = (refl, tt); counted = refl };
  within = omega arith;
  fits = omega arith;
}

in_ram-Everywhere : Everywhere (Restorable host) in_ram
unfolding Memory.find Memory.find_entry first_byte kv_tail_matches
in_ram-Everywhere j = elim (Bool-cases (bytes_eq (codes "a") j)) [
  | inl same ↦ rw same (λ cells. inr (inr refl))
  | inr differs ↦ rw differs tt
]

abbrev engine : LlamaEngine host
engine = record {
  has_ctx = true;
  live = record { memory = 3; tokens = 7 ∷ 8 ∷ 9 ∷ [] };
  message_ends = 1 ∷ 3 ∷ [];
  active_session_id = codes "z";
  parking = record { memory = in_ram; store = empty_directory };
}

engine-IsSound : IsSound host engine
engine-IsSound = record {
  parked = record { context = refl; within = in_ram-IsWithin; restorable = in_ram-Everywhere };
  in_step = cells_match 3;
}

activate_session-IsSound_example : IsSound host (activate_session host (codes "a") engine)
activate_session-IsSound_example =
    activate_session-IsSound host host-Faithful (codes "a") engine engine-IsSound

-- The switch takes the two tokens out of RAM and parks the three there.
activate_runs : (activate_session host (codes "a") engine).live.tokens ≡ 5 ∷ 6 ∷ []
unfolding activate_session bytes_eq first_byte Memory.take capture_live_sequence store_snapshot
    Memory.plan plan_memory_admit parked_session_bytes drop_oldest saturating_total Memory.insert
    Memory.append_entry Memory.erase
activate_runs = refl

release_session-IsReleased_example :
    IsSound host (release_session host (codes "z") engine)
    × IsReleased host (codes "z") engine (release_session host (codes "z") engine)
release_session-IsReleased_example =
    release_session-IsReleased host host-Faithful (codes "z") engine engine-IsSound

clone_session-IsSound_example :
    IsSound host (clone_session host (codes "z") (codes "y") engine)
    × SameLive host engine (clone_session host (codes "z") (codes "y") engine)
clone_session-IsSound_example =
    clone_session-IsSound host host-Faithful (codes "z") (codes "y") engine engine-IsSound

-- A session of two tokens comes back from its file.
abbrev filed : LlamaEngine host
filed = record engine {
  parking = record {
    memory = in_ram;
    store = (kv.save_captured (codes "b") two empty_directory).1;
  };
}

file_runs : (activate_session host (codes "b") filed).live.tokens ≡ 0 ∷ 0 ∷ []
unfolding activate_session bytes_eq first_byte Memory.take capture_live_sequence store_snapshot
    Memory.plan plan_memory_admit parked_session_bytes drop_oldest saturating_total Memory.insert
    Memory.append_entry Memory.erase save_captured valid_id write_content replace_file renamed
    written file_content lookup put unlink token_count read_token_count load remove remove_file
file_runs = refl
