-- ===== src/Tests/Engine.antt =====
-- Tests of Engine: two sessions in RAM, a third that does not fit beside them, and the directory.
use llama_onprem_server.Prelude.{
  ℕ, ◌≡◌, ◌≢◌, refl, arith, true, [], ◌∷◌, codes, bytes_eq, bytes_eq_iff, pos,
}
use llama_onprem_server.Engine.KvStore.{KvStore, Directory, World, session_files, trim_session_disk}
use llama_onprem_server.Engine.Parking.{
  Parking, store_snapshot, spill_session, flush_parked_sessions,
}
use llama_onprem_server.Engine.Parking.Bounds.{store_snapshot-IsWithin}
use llama_onprem_server.Engine.Parking.Keeps.{store_snapshot-After, flush_parked_sessions-After}
use llama_onprem_server.Engine.Parking.Result.{
  Honest, SavesAlong, store_snapshot-Honest, flush_parked_sessions-empties,
}
use llama_onprem_server.Engine.Parking.Track.{After}
use llama_onprem_server.Park.Memory
use llama_onprem_server.Park.Memory.{SessionMemory, find}
use llama_onprem_server.Park.Memory.Limit.{IsWithin}
use llama_onprem_server.Park.Snapshot.{SessionSnapshot, parked_session_bytes}
use llama_onprem_server.Park.Budget.{saturating_total}
use llama_onprem_server.Park.DiskGc.{plan_session_disk_gc}
use llama_onprem_server.Store.Disk.{lookup, put, unlink}
use llama_onprem_server.Store.Expiry.{trim_expired}
use llama_onprem_server.Store.Files.{
  complete, save_captured, write_content, replace_file, renamed, written, remove_file,
}
use llama_onprem_server.Store.Header.{file_content}
use llama_onprem_server.Store.Names.{valid_id, id_of_name}

abbrev pub snapshot : ℕ → SessionSnapshot
snapshot token = record { tokens = token ∷ []; state = 1 ∷ 2 ∷ 3 ∷ 4 ∷ 5 ∷ 6 ∷ 7 ∷ 8 ∷ 90 ∷ [] }

abbrev held : SessionMemory
held = record {
  limit_bytes = 30;
  used_bytes = 26;
  entries =
      record { id = codes "a"; snapshot = snapshot 1; bytes = 13 }
      ∷ record { id = codes "b"; snapshot = snapshot 2; bytes = 13 }
      ∷ [];
}

held-IsWithin : IsWithin held
unfolding Memory.find_entry bytes_eq parked_session_bytes
held-IsWithin = record {
  consistent = record {
    distinct = (refl, (refl, tt));
    priced = (refl, (refl, tt));
    counted = refl;
  };
  within = omega arith;
  fits = omega arith;
}

-- Every call succeeds.
abbrev calm : ℕ → World
calm n = record {
  outside = record { wrote = complete; renames = true; removes = true; now = 1000 };
  opens = true;
  visible = 100;
}

abbrev pub kv : KvStore
kv = session_files 1_734_833_009 2 calm (pos 7) 1_000_000 (omega arith) (omega arith)

abbrev pub empty_directory : Directory
empty_directory = record { files = record { opened = true; disk = [] }; calls = 0 }

abbrev parking : Parking kv
parking = record { memory = held; store = empty_directory }

c_is_not_b : codes "c" ≢ codes "b"
unfolding bytes_eq
c_is_not_b e = ground (arith, (bytes_eq_iff (codes "c") (codes "b")).1 e)

store_snapshot-IsWithin_example :
    IsWithin (store_snapshot kv (codes "c") (snapshot 3) parking).parking.memory
store_snapshot-IsWithin_example =
    store_snapshot-IsWithin kv (codes "c") (snapshot 3) parking held-IsWithin

store_snapshot-After_example :
    After kv
      (codes "b")
      (find (codes "b") held)
      parking
      (store_snapshot kv (codes "c") (snapshot 3) parking).parking
store_snapshot-After_example =
    store_snapshot-After kv (codes "b") (codes "c") (snapshot 3) parking c_is_not_b held-IsWithin

flush_parked_sessions-After_example :
    After kv (codes "a") (find (codes "a") held) parking (flush_parked_sessions kv parking)
flush_parked_sessions-After_example =
    flush_parked_sessions-After kv (codes "a") parking held-IsWithin

store_snapshot-Honest_example :
    Honest kv (codes "c") (snapshot 3) (store_snapshot kv (codes "c") (snapshot 3) parking)
store_snapshot-Honest_example =
    store_snapshot-Honest kv (codes "c") (snapshot 3) parking held-IsWithin

-- Both sessions go into the directory.
parking-SavesAlong : SavesAlong kv (Memory.ids_oldest_first held) parking
unfolding spill_session Memory.ids_oldest_first Memory.take bytes_eq save_captured valid_id
    write_content replace_file renamed lookup written put trim_session_disk trim_expired
    plan_session_disk_gc saturating_total unlink id_of_name remove_file file_content
parking-SavesAlong = (refl, (refl, tt))

flush_parked_sessions-empties_example : (flush_parked_sessions kv parking).memory.entries ≡ []
flush_parked_sessions-empties_example = flush_parked_sessions-empties kv parking parking-SavesAlong
