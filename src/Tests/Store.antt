-- ===== src/Tests/Store.antt =====
-- Tests of Store: a directory with one session file and an unrelated file.
use llama_onprem_server.Prelude.{
  ℕ, ◌≡◌, refl, arith, true, false, List, [], ◌∷◌, none, some, length, drop, Bytes, codes, bytes_eq,
  pos,
}
use llama_onprem_server.Park.Budget.{saturating_total, drop_oldest}
use llama_onprem_server.Park.DiskGc.{
  plan_session_disk_gc, collect_old, older_than, sort_oldest, insert_sorted,
}
use llama_onprem_server.Store.Disk.{File, lookup, put, unlink}
use llama_onprem_server.Store.Expiry.{trim_expired}
use llama_onprem_server.Store.Expiry.Keeps.{UniqueNames, trim_expired-keeps}
use llama_onprem_server.Store.Files.{
  SessionKvStore, Outside, complete, seq_memory_prefix, new_file, open_dir, save_captured,
  write_content, written, replace_file, renamed, token_count, load, copy, remove,
}
use llama_onprem_server.Store.Files.Outcome.{
  SaveOutcome, save_captured-SaveOutcome, token_count-save_captured,
}
use llama_onprem_server.Store.Header.{read_token_count, file_content}
use llama_onprem_server.Store.Names.Segments.{IsSegment, valid_id-IsSegment}
use llama_onprem_server.Store.Names.{valid_id, id_of_name, kv_name, tmp_name}

abbrev tokens : List ℕ
tokens = 11 ∷ 4_294_967_295 ∷ []

abbrev state : Bytes
state = 1 ∷ 2 ∷ 3 ∷ 4 ∷ 5 ∷ 6 ∷ 7 ∷ 8 ∷ 90 ∷ []

valid_seven : valid_id true (codes "chat-7") ≡ true
unfolding valid_id bytes_eq
valid_seven = refl

refuses_paths : valid_id true (codes "../7") ≡ false
unfolding valid_id bytes_eq
refuses_paths = refl

IsSegment_example : IsSegment (kv_name (codes "chat-7")) × IsSegment (tmp_name (codes "chat-7"))
IsSegment_example = valid_id-IsSegment true (codes "chat-7") valid_seven

abbrev notes : File
notes = new_file (codes "keep me") 5

abbrev before : SessionKvStore
before = record { opened = true; disk = (codes "notes.txt", notes) ∷ [] }

abbrev all_well : Outside
all_well = record { wrote = complete; renames = true; removes = true; now = 100 }

abbrev no_rename : Outside
no_rename = record { wrote = complete; renames = false; removes = false; now = 100 }

save_captured_example :
    SaveOutcome before
      (codes "7")
      (new_file (file_content 1 2 tokens (drop seq_memory_prefix state)) 100)
      (save_captured 1 2 no_rename (codes "7") tokens state before)
save_captured_example = save_captured-SaveOutcome 1 2 no_rename (codes "7") tokens state before

saves : (save_captured 1 2 all_well (codes "7") tokens state before).saved ≡ true
unfolding save_captured write_content written replace_file renamed valid_id lookup put unlink
    bytes_eq
saves = refl

token_count_example :
    token_count 1 2 (codes "7") (save_captured 1 2 all_well (codes "7") tokens state before).store
    ≡ some (length tokens)
token_count_example =
    token_count-save_captured 1 2 all_well (codes "7") tokens state before (omega arith)
      (omega arith) saves

abbrev crowded : SessionKvStore
crowded = record {
  opened = true;
  disk =
      (kv_name (codes "old"), new_file (codes "0123456789") 1)
      ∷ (kv_name (codes "young"), new_file (codes "0123456789") 100_000_000_000_000)
      ∷ (codes "notes.txt", notes)
      ∷ [];
}

crowded-UniqueNames : UniqueNames crowded.disk
unfolding lookup bytes_eq
crowded-UniqueNames = (refl, (refl, (refl, tt)))

found_young :
    lookup (kv_name (codes "young")) crowded.disk
    ≡ some (new_file (codes "0123456789") 100_000_000_000_000)
unfolding lookup bytes_eq
found_young = refl

trim_expired_example :
    lookup
      (kv_name (codes "young"))
      (trim_expired true true 3 (pos 1) 5 100_000_000_000_001 crowded).store.disk
    ≡ some (new_file (codes "0123456789") 100_000_000_000_000)
trim_expired_example =
    trim_expired-keeps true true 3 (pos 1) 5 100_000_000_000_001 crowded (kv_name (codes "young"))
      (new_file (codes "0123456789") 100_000_000_000_000) (omega arith) crowded-UniqueNames
      found_young (omega arith)

trims_old :
    (trim_expired true true 3 (pos 1) 5 100_000_000_000_001 crowded).dropped ≡ codes "old" ∷ []
unfolding trim_expired plan_session_disk_gc saturating_total drop_oldest collect_old older_than
    sort_oldest insert_sorted id_of_name valid_id bytes_eq
trims_old = refl

-- The other operations.
others :
    (open_dir [] true before ≡ none)
    × ((copy all_well (codes "7") (codes "8") before).saved ≡ false)
    × ((remove true (codes "old") crowded).disk ≡ drop 1 crowded.disk)
    × (load 1 2 true (λ n. record { bytes = 1; loaded_count = n; ids = tokens }) (codes "7") before
        ≡ record { loaded = false; tokens = [] })
unfolding open_dir copy remove load lookup unlink valid_id read_token_count bytes_eq
others = (refl, refl, refl, refl)
