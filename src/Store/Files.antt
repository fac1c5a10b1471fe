-- ===== src/Store/Files.antt =====
-- The operations of `SessionKvStore` on its directory (src/server/llm/session_kv_store.cpp). Whether
-- a write, a rename or a deletion succeeds, and what a broken write leaves, comes from outside.
-- llama.cpp's two functions on session files enter by what they did.
pub mod Outcome
pub mod Loading
use llama_onprem_server.Prelude.{
  ℕ, Bool, true, false, not, ◌&&◌, ◌||◌, List, [], ◌∷◌, Option, none, some, ltb, leb, ◌==◌,
  if◌then◌else◌, length, take, drop, Bytes, bytes_eq,
}
use llama_onprem_server.Store.Disk.{File, Disk, lookup, put, unlink}
use llama_onprem_server.Store.Header.{max_tokens, read_token_count, file_content}
use llama_onprem_server.Store.Names.{valid_id, kv_name, tmp_name}

pub record SessionKvStore : Type 0 where
  pub opened : Bool
  pub disk : Disk

-- `sizeof(uint32_t) + sizeof(int32_t)`.
abbrev pub seq_memory_prefix : ℕ
seq_memory_prefix = 8

-- A write that failed may leave a file behind.
pub data Wrote : Type 0 where
  complete : Wrote
  broken : Option Bytes → Wrote

pub record Outside : Type 0 where
  pub wrote : Wrote
  pub renames : Bool
  pub removes : Bool
  pub now : ℕ

pub record Saved : Type 0 where
  pub saved : Bool
  pub store : SessionKvStore

abbrev pub with_disk : SessionKvStore → Disk → SessionKvStore
with_disk s d = record { opened = s.opened; disk = d }

abbrev pub new_file : Bytes → ℕ → File
new_file content now = record { content = content; mtime = now; regular = true }

-- `open`: none where it throws. `created` says that the directory is there afterwards.
unfoldable pub open_dir : Bytes → Bool → SessionKvStore → Option SessionKvStore
open_dir dir created s =
    if length dir == 0
    then none
    else if not created
    then none
    else some (record s { opened = true })

unfoldable pub remove_file : Bool → Bytes → Disk → Disk
remove_file removes name d = if removes then unlink name d else d

-- What is on disk once `content` was written to `name`, or the write failed.
unfoldable pub written : Wrote → Bytes → Bytes → ℕ → Disk → Disk
written complete name content now d = put name (new_file content now) d
written (broken none) name content now d = d
written (broken (some left)) name content now d = put name (new_file left now) d

-- `std::filesystem::rename(from, to)`: none is an error.
unfoldable pub renamed : Bool → Bytes → Bytes → Disk → Option Disk
renamed renames from to d =
    if not renames
    then none
    else elim (lookup from d) [ none ↦ none | some f ↦ some (put to f (unlink from d)) ]

-- The ending that `save` and `save_captured` share: the temporary file replaces the session's.
unfoldable pub replace_file : Outside → Bytes → SessionKvStore → Saved
replace_file out id s = elim (renamed out.renames (tmp_name id) (kv_name id) s.disk) [
  | none ↦ record {
    saved = false;
    store = with_disk s (remove_file out.removes (tmp_name id) s.disk);
  }
  | some d ↦ record { saved = true; store = with_disk s d }
]

abbrev drop_tmp : Outside → Bytes → SessionKvStore → Saved
drop_tmp out id s = record {
  saved = false;
  store = with_disk s (remove_file out.removes (tmp_name id) s.disk);
}

abbrev refused : SessionKvStore → Saved
refused s = record { saved = false; store = s }

abbrev is_complete : Wrote → Bool
is_complete complete = true
is_complete (broken left) = false

-- The part of `save_captured` behind its guards, for the bytes that it writes.
unfoldable pub write_content : Outside → Bytes → Bytes → SessionKvStore → Saved
write_content out id content s =
    let s' = with_disk s (written out.wrote (tmp_name id) content out.now s.disk) in
    if not (is_complete out.wrote) then drop_tmp out id s' else replace_file out id s'

unfoldable pub save_captured : ℕ → ℕ → Outside → Bytes → List ℕ → Bytes → SessionKvStore → Saved
save_captured seq_magic seq_version out id tokens state s =
    let content = file_content seq_magic seq_version tokens (drop seq_memory_prefix state) in
    if not (valid_id s.opened id)
      || length tokens == 0
      || ltb max_tokens (length tokens)
      || ltb (length state) seq_memory_prefix
    then refused s
    else write_content out id content s

-- What `llama_state_seq_save_file` did: the bytes it reports, and what stands under the name.
pub record SeqSaved : Type 0 where
  pub wrote : ℕ
  pub left : Option Bytes

pub save : Bool → SeqSaved → Outside → Bytes → List ℕ → SessionKvStore → Saved
save has_ctx seq out id tokens s =
    let s' = with_disk s (written (broken seq.left) (tmp_name id) [] out.now s.disk) in
    if not has_ctx
      || not (valid_id s.opened id)
      || length tokens == 0
      || ltb max_tokens (length tokens)
    then refused s
    else if seq.wrote == 0
    then drop_tmp out id s'
    else replace_file out id s'

unfoldable pub token_count : ℕ → ℕ → Bytes → SessionKvStore → Option ℕ
token_count seq_magic seq_version id s =
    if not (valid_id s.opened id)
    then none
    else read_token_count seq_magic seq_version (lookup (kv_name id) s.disk)

-- What `llama_state_seq_load_file` did to a buffer of so many ids.
pub record SeqLoaded : Type 0 where
  pub bytes : ℕ
  pub loaded_count : ℕ
  pub ids : List ℕ

pub record Loaded : Type 0 where
  pub loaded : Bool
  pub tokens : List ℕ

abbrev not_loaded : Loaded
not_loaded = record { loaded = false; tokens = [] }

pub load_counted : (ℕ → SeqLoaded) → Option ℕ → Loaded
load_counted seq none = not_loaded
load_counted seq (some count) =
    let r = seq count in
    if count == 0
    then not_loaded
    else if r.bytes == 0 || r.loaded_count == 0 || ltb count r.loaded_count
    then not_loaded
    else record { loaded = true; tokens = take r.loaded_count r.ids }

unfoldable pub load : ℕ → ℕ → Bool → (ℕ → SeqLoaded) → Bytes → SessionKvStore → Loaded
unfolding load_counted
load seq_magic seq_version has_ctx seq id s =
    if not has_ctx || not (valid_id s.opened id)
    then not_loaded
    else load_counted seq (read_token_count seq_magic seq_version (lookup (kv_name id) s.disk))

-- `copy_file` with `overwrite_existing`, from a source that is a regular file.
copy_from : Outside → Bytes → Option File → SessionKvStore → Saved
copy_from out to none s = refused s
copy_from out to (some f) s = if not f.regular then refused s else record {
  saved = is_complete out.wrote;
  store = with_disk s (written out.wrote (kv_name to) f.content out.now s.disk);
}

unfoldable pub copy : Outside → Bytes → Bytes → SessionKvStore → Saved
unfolding copy_from written
copy out from to s =
    if not (valid_id s.opened from) || not (valid_id s.opened to) || bytes_eq from to
    then refused s
    else copy_from out to (lookup (kv_name from) s.disk) s

unfoldable pub remove : Bool → Bytes → SessionKvStore → SessionKvStore
unfolding remove_file
remove removes id s =
    if not (valid_id s.opened id) then s else with_disk s (remove_file removes (kv_name id) s.disk)
