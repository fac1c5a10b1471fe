-- ===== src/Store/Expiry.antt =====
-- `SessionKvStore::trim_expired` (src/server/llm/session_kv_store.cpp): the files of the directory
-- that are sessions, and the deletion of those that the plan of Park/DiskGc drops.
pub mod Keeps
use llama_onprem_server.Prelude.{
  ℕ, Bool, true, false, not, ◌&&◌, ◌||◌, List, [], ◌∷◌, Option, none, some, if◌then◌else◌, length,
  take, Bytes, ℤ, is_neg,
}
use llama_onprem_server.Park.DiskGc.{DiskSessionStat, plan_session_disk_gc}
use llama_onprem_server.Store.Disk.{File, Disk}
use llama_onprem_server.Store.Files.{SessionKvStore, remove}
use llama_onprem_server.Store.Names.{valid_id, id_of_name}

-- One entry: a regular file that is named for a valid id is put on the list.
abbrev stat_entry : Bool → Option Bytes → File → List DiskSessionStat → List DiskSessionStat
stat_entry opened none f stats = stats
stat_entry opened (some id) f stats =
    if f.regular && valid_id opened id
    then record { id = id; bytes = length f.content; mtime = f.mtime } ∷ stats
    else stats

-- The loop over the directory.
pub collect_stats : Bool → Disk → List DiskSessionStat
collect_stats opened [] = []
collect_stats opened ((name, f) ∷ d) =
    stat_entry opened (id_of_name name) f (collect_stats opened d)

pub remove_all : Bool → List Bytes → SessionKvStore → SessionKvStore
remove_all removes [] s = s
remove_all removes (id ∷ ids) s = remove_all removes ids (remove removes id s)

pub record Trimmed : Type 0 where
  pub dropped : List Bytes
  pub store : SessionKvStore

-- `opens` says that the directory can be read, `visible` how many entries come before an error of
-- the iteration, and `removes` that files can be deleted.
unfoldable pub trim_expired :
    (opens removes : Bool) (visible : ℕ) (max_age_days : ℤ) (max_bytes now : ℕ)
    → SessionKvStore
    → Trimmed
unfolding collect_stats remove_all
trim_expired opens removes visible max_age_days max_bytes now s =
    let stats = collect_stats s.opened (take visible s.disk) in
    let dropped = plan_session_disk_gc stats max_age_days max_bytes now in
    if not s.opened || is_neg max_age_days || not opens
    then record { dropped = []; store = s }
    else record { dropped = dropped; store = remove_all removes dropped s }
