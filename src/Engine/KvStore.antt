-- ===== src/Engine/KvStore.antt =====
-- What the engine uses of the store of session files (src/server/llm/session_kv_store.hpp), as an
-- interface with the laws that it relies on, and the files of Store/Files behind it.
use llama_onprem_server.Prelude.{
  ℕ, ◌+◌, ◌^◌, ◌<◌, ◌≡◌, Bool, true, List, Option, none, some, length, Bytes, ℤ, is_neg,
  if◌then◌else◌,
}
use llama_onprem_server.Park.Snapshot.{SessionSnapshot}
use llama_onprem_server.Store.Expiry.{trim_expired}
use llama_onprem_server.Store.Files.{
  SessionKvStore, Outside, SeqSaved, SeqLoaded, Loaded, save_captured, remove, copy, save, load,
  token_count,
}
use llama_onprem_server.Store.Disk.{File, lookup}
use llama_onprem_server.Store.Names.{kv_name}
use llama_onprem_server.Store.Files.Loading.{IsRead, load-IsRead}
use llama_onprem_server.Store.Files.Outcome.{token_count-save_captured}

-- `trim` is `trim_session_disk`: the call of `trim_expired` with the configured limits. `save` and
-- `load` get whether there is a context, and what llama.cpp does; `content` is what stands in the
-- session's file for llama.cpp to read.
pub record KvStore : Type 1 where
  pub Store : Type 0
  pub save_captured : Bytes → SessionSnapshot → Store → Bool × Store
  pub copy : Bytes → Bytes → Store → Bool × Store
  pub remove : Bytes → Store → Store
  pub trim : Store → Store
  pub token_count : Bytes → Store → Option ℕ
  pub save : Bool → SeqSaved → Bytes → List ℕ → Store → Bool × Store
  pub load : Bool → (ℕ → SeqLoaded) → Bytes → Store → Loaded
  pub content : Bytes → Store → Option Bytes
  pub saved_counts :
      (id : Bytes) (x : SessionSnapshot) (s : Store)
      → (save_captured id x s).0 ≡ true
      → token_count id (save_captured id x s).1 ≡ some (length x.tokens)
  pub reads :
      (has_ctx : Bool) (seq : ℕ → SeqLoaded) (id : Bytes) (s : Store)
      → (load has_ctx seq id s).loaded ≡ true
      → (has_ctx ≡ true) × IsRead (token_count id s) seq (load has_ctx seq id s).tokens

-- The files, and how many calls were made: what happens outside may differ at each.
pub record Directory : Type 0 where
  pub files : SessionKvStore
  pub calls : ℕ

-- What comes from outside at one call: whether the directory can be listed and how far, and the rest.
pub record World : Type 0 where
  pub outside : Outside
  pub opens : Bool
  pub visible : ℕ

abbrev content_of : Option File → Option Bytes
content_of none = none
content_of (some f) = some f.content

-- `trim_session_disk`.
unfoldable pub trim_session_disk : World → ℤ → ℕ → SessionKvStore → SessionKvStore
trim_session_disk w max_age_days max_bytes s =
    let out = w.outside in
    let trimmed = trim_expired w.opens out.removes w.visible max_age_days max_bytes out.now s in
    if is_neg max_age_days then s else trimmed.store

module _ (seq_magic seq_version : ℕ) (world : ℕ → World) (max_age_days : ℤ) (max_bytes : ℕ)
    (magic_fits : seq_magic < 2 ^ 32) (version_fits : seq_version < 2 ^ 32) where
  abbrev after_call : Directory → SessionKvStore → Directory
  after_call d s = record { files = s; calls = d.calls + 1 }

  -- The store of a configuration, where `world n` is what happens at the n-th call.
  abbrev pub session_files : KvStore
  session_files = record {
    Store = Directory;
    save_captured = λ id x d.
        let r =
          save_captured seq_magic seq_version (world d.calls).outside id x.tokens x.state d.files in
        (r.saved, after_call d r.store);
    copy = λ from to d.
        let r = copy (world d.calls).outside from to d.files in (r.saved, after_call d r.store);
    remove = λ id d. after_call d (remove (world d.calls).outside.removes id d.files);
    trim = λ d. after_call d (trim_session_disk (world d.calls) max_age_days max_bytes d.files);
    token_count = λ id d. token_count seq_magic seq_version id d.files;
    save = λ has_ctx seq id tokens d.
        let r = save has_ctx seq (world d.calls).outside id tokens d.files in
        (r.saved, after_call d r.store);
    load = λ has_ctx seq id d. load seq_magic seq_version has_ctx seq id d.files;
    content = λ id d. content_of (lookup (kv_name id) d.files.disk);
    reads = λ has_ctx seq id d. load-IsRead seq_magic seq_version has_ctx seq id d.files;
    saved_counts = λ id x d.
        token_count-save_captured seq_magic seq_version (world d.calls).outside id x.tokens x.state
          d.files magic_fits version_fits;
  }
