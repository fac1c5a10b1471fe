-- ===== src/Store/Files/Outcome.antt =====
-- Theorems about `save` and `save_captured` (src/server/llm/session_kv_store.cpp).
use llama_onprem_server.Prelude.{
  ℕ, ◌^◌, ◌≤◌, ◌<◌, ◌≡◌, ◌≢◌, refl, sym, ◌∙◌, ◌⊎◌, inl, inr, arith, Bool, true, false, not, ◌||◌,
  List, [], none, some, ltb, ◌==◌, length, drop, Bytes, bytes_eq_refl, Bool-cases,
}
use llama_onprem_server.Store.Disk.{
  File, Disk, lookup, put, unlink, lookup-put, lookup-unlink, bytes_eq_ne,
}
use llama_onprem_server.Store.Header.{max_tokens, read_token_count, file_content}
use llama_onprem_server.Store.Header.RoundTrip.{read_header-file_content}
use llama_onprem_server.Store.Names.{valid_id, kv_name, tmp_name}
use llama_onprem_server.Store.Files.{
  SessionKvStore, Outside, Wrote, complete, broken, Saved, seq_memory_prefix, new_file, with_disk,
  remove_file, written, renamed, replace_file, write_content, save_captured, save, token_count,
}

-- Every entry but those two is as before.
abbrev pub SameBut : (Bytes → Type 0) → Disk → Disk → Type 0
SameBut Skip d d' = (j : Bytes) → (Skip j → ⊥) → lookup j d' ≡ lookup j d

abbrev pub IsTmp : Bytes → Bytes → Type 0
IsTmp id j = j ≡ tmp_name id

abbrev pub IsOwn : Bytes → Bytes → Type 0
IsOwn id j = (j ≡ kv_name id) ⊎ (j ≡ tmp_name id)

-- Either the call succeeded, the session's file is `file` and only it and the temporary file can
-- have changed; or it failed and only the temporary file can have changed.
abbrev pub SaveOutcome : SessionKvStore → Bytes → File → Saved → Type 0
SaveOutcome s id file r =
    (r.store.opened ≡ s.opened)
    × (((r.saved ≡ true)
          × (lookup (kv_name id) r.store.disk ≡ some file)
          × SameBut (IsOwn id) s.disk r.store.disk)
        ⊎ ((r.saved ≡ false) × SameBut (IsTmp id) s.disk r.store.disk))

lookup-put_self : (name : Bytes) (f : File) (d : Disk) → lookup name (put name f d) ≡ some f
lookup-put_self name f d = ground (arith, lookup-put name name f d, bytes_eq_refl name)

lookup-put_other :
    (name j : Bytes) (f : File) (d : Disk) → j ≢ name → lookup j (put name f d) ≡ lookup j d
lookup-put_other name j f d h =
    ground (arith, lookup-put name j f d, bytes_eq_ne name j (λ e. h (sym e)))

lookup-unlink_other : (name j : Bytes) (d : Disk) → j ≢ name → lookup j (unlink name d) ≡ lookup j d
lookup-unlink_other name j d h =
    ground (arith, lookup-unlink name j d, bytes_eq_ne name j (λ e. h (sym e)))

remove_file_other :
    (removes : Bool) (name j : Bytes) (d : Disk)
    → j ≢ name
    → lookup j (remove_file removes name d) ≡ lookup j d
unfolding remove_file
remove_file_other true name j d h = lookup-unlink_other name j d h
remove_file_other false name j d h = refl

written_other :
    (w : Wrote) (name content j : Bytes) (now : ℕ) (d : Disk)
    → j ≢ name
    → lookup j (written w name content now d) ≡ lookup j d
unfolding written
written_other complete name content j now d h = lookup-put_other name j _ d h
written_other (broken none) name content j now d h = refl
written_other (broken (some left)) name content j now d h = lookup-put_other name j _ d h

renamed-some :
    (renames : Bool) (from to : Bytes) (f : File) (d : Disk)
    → lookup from d ≡ some f
    → (renamed renames from to d ≡ none)
      ⊎ (renamed renames from to d ≡ some (put to f (unlink from d)))
unfolding renamed
renamed-some true from to f d e = inr (rw e)
renamed-some false from to f d e = inl refl

-- Removing the temporary file changes only that entry.
drop_SameBut :
    (removes : Bool) (id : Bytes) (d d' : Disk)
    → SameBut (IsTmp id) d d'
    → SameBut (IsTmp id) d (remove_file removes (tmp_name id) d')
drop_SameBut removes id d d' same j h = remove_file_other removes (tmp_name id) j d' h ∙ same j h

put-SameBut :
    (id : Bytes) (f : File) (d d' : Disk)
    → SameBut (IsTmp id) d d'
    → SameBut (IsOwn id) d (put (kv_name id) f (unlink (tmp_name id) d'))
put-SameBut id f d d' same j h =
    lookup-put_other (kv_name id) j f _ (λ e. h (inl e))
    ∙ lookup-unlink_other (tmp_name id) j d' (λ e. h (inr e))
    ∙ same j (λ e. h (inr e))

-- The shared ending, from a disk on which the temporary file is complete.
replace_file-SaveOutcome :
    (out : Outside) (id : Bytes) (file : File) (s s' : SessionKvStore)
    → s'.opened ≡ s.opened
    → SameBut (IsTmp id) s.disk s'.disk
    → lookup (tmp_name id) s'.disk ≡ some file
    → SaveOutcome s id file (replace_file out id s')
unfolding replace_file
replace_file-SaveOutcome out id file s s' o same e =
    elim (renamed-some out.renames (tmp_name id) (kv_name id) file s'.disk e) [
      | inl failed ↦
          rw (failed, replace_file) (o, inr (refl, drop_SameBut out.removes id s.disk s'.disk same))
      | inr moved ↦
          rw (moved, replace_file)
            (
              o,
              inl (
                refl,
                lookup-put_self (kv_name id) file _,
                put-SameBut id file s.disk s'.disk same,
              ),
            )
    ]

written-SameBut :
    (w : Wrote) (id content : Bytes) (now : ℕ) (d : Disk)
    → SameBut (IsTmp id) d (written w (tmp_name id) content now d)
written-SameBut w id content now d j h = written_other w (tmp_name id) content j now d h

write_content-SaveOutcome :
    (out : Outside) (w : Wrote) (id content : Bytes) (s : SessionKvStore)
    → out.wrote ≡ w
    → SaveOutcome s id (new_file content out.now) (write_content out id content s)
unfolding write_content replace_file
write_content-SaveOutcome out complete id content s e = rw e (
    replace_file-SaveOutcome out id (new_file content out.now) s _ refl
      (written-SameBut complete id content out.now s.disk)
      (unfold written in lookup-put_self (tmp_name id) (new_file content out.now) s.disk))
write_content-SaveOutcome out (broken left) id content s e = rw e (
  refl,
  inr (
    refl,
    drop_SameBut out.removes id s.disk _ (written-SameBut (broken left) id content out.now s.disk),
  ),
)

-- Whatever fails outside: `save_captured` returns true and the session's file is exactly the
-- header, the tokens and the state without its prefix, written now; or it returns false. Every
-- other entry but the temporary one is as before, and on false the session's file is so too.
pub save_captured-SaveOutcome :
    (seq_magic seq_version : ℕ) (out : Outside) (id : Bytes) (tokens : List ℕ) (state : Bytes)
    (s : SessionKvStore)
    → SaveOutcome s id
        (new_file
          (file_content seq_magic seq_version tokens (drop seq_memory_prefix state))
          out.now)
        (save_captured seq_magic seq_version out id tokens state s)
unfolding save_captured
save_captured-SaveOutcome seq_magic seq_version out id tokens state s =
    elim (Bool-cases (
      not (valid_id s.opened id)
      || length tokens == 0
      || ltb max_tokens (length tokens)
      || ltb (length state) seq_memory_prefix)) [
        | inl bad ↦ rw bad (refl, inr (refl, λ j h. refl))
        | inr fine ↦ rw fine (write_content-SaveOutcome out out.wrote id _ s refl)
      ]

-- The same for `save`, where llama.cpp writes the temporary file: if the call succeeded, the
-- session's file is what llama.cpp left under the temporary name. It is assumed that llama.cpp
-- leaves a file where it reports that it wrote.
pub save-SaveOutcome :
    (has_ctx : Bool) (wrote : ℕ) (content : Bytes) (out : Outside) (id : Bytes) (tokens : List ℕ)
    (s : SessionKvStore)
    → SaveOutcome s id
        (new_file content out.now)
        (save has_ctx (record { wrote = wrote; left = some content }) out id tokens s)
unfolding save
save-SaveOutcome has_ctx wrote content out id tokens s =
    let s' = with_disk s (written (broken (some content)) (tmp_name id) [] out.now s.disk) in
    let same = written-SameBut (broken (some content)) id [] out.now s.disk in
    elim (Bool-cases (
      not has_ctx
      || not (valid_id s.opened id)
      || length tokens == 0
      || ltb max_tokens (length tokens))) [
        | inl bad ↦ rw bad (refl, inr (refl, λ j h. refl))
        | inr fine ↦ elim (Bool-cases (wrote == 0)) [
          | inl none_written ↦
              rw (fine, none_written) (refl, inr (refl, drop_SameBut out.removes id s.disk _ same))
          | inr some_written ↦
              rw (fine, some_written)
                (replace_file-SaveOutcome out id (new_file content out.now) s s' refl same (
                  unfold written in
                  lookup-put_self (tmp_name id) (new_file content out.now) s.disk))
        ]
      ]

save_captured_guards :
    (seq_magic seq_version : ℕ) (out : Outside) (id : Bytes) (tokens : List ℕ) (state : Bytes)
    (s : SessionKvStore)
    → (save_captured seq_magic seq_version out id tokens state s).saved ≡ true
    → (valid_id s.opened id ≡ true) × (length tokens ≤ max_tokens)
unfolding save_captured
save_captured_guards seq_magic seq_version out id tokens state s h = ground arith

-- After a successful `save_captured` the store counts the session's tokens, if llama.cpp's two
-- constants are `uint32_t`s.
pub token_count-save_captured :
    (seq_magic seq_version : ℕ) (out : Outside) (id : Bytes) (tokens : List ℕ) (state : Bytes)
    (s : SessionKvStore)
    → seq_magic < 2 ^ 32
    → seq_version < 2 ^ 32
    → (save_captured seq_magic seq_version out id tokens state s).saved ≡ true
    → token_count seq_magic seq_version id
        (save_captured seq_magic seq_version out id tokens state s).store
      ≡ some (length tokens)
token_count-save_captured seq_magic seq_version out id tokens state s m v h =
    let r = save_captured seq_magic seq_version out id tokens state s in
    let o = save_captured-SaveOutcome seq_magic seq_version out id tokens state s in
    let g = save_captured_guards seq_magic seq_version out id tokens state s h in
    let found : lookup (kv_name id) r.store.disk
        ≡ some (
            new_file (file_content seq_magic seq_version tokens (drop seq_memory_prefix state))
              out.now) =
      elim o.1 [ inl ok ↦ ok.1 | inr bad ↦ absurd (ground (arith, h, bad.0)) ] in
    unfold token_count read_token_count in
    rw (o.0, g.0, found)
      (read_header-file_content seq_magic seq_version tokens (drop seq_memory_prefix state) m v g.1)
