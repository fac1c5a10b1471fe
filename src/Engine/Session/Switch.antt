-- ===== src/Engine/Session/Switch.antt =====
-- Theorems about `activate_session` (src/server/llm/llm_engine.cpp).
use llama_onprem_server.Prelude.{
  ℕ, ◌≡◌, ◌⊎◌, inl, inr, refl, subst, sym, arith, Bool, true, false, List, [], Option, none, some,
  Bytes, Bool-cases, bytes_eq, length, ◌==◌, is_neg, if◌then◌else◌,
}
use llama_onprem_server.Engine.Parking.Contents.{
  Holds, Everywhere, erase-Everywhere, insert-Everywhere, take-Holds,
}
use llama_onprem_server.Engine.Session.{
  Host, LlamaEngine, Did, trim_kv_to, park_active_session, restored, unpark_snapshot, loaded_file,
  unpark_file, unpark_missing, unpark_taken, unpark_session, activate_session, kv_load,
}
use llama_onprem_server.Kv.Trim.{kv_tail_matches}
use llama_onprem_server.Kv.Trim.Outcome.{InStep}
use llama_onprem_server.Park.Memory
use llama_onprem_server.Park.Memory.Limit.{IsWithin, erase-IsWithin, put_back-IsWithin}
use llama_onprem_server.Park.Snapshot.{SessionSnapshot}
use llama_onprem_server.Engine.Session.InStep.{
  Restorable, Faithful, IsParked, IsSound, trim_to_zero, if_IsSound, park_active_session-IsParked,
  trim_kv_to-IsSound, kv_load-matches,
}

module _ (H : Host) (f : Faithful H) where
  open H use {llama, files}

  -- True says that the sequence is in step.
  abbrev Unparked : Did H → Type 0
  Unparked r = IsParked H r.engine × ((r.result ≡ false) ⊎ InStep llama r.engine.live)

  trim_kv_to-parking : (n : ℕ) (e : LlamaEngine H) → (trim_kv_to H n e).engine.parking ≡ e.parking
  unfolding trim_kv_to
  trim_kv_to-parking n e = ground arith

  restored-Unparked :
      (id : Bytes) (x : SessionSnapshot) (e : LlamaEngine H) (set : ℕ × llama.Memory)
      → IsParked H e
      → IsWithin (Memory.insert id x e.parking.memory)
      → Restorable H x
      → (set.0 ≡ 0) ⊎ (kv_tail_matches (length x.tokens) (llama.seq_pos_max set.1) ≡ true)
      → Unparked (restored H id x e set)
  unfolding restored
  restored-Unparked id x e (loaded, memory) p w r h =
      let back : Everywhere (Restorable H) (Memory.insert id x e.parking.memory) =
        insert-Everywhere (Restorable H) id x e.parking.memory p.within.consistent.distinct r
          p.restorable in
      elim (Bool-cases (loaded == 0)) [
        | inl failed ↦
            rw failed ((record { context = p.context; within = w; restorable = back }, inl refl))
        | inr done ↦ rw done (
            (
              record { context = p.context; within = p.within; restorable = p.restorable },
              inr (elim h [ inl zero_loaded ↦ ground arith | inr tail ↦ tail ]),
            ))
      ]

  set_data_tail :
      (on : Bool) (x : SessionSnapshot) (m : llama.Memory)
      → is_neg (llama.seq_pos_max m) ≡ true
      → Restorable H x
      → ((if on then H.state_seq_set_data x.state m else (0, m)).0 ≡ 0)
        ⊎ (kv_tail_matches
              (length x.tokens)
              (llama.seq_pos_max (if on then H.state_seq_set_data x.state m else (0, m)).1)
            ≡ true)
  set_data_tail true x m empty r = elim (r m) [ inl full ↦ ground arith | inr back ↦ back ]
  set_data_tail false x m empty r = inl refl

  if_Unparked :
      (b : Bool) (r r' : Did H) → Unparked r → Unparked r' → Unparked (if b then r else r')
  if_Unparked true r r' u u' = u
  if_Unparked false r r' u u' = u'

  abbrev tokens_or_nil : Option (List ℕ) → List ℕ
  tokens_or_nil none = []
  tokens_or_nil (some tokens) = tokens

  unpark_snapshot-Unparked :
      (id : Bytes) (x : SessionSnapshot) (e : LlamaEngine H)
      → IsParked H e
      → IsWithin (Memory.insert id x e.parking.memory)
      → Restorable H x
      → Unparked (unpark_snapshot H id x e)
  unfolding unpark_snapshot
  unpark_snapshot-Unparked id x e p w r =
      let e' = (trim_kv_to H 0 e).engine in
      let w' : IsWithin (Memory.insert id x e'.parking.memory) =
        subst (λ q. IsWithin (Memory.insert id x q.memory)) (sym (trim_kv_to-parking 0 e)) w in
      restored-Unparked id x e' _ (trim_kv_to-IsSound H f 0 e p).parked w' r
        (set_data_tail e.has_ctx x e'.live.memory (trim_to_zero H f e p) r)

  loaded_file-Unparked :
      (e : LlamaEngine H) (tokens : Option (List ℕ)) (m : llama.Memory)
      → IsParked H e
      → (tokens ≡ none)
        ⊎ (kv_tail_matches (length (tokens_or_nil tokens)) (llama.seq_pos_max m) ≡ true)
      → Unparked (loaded_file H e tokens m)
  unfolding loaded_file
  loaded_file-Unparked e none m p h =
      (record { context = p.context; within = p.within; restorable = p.restorable }, inl refl)
  loaded_file-Unparked e (some tokens) m p h = (
    record { context = p.context; within = p.within; restorable = p.restorable },
    inr (elim h [ inl missing ↦ ground arith | inr tail ↦ tail ]),
  )

  load_tail :
      (on : Bool) (id : Bytes) (s : files.Store) (m : llama.Memory) (o : Option (List ℕ))
      → is_neg (llama.seq_pos_max m) ≡ true
      → (kv_load H on id s m).0 ≡ o
      → (o ≡ none)
        ⊎ (kv_tail_matches (length (tokens_or_nil o)) (llama.seq_pos_max (kv_load H on id s m).1)
            ≡ true)
  load_tail on id s m none empty h = inl refl
  load_tail on id s m (some tokens) empty h = inr (kv_load-matches H f on id s m tokens empty h)

  unpark_file-Unparked :
      (id : Bytes) (e : LlamaEngine H) → IsParked H e → Unparked (unpark_file H id e)
  unfolding unpark_file
  unpark_file-Unparked id e p =
      let e' = (trim_kv_to H 0 e).engine in
      let p' = (trim_kv_to-IsSound H f 0 e p).parked in
      let loaded = kv_load H e.has_ctx id e'.parking.store e'.live.memory in
      loaded_file-Unparked e' loaded.0 loaded.1 p' (
        load_tail e.has_ctx id e'.parking.store e'.live.memory loaded.0 (trim_to_zero H f e p) refl)

  unpark_missing-Unparked :
      (id : Bytes) (count : Option ℕ) (e : LlamaEngine H)
      → IsParked H e
      → Unparked (unpark_missing H id count e)
  unpark_missing-Unparked id none e p = (p, inl refl)
  unpark_missing-Unparked id (some count) e p = unpark_file-Unparked id e p

  unpark_taken-Unparked :
      (id : Bytes) (o : Option SessionSnapshot) (e : LlamaEngine H)
      → IsParked H e
      → Holds (Restorable H) o
      → Holds (λ x. IsWithin (Memory.insert id x e.parking.memory)) o
      → Unparked (unpark_taken H id o e)
  unfolding unpark_taken
  unpark_taken-Unparked id none e p r w =
      unpark_missing-Unparked id (files.token_count id e.parking.store) e p
  unpark_taken-Unparked id (some x) e p r w = unpark_snapshot-Unparked id x e p w r

  fits_back :
      (id : Bytes) (m : Memory.SessionMemory) (o : Option SessionSnapshot)
      → IsWithin m
      → (Memory.take id m).snapshot ≡ o
      → Holds (λ x. IsWithin (Memory.insert id x (Memory.take id m).memory)) o
  fits_back id m none w h = tt
  fits_back id m (some x) w h = put_back-IsWithin id m x w h

  unpark_session-Unparked :
      (id : Bytes) (e : LlamaEngine H) → IsParked H e → Unparked (unpark_session H id e)
  unfolding unpark_session
  unpark_session-Unparked id e p =
      let m = e.parking.memory in
      let d = p.within.consistent.distinct in
      let o = (Memory.take id m).snapshot in
      unpark_taken-Unparked id o _
        (record {
          context = p.context;
          within = unfold Memory.erase in erase-IsWithin id m p.within;
          restorable = erase-Everywhere (Restorable H) id m d p.restorable;
        })
        (take-Holds (Restorable H) id m d p.restorable) (fits_back id m o p.within refl)

  -- For a llama.cpp that is `Faithful`, `activate_session` keeps the engine sound: the last
  -- position in the memory agrees with the number of token ids, RAM is within its limit, and what is
  -- parked in RAM can be restored; whichever saves, captures, loads and restores fail.
  pub activate_session-IsSound :
      (id : Bytes) (e : LlamaEngine H) → IsSound H e → IsSound H (activate_session H id e)
  unfolding activate_session
  activate_session-IsSound id e s =
      let q = park_active_session-IsParked H f e s in
      let cleared : LlamaEngine H = record (park_active_session H e) {
        live = record { memory = (park_active_session H e).live.memory; tokens = [] };
        message_ends = [];
        active_session_id = id;
      } in
      let r = unpark_session H id cleared in
      let u : Unparked r =
        unpark_session-Unparked id cleared
          (record { context = q.context; within = q.within; restorable = q.restorable }) in
      if_IsSound H f (bytes_eq id e.active_session_id) e _ s (elim (Bool-cases r.result) [
        | inl hit ↦
            rw hit
              (record { parked = u.0; in_step = elim u.1 [ inl miss ↦ ground arith | inr i ↦ i ] })
        | inr miss ↦ rw miss (trim_kv_to-IsSound H f 0 r.engine u.0)
      ])
