-- ===== src/Engine/Session/InStep.antt =====
-- The invariant of the engine (src/server/llm/llm_engine.cpp): the number of token ids against the
-- last position in the context's memory, and the snapshots in RAM. Lemmas for the parts that the
-- operations on sessions share.
use llama_onprem_server.Prelude.{
  ℕ, ◌≤◌, ◌≡◌, ◌⊎◌, sym, subst, length-take_of_le, inl, inr, refl, ap, ◌∙◌, arith, Bool, true,
  false, not, ◌||◌, List, [], Option, none, some, Bytes, length, ltb, ◌==◌, take, min, is_neg,
  if◌then◌else◌,
}
use llama_onprem_server.Engine.Parking.{Parking}
use llama_onprem_server.Engine.Parking.Bounds.{store_snapshot-IsWithin}
use llama_onprem_server.Engine.Parking.Contents.{
  Holds, Everywhere, Holds-if, erase-Everywhere, store_snapshot-Everywhere,
}
use llama_onprem_server.Engine.Session.{
  Host, LlamaEngine, trim_kv_to, capture_live_sequence, write_live_to_disk, store_captured,
  park_active_session, kv_load, memory_after,
}
use llama_onprem_server.Kv.Trim.{kv_tail_matches, Sequence, make_kv_trim}
use llama_onprem_server.Kv.Trim.Outcome.{InStep, ClearsAll, make_kv_trim-Outcome}
use llama_onprem_server.Park.Memory
use llama_onprem_server.Park.Memory.Limit.{IsWithin, erase-IsWithin}
use llama_onprem_server.Park.Snapshot.{SessionSnapshot}
use llama_onprem_server.Store.Files.{seq_memory_prefix}

module _ (H : Host) where
  open H use {llama, files}

  -- A state that goes back into an empty memory fails, or its last position agrees with so many tokens.
  abbrev pub Restores : Bytes → ℕ → Type 0
  Restores state n =
      (m : llama.Memory)
      → (is_neg (llama.seq_pos_max m) ≡ false)
        ⊎ (((H.state_seq_set_data state m).0 ≡ 0)
            ⊎ (kv_tail_matches n (llama.seq_pos_max (H.state_seq_set_data state m).1) ≡ true))

  abbrev pub Restorable : SessionSnapshot → Type 0
  Restorable x = Restores x.state (length x.tokens)

  -- What is relied on of llama.cpp: a full removal empties the memory, the state that was read from
  -- a sequence restores its last position, the last position behind a session file that was loaded
  -- into an empty memory agrees with the number of tokens that the call reports, and the buffer for
  -- the ids keeps its size.
  pub record Faithful : Type 0 where
    pub clears_all : ClearsAll llama
    pub restores :
        (m : llama.Memory) (n : ℕ)
        → kv_tail_matches n (llama.seq_pos_max m) ≡ true
        → Restores
            (take
              (H.state_seq_get_data m (H.state_seq_get_size m)).0
              (H.state_seq_get_data m (H.state_seq_get_size m)).1)
            n
    pub loads :
        (content : Option Bytes) (m : llama.Memory) (n : ℕ)
        → is_neg (llama.seq_pos_max m) ≡ true
        → ((H.state_seq_load_file content m n).0.bytes == 0) ≡ false
        → kv_tail_matches
            (H.state_seq_load_file content m n).0.loaded_count
            (llama.seq_pos_max (H.state_seq_load_file content m n).1)
          ≡ true
    pub fills :
        (content : Option Bytes) (m : llama.Memory) (n : ℕ)
        → length (H.state_seq_load_file content m n).0.ids ≡ n

  -- The engine has a context, RAM is within its limit, and what is parked there can be restored.
  pub record IsParked (e : LlamaEngine H) : Type 0 where
    pub context : e.has_ctx ≡ true
    pub within : IsWithin e.parking.memory
    pub restorable : Everywhere Restorable e.parking.memory

  -- The invariant of the engine: besides, the last position in the context's memory agrees with the
  -- number of token ids.
  pub record IsSound (e : LlamaEngine H) : Type 0 where
    pub parked : IsParked e
    pub in_step : InStep llama e.live

module _ (H : Host) (f : Faithful H) where
  open H use {llama, files}

  pub capture-Holds :
      (e : LlamaEngine H) → InStep llama e.live → Holds (Restorable H) (capture_live_sequence H e)
  unfolding capture_live_sequence
  capture-Holds e s =
      let size = H.state_seq_get_size e.live.memory in
      let got = (H.state_seq_get_data e.live.memory size).0 in
      Holds-if (Restorable H) (not e.has_ctx || length e.live.tokens == 0) none _ tt (
        Holds-if (Restorable H) (ltb size seq_memory_prefix) none _ tt (
          Holds-if (Restorable H) (ltb got seq_memory_prefix || ltb size got) none _ tt
            (f.restores e.live.memory (length e.live.tokens) s)))

  -- Whatever the memory held.
  pub trim_kv_to-IsSound :
      (n : ℕ) (e : LlamaEngine H) → IsParked H e → IsSound H (trim_kv_to H n e).engine
  unfolding trim_kv_to
  trim_kv_to-IsSound n e s =
      let t =
        make_kv_trim-Outcome llama f.clears_all H.hybrid_or_recurrent e.live
          (min n (length e.live.tokens)) in
      rw s.context (record {
        parked = record { context = refl; within = s.within; restorable = s.restorable };
        in_step = t.0;
      })

  empty-InStep :
      (q : Sequence llama)
      → InStep llama q
      → q.tokens ≡ []
      → is_neg (llama.seq_pos_max q.memory) ≡ true
  unfolding kv_tail_matches
  empty-InStep q i h = ground arith

  -- Trimming to nothing empties the memory.
  pub trim_to_zero :
      (e : LlamaEngine H)
      → IsParked H e
      → is_neg (llama.seq_pos_max (trim_kv_to H 0 e).engine.live.memory) ≡ true
  unfolding trim_kv_to
  trim_to_zero e s =
      let n = min 0 (length e.live.tokens) in
      let t = make_kv_trim-Outcome llama f.clears_all H.hybrid_or_recurrent e.live n in
      let zero_tokens : n ≡ 0 = omega arith in
      rw s.context (
        empty-InStep (make_kv_trim llama H.hybrid_or_recurrent e.live n).sequence t.0 (elim t.1 [
          | inl kept ↦ kept.1 ∙ ap (λ n. take n e.live.tokens) zero_tokens
          | inr dropped ↦ dropped.1
        ]))

  is_some : {A : Type 0} (b : Bool) (x y : A) → (if b then some x else none) ≡ some y → b ≡ true
  is_some true x y h = refl
  is_some false x y h = cc

  if_some : {A : Type 0} (b : Bool) (x y : A) → (if b then some x else none) ≡ some y → x ≡ y
  if_some true x y h = cc
  if_some false x y h = cc

  -- What `load` returns into an empty memory is as long as the memory's last position says.
  pub kv_load-matches :
      (has_ctx : Bool) (id : Bytes) (s : files.Store) (m : llama.Memory) (tokens : List ℕ)
      → is_neg (llama.seq_pos_max m) ≡ true
      → (kv_load H has_ctx id s m).0 ≡ some tokens
      → kv_tail_matches (length tokens) (llama.seq_pos_max (kv_load H has_ctx id s m).1) ≡ true
  unfolding kv_load memory_after
  kv_load-matches has_ctx id s m tokens empty h =
      let seq = H.state_seq_load_file (files.content id s) m in
      let r = files.load has_ctx (λ count. (seq count).0) id s in
      let (on, l) = files.reads has_ctx (λ count. (seq count).0) id s (is_some r.loaded _ _ h) in
      let fits : (seq l.count).0.loaded_count ≤ length (seq l.count).0.ids =
        omega (arith, l.within, f.fills (files.content id s) m l.count) in
      let size : (seq l.count).0.loaded_count ≡ length tokens = sym (
        ap length (sym (if_some r.loaded _ _ h) ∙ l.same)
        ∙ length-take_of_le (seq l.count).0.loaded_count (seq l.count).0.ids fits) in
      rw (on, l.counted, l.positive)
        (subst (λ n. kv_tail_matches n (llama.seq_pos_max (seq l.count).1) ≡ true) size
          (f.loads (files.content id s) m l.count empty l.read))

  -- What is parked in RAM stays within the limit, and each snapshot there can be restored.
  pub store_captured-Sound :
      (id : Bytes) (o : Option SessionSnapshot) (p : Parking files)
      → Holds (Restorable H) o
      → IsWithin p.memory
      → Everywhere (Restorable H) p.memory
      → IsWithin (store_captured H id o p).parking.memory
        × Everywhere (Restorable H) (store_captured H id o p).parking.memory
  unfolding store_captured
  store_captured-Sound id none p q w h = (w, h)
  store_captured-Sound id (some x) p q w h = (
    store_snapshot-IsWithin files id x p w,
    store_snapshot-Everywhere (Restorable H) files id x p q w h,
  )

  write_live_to_disk-IsParked :
      (id : Bytes) (e : LlamaEngine H) → IsParked H e → IsParked H (write_live_to_disk H id e)
  unfolding write_live_to_disk
  write_live_to_disk-IsParked id e s = record {
    context = s.context;
    within = erase-IsWithin id e.parking.memory s.within;
    restorable =
        unfold Memory.erase in
        erase-Everywhere (Restorable H) id e.parking.memory s.within.consistent.distinct
          s.restorable;
  }

  pub if_IsSound :
      (b : Bool) (e e' : LlamaEngine H)
      → IsSound H e
      → IsSound H e'
      → IsSound H (if b then e else e')
  if_IsSound true e e' s s' = s
  if_IsSound false e e' s s' = s'

  if_IsParked :
      (b : Bool) (e e' : LlamaEngine H)
      → IsParked H e
      → IsParked H e'
      → IsParked H (if b then e else e')
  if_IsParked true e e' s s' = s
  if_IsParked false e e' s s' = s'

  pub park_active_session-IsParked :
      (e : LlamaEngine H) → IsSound H e → IsParked H (park_active_session H e)
  unfolding park_active_session
  park_active_session-IsParked e s =
      let id = e.active_session_id in
      let p = s.parked in
      let r = store_captured H id (capture_live_sequence H e) e.parking in
      let c =
        store_captured-Sound id (capture_live_sequence H e) e.parking (capture-Holds e s.in_step)
          p.within p.restorable in
      let s' : IsParked H (record e { parking = r.parking }) = record {
        context = p.context;
        within = c.0;
        restorable = c.1;
      } in
      if_IsParked (length id == 0 || not e.has_ctx || length e.live.tokens == 0) e _ p (
        if_IsParked (H.session_memory_bytes == 0) (write_live_to_disk H id e) _
          (write_live_to_disk-IsParked id e p)
          (if_IsParked r.stored _ _ s' (write_live_to_disk-IsParked id _ s')))
