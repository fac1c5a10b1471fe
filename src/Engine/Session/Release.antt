-- ===== src/Engine/Session/Release.antt =====
-- Theorems about `release_session` (src/server/llm/llm_engine.cpp).
use llama_onprem_server.Prelude.{
  ◌≡◌, ◌⊎◌, inl, inr, refl, ap, ◌∙◌, arith, true, false, [], none, take, length, min, Bytes,
  bytes_eq, Bool-cases, if◌then◌else◌,
}
use llama_onprem_server.Engine.Parking.Contents.{erase-Everywhere}
use llama_onprem_server.Engine.Session.{Host, LlamaEngine, trim_kv_to, release_session}
use llama_onprem_server.Engine.Session.InStep.{
  Restorable, Faithful, IsParked, IsSound, trim_kv_to-IsSound,
}
use llama_onprem_server.Kv.Trim.Outcome.{make_kv_trim-Outcome}
use llama_onprem_server.Park.Memory
use llama_onprem_server.Park.Memory.{find}
use llama_onprem_server.Park.Memory.Limit.{erase-IsWithin}
use llama_onprem_server.Park.Memory.Lookup.{find-take}

-- From `e` to `e'` the session `id` left RAM and no other did, the store removed its file, and the
-- live sequence lost its tokens if it is that session and is as before if it is another.
pub record IsReleased (H : Host) (id : Bytes) (e e' : LlamaEngine H) : Type 0 where
  pub in_ram :
      (j : Bytes)
      → find j e'.parking.memory ≡ (if bytes_eq id j then none else find j e.parking.memory)
  pub on_disk : e'.parking.store ≡ H.files.remove id e.parking.store
  pub live :
      ((bytes_eq e.active_session_id id ≡ true) × (e'.live.tokens ≡ []))
      ⊎ ((bytes_eq e.active_session_id id ≡ false)
          × (e'.live ≡ e.live)
          × (e'.message_ends ≡ e.message_ends))
  pub still_active : e'.active_session_id ≡ e.active_session_id

module _ (H : Host) (f : Faithful H) where
  open H use {llama, files}

  trim_to_zero-tokens :
      (e : LlamaEngine H) → IsParked H e → (trim_kv_to H 0 e).engine.live.tokens ≡ []
  unfolding trim_kv_to
  trim_to_zero-tokens e s =
      let n = min 0 (length e.live.tokens) in
      let t = make_kv_trim-Outcome llama f.clears_all H.hybrid_or_recurrent e.live n in
      let zero_tokens : n ≡ 0 = omega arith in
      rw s.context (elim t.1 [
        | inl kept ↦ kept.1 ∙ ap (λ n. take n e.live.tokens) zero_tokens
        | inr dropped ↦ dropped.1
      ])

  trim_kv_to-parking :
      (e : LlamaEngine H) → IsParked H e → (trim_kv_to H 0 e).engine.parking ≡ e.parking
  unfolding trim_kv_to
  trim_kv_to-parking e s = rw s.context refl

  trim_kv_to-active :
      (e : LlamaEngine H)
      → IsParked H e
      → (trim_kv_to H 0 e).engine.active_session_id ≡ e.active_session_id
  unfolding trim_kv_to
  trim_kv_to-active e s = rw s.context refl

  -- For a llama.cpp that is `Faithful` and a sound engine, `release_session` leaves a sound engine
  -- in which the session is not in RAM and every other one is found there as before, the store has
  -- removed the session's file, the live sequence has no token if the session is the active one, and
  -- is unchanged if it is not.
  pub release_session-IsReleased :
      (id : Bytes) (e : LlamaEngine H)
      → IsSound H e
      → IsSound H (release_session H id e) × IsReleased H id e (release_session H id e)
  unfolding release_session
  release_session-IsReleased id e s =
      let p = s.parked in
      let memory = Memory.erase id e.parking.memory in
      let e' : LlamaEngine H = record e {
        parking = record { memory = memory; store = files.remove id e.parking.store };
      } in
      let p' : IsParked H e' = record {
        context = p.context;
        within = erase-IsWithin id e.parking.memory p.within;
        restorable =
            unfold Memory.erase in
            erase-Everywhere (Restorable H) id e.parking.memory p.within.consistent.distinct
              p.restorable;
      } in
      let found : (j : Bytes)
          → find j memory ≡ (if bytes_eq id j then none else find j e.parking.memory) =
        λ j.
          unfold Memory.erase in (find-take id j e.parking.memory p.within.consistent.distinct).1 in
      let kept = trim_kv_to-parking e' p' in
      elim (Bool-cases (bytes_eq e.active_session_id id)) [
        | inl same ↦ rw same (
          trim_kv_to-IsSound H f 0 e' p',
          record {
            in_ram = λ j. ap (λ q. find j q.memory) kept ∙ found j;
            on_disk = ap (λ q. q.store) kept;
            live = inl (same, trim_to_zero-tokens e' p');
            still_active = trim_kv_to-active e' p';
          },
        )
        | inr differs ↦ rw differs (
          record { parked = p'; in_step = s.in_step },
          record {
            in_ram = found;
            on_disk = refl;
            live = inr (differs, refl, refl);
            still_active = refl;
          },
        )
      ]
