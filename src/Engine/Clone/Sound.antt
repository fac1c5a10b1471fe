-- ===== src/Engine/Clone/Sound.antt =====
-- Theorems about `clone_session` (src/server/llm/llm_engine.cpp).
use llama_onprem_server.Prelude.{
  ◌≡◌, refl, Bool, true, false, not, ◌||◌, Option, none, some, Bytes, bytes_eq, length, ◌==◌,
  if◌then◌else◌,
}
use llama_onprem_server.Engine.Parking.{Parking}
use llama_onprem_server.Engine.Parking.Bounds.{store_snapshot-IsWithin}
use llama_onprem_server.Engine.Parking.Contents.{Holds, Everywhere, store_snapshot-Everywhere}
use llama_onprem_server.Engine.Session.{
  Host, LlamaEngine, capture_live_sequence, store_captured, save_live,
}
use llama_onprem_server.Engine.Session.InStep.{
  Restorable, Faithful, IsSound, capture-Holds, store_captured-Sound, if_IsSound,
}
use llama_onprem_server.Park.Memory
use llama_onprem_server.Park.Memory.Limit.{IsWithin}
use llama_onprem_server.Park.Snapshot.{SessionSnapshot}
use llama_onprem_server.Engine.Clone.{clone_live, clone_parked, clone_session}

module _ (H : Host) where
  -- The live sequence and the active id are as before.
  abbrev pub SameLive : LlamaEngine H → LlamaEngine H → Type 0
  SameLive e e' = (e'.live ≡ e.live) × (e'.active_session_id ≡ e.active_session_id)

module _ (H : Host) (f : Faithful H) where
  open H use {llama, files}

  clone_live-IsSound :
      (to : Bytes) (e : LlamaEngine H) → IsSound H e → IsSound H (clone_live H to e)
  unfolding clone_live
  clone_live-IsSound to e s =
      let p = s.parked in
      let o = capture_live_sequence H e in
      let r = store_captured H to o e.parking in
      let c =
        store_captured-Sound H f to o e.parking (capture-Holds H f e s.in_step) p.within
          p.restorable in
      let e' = if H.session_memory_bytes == 0 then e else record e { parking = r.parking } in
      let s' : IsSound H e' = if_IsSound H f (H.session_memory_bytes == 0) e _ s (record {
        parked = record { context = p.context; within = c.0; restorable = c.1 };
        in_step = s.in_step;
      }) in
      let d : LlamaEngine H = record e' {
        parking = record e'.parking { store = (save_live H to e').1 };
      } in
      let direct : IsSound H d = record {
        parked = record {
          context = s'.parked.context;
          within = s'.parked.within;
          restorable = s'.parked.restorable;
        };
        in_step = s'.in_step;
      } in
      if_IsSound H f (not e.has_ctx || length e.live.tokens == 0) e _ s (
        if_IsSound H f (not (H.session_memory_bytes == 0)) _ _
          (if_IsSound H f r.stored e' _ s' direct) direct)

  if_same :
      (b : Bool) (e x y : LlamaEngine H)
      → SameLive H e x
      → SameLive H e y
      → SameLive H e (if b then x else y)
  if_same true e x y h h' = h
  if_same false e x y h h' = h'

  clone_live-SameLive : (to : Bytes) (e : LlamaEngine H) → SameLive H e (clone_live H to e)
  unfolding clone_live
  clone_live-SameLive to e =
      let r = store_captured H to (capture_live_sequence H e) e.parking in
      let e' = if H.session_memory_bytes == 0 then e else record e { parking = r.parking } in
      let same : SameLive H e e' =
        if_same (H.session_memory_bytes == 0) e e _ (refl, refl) (refl, refl) in
      if_same (not e.has_ctx || length e.live.tokens == 0) e e _ (refl, refl)
        (if_same (not (H.session_memory_bytes == 0)) e _ _ (if_same r.stored e e' _ same same) same)

  clone_parked-Sound :
      (from to : Bytes) (o : Option SessionSnapshot) (p : Parking files)
      → Holds (Restorable H) o
      → IsWithin p.memory
      → Everywhere (Restorable H) p.memory
      → IsWithin (clone_parked H from to o p).memory
        × Everywhere (Restorable H) (clone_parked H from to o p).memory
  unfolding clone_parked
  clone_parked-Sound from to none p q w h = (w, h)
  clone_parked-Sound from to (some x) p q w h = (
    store_snapshot-IsWithin files to x p w,
    store_snapshot-Everywhere (Restorable H) files to x p q w h,
  )

  -- For a llama.cpp that is `Faithful`, `clone_session` keeps the engine sound, and the live
  -- sequence and the active id are as before, whatever fails.
  pub clone_session-IsSound :
      (from to : Bytes) (e : LlamaEngine H)
      → IsSound H e
      → IsSound H (clone_session H from to e) × SameLive H e (clone_session H from to e)
  unfolding clone_session
  clone_session-IsSound from to e s =
      let p = s.parked in
      let c =
        clone_parked-Sound from to (Memory.find from e.parking.memory) e.parking (p.restorable from)
          p.within p.restorable in
      (
        if_IsSound H f (length from == 0 || length to == 0 || bytes_eq from to) e _ s (
            if_IsSound H f (bytes_eq from e.active_session_id) _ _ (clone_live-IsSound to e s)
              (record {
                parked = record { context = p.context; within = c.0; restorable = c.1 };
                in_step = s.in_step;
              })),
        if_same (length from == 0 || length to == 0 || bytes_eq from to) e e _ (refl, refl)
            (if_same (bytes_eq from e.active_session_id) e _ _ (clone_live-SameLive to e)
              (refl, refl)),
      )
