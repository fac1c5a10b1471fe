-- ===== src/Engine/Parking/Track.antt =====
-- Where one parked session is through the parts of `store_snapshot` and `flush_parked_sessions`
-- (src/server/llm/llm_engine.cpp): definitions and lemmas.
use llama_onprem_server.Prelude.{
  ◌≡◌, ◌≢◌, ◌⊎◌, inl, inr, subst, true, false, Option, none, some, Bytes,
}
use llama_onprem_server.Engine.KvStore.{KvStore}
use llama_onprem_server.Park.Memory.{find}
use llama_onprem_server.Park.Snapshot.{SessionSnapshot}
use llama_onprem_server.Engine.Parking.{Parking}

module _ (K : KvStore) where
  -- The steps of the store from one state to another that leave the file of session `j` alone: saves
  -- of other sessions, saves that fail, the expiry of old files, and removals of other sessions.
  pub data Undisturbed (j : Bytes) : K.Store → K.Store → Type 0 where
    stays : {s : K.Store} → Undisturbed j s s
    saves :
        {s t : K.Store} (id : Bytes) (x : SessionSnapshot)
        → id ≢ j
        → Undisturbed j (K.save_captured id x s).1 t
        → Undisturbed j s t
    fails :
        {s t : K.Store} (id : Bytes) (x : SessionSnapshot)
        → (K.save_captured id x s).0 ≡ false
        → Undisturbed j (K.save_captured id x s).1 t
        → Undisturbed j s t
    trims : {s t : K.Store} → Undisturbed j (K.trim s) t → Undisturbed j s t
    removes :
        {s t : K.Store} (id : Bytes) → id ≢ j → Undisturbed j (K.remove id s) t → Undisturbed j s t

  -- On the way the session was saved, and its file was left alone before and afterwards.
  pub record SavedDuring (j : Bytes) (y : SessionSnapshot) (s t : K.Store) : Type 0 where
    pub before : K.Store
    pub lead : Undisturbed j s before
    pub saved : (K.save_captured j y before).0 ≡ true
    pub rest : Undisturbed j (K.save_captured j y before).1 t

  -- A session with this snapshot in RAM at `p` still has it at `q`, or was saved on the way. A
  -- session that was not in RAM is not in RAM, and its file was left alone.
  abbrev pub After : Bytes → Option SessionSnapshot → Parking K → Parking K → Type 0
  After j none p q = (find j q.memory ≡ none) × Undisturbed j p.store q.store
  After j (some y) p q =
      ((find j q.memory ≡ some y) × Undisturbed j p.store q.store)
      ⊎ ((find j q.memory ≡ none) × SavedDuring j y p.store q.store)

  pub Undisturbed-trans :
      {j : Bytes} {s t u : K.Store} → Undisturbed j s t → Undisturbed j t u → Undisturbed j s u
  Undisturbed-trans stays v = v
  Undisturbed-trans (saves id x h r) v = saves id x h (Undisturbed-trans r v)
  Undisturbed-trans (fails id x h r) v = fails id x h (Undisturbed-trans r v)
  Undisturbed-trans (trims r) v = trims (Undisturbed-trans r v)
  Undisturbed-trans (removes id h r) v = removes id h (Undisturbed-trans r v)

  pub unmoved :
      (j : Bytes) (o : Option SessionSnapshot) (p q : Parking K)
      → find j q.memory ≡ o
      → Undisturbed j p.store q.store
      → After j o p q
  unmoved j none p q e u = (e, u)
  unmoved j (some y) p q e u = inl (e, u)

  pub After-trans :
      (j : Bytes) (o : Option SessionSnapshot) (p q r : Parking K)
      → After j o p q
      → After j (find j q.memory) q r
      → After j o p r
  After-trans j none p q r (e, u) a =
      let a' : After j none q r = subst (λ o. After j o q r) e a in (a'.0, Undisturbed-trans u a'.1)
  After-trans j (some y) p q r (inl (e, u)) a =
      let a' : After j (some y) q r = subst (λ o. After j o q r) e a in
      elim a' [
        | inl k ↦ inl (k.0, Undisturbed-trans u k.1)
        | inr s ↦ inr (
          s.0,
          record {
            before = s.1.before;
            lead = Undisturbed-trans u s.1.lead;
            saved = s.1.saved;
            rest = s.1.rest;
          },
        )
      ]
  After-trans j (some y) p q r (inr (e, s)) a =
      let a' : After j none q r = subst (λ o. After j o q r) e a in
      inr (
        a'.0,
        record {
          before = s.before;
          lead = s.lead;
          saved = s.saved;
          rest = Undisturbed-trans s.rest a'.1;
        },
      )
