-- ===== src/Engine/Parking/Result.antt =====
-- Theorems about the result of `store_snapshot` and about a whole `flush_parked_sessions`
-- (src/server/llm/llm_engine.cpp).
use llama_onprem_server.Prelude.{
  ◌≡◌, ◌⊎◌, inl, inr, refl, ap, ◌∙◌, arith, true, false, List, [], ◌∷◌, none, some, Bytes,
  Bool-cases, bytes_eq_refl, length, ltb, ◌==◌, ◌||◌,
}
use llama_onprem_server.Engine.KvStore.{KvStore}
use llama_onprem_server.Park.Memory.{find, take, erase, plan, ids_oldest_first}
use llama_onprem_server.Park.Memory.Limit.{IsWithin}
use llama_onprem_server.Park.Memory.Lookup.{Distinct, find-take, find-insert}
use llama_onprem_server.Park.Memory.Spill.{spill_all, spill_all-ids_oldest_first}
use llama_onprem_server.Park.Snapshot.{SessionSnapshot, parked_session_bytes}
use llama_onprem_server.Store.Files.{seq_memory_prefix}
use llama_onprem_server.Engine.Parking.{
  Parking, Stored, Spilling, spilled, returned, save_and_trim, save_incoming, spill_session,
  spill_loop, admit_spilled, store_snapshot, flush_loop, flush_parked_sessions,
}
use llama_onprem_server.Engine.Parking.Bounds.{spill_session-IsWithin, spill_session-erases}

module _ (K : KvStore) where
  -- The store is what a successful save of the session left, behind the expiry of old files.
  pub record SavedLast (id : Bytes) (x : SessionSnapshot) (t : K.Store) : Type 0 where
    pub before : K.Store
    pub saved : (K.save_captured id x before).0 ≡ true
    pub then_trimmed : t ≡ K.trim (K.save_captured id x before).1

  abbrev pub Placed : Bytes → SessionSnapshot → Parking K → Type 0
  Placed id x p = (find id p.memory ≡ some x) ⊎ ((find id p.memory ≡ none) × SavedLast id x p.store)

  -- True says that the session is placed.
  abbrev pub Honest : Bytes → SessionSnapshot → Stored K → Type 0
  Honest id x r = ((r.stored ≡ true) × Placed id x r.parking) ⊎ (r.stored ≡ false)

  save_incoming-Honest :
      (id : Bytes) (x : SessionSnapshot) (p : Parking K)
      → Distinct p.memory.entries
      → Honest id x (save_incoming K id x p)
  unfolding save_incoming save_and_trim erase
  save_incoming-Honest id x p d =
      let gone : find id (take id p.memory).memory ≡ none =
        ground (arith, (find-take id id p.memory d).1, bytes_eq_refl id) in
      elim (Bool-cases (K.save_captured id x p.store).0) [
        | inl ok ↦
            rw ok
              (inl (refl, inr (gone, record { before = p.store; saved = ok; then_trimmed = refl })))
        | inr bad ↦ rw bad (inr refl)
      ]

  abbrev SpillHonest : Bytes → SessionSnapshot → Spilling K → Type 0
  SpillHonest id x (spilled p) = Distinct p.memory.entries
  SpillHonest id x (returned r) = Honest id x r

  spill_loop-SpillHonest :
      (id : Bytes) (x : SessionSnapshot) (ids : List Bytes) (p : Parking K)
      → IsWithin p.memory
      → SpillHonest id x (spill_loop K id x ids p)
  unfolding spill_loop
  spill_loop-SpillHonest id x [] p w = w.consistent.distinct
  spill_loop-SpillHonest id x (i ∷ ids) p w =
      let r = spill_session K i p in
      let w' = spill_session-IsWithin K i p w in
      elim (Bool-cases r.stored) [
        | inl ok ↦ rw ok (spill_loop-SpillHonest id x ids r.parking w')
        | inr bad ↦ rw bad (save_incoming-Honest id x r.parking w'.consistent.distinct)
      ]

  admit_spilled-Honest :
      (id : Bytes) (x : SessionSnapshot) (s : Spilling K)
      → SpillHonest id x s
      → Honest id x (admit_spilled K id x s)
  unfolding admit_spilled
  admit_spilled-Honest id x (spilled p) d =
      inl (refl, inl (ground (arith, find-insert id id x p.memory d, bytes_eq_refl id)))
  admit_spilled-Honest id x (returned r) h = h

  -- If the accounts of RAM are right and within the limit, and `store_snapshot` returns true, the
  -- session is in RAM with this snapshot, or it is not in RAM and the last thing that happened to
  -- the store is its successful save, behind which only old files expired.
  pub store_snapshot-Honest :
      (id : Bytes) (x : SessionSnapshot) (p : Parking K)
      → IsWithin p.memory
      → Honest id x (store_snapshot K id x p)
  unfolding store_snapshot
  store_snapshot-Honest id x p w =
      let admit = plan (parked_session_bytes x) id p.memory in
      elim (Bool-cases (length x.tokens == 0 || ltb (length x.state) seq_memory_prefix)) [
        | inl bad ↦ rw bad (inr refl)
        | inr good ↦ elim (Bool-cases admit.keep_incoming) [
          | inl keep ↦
              rw (good, keep)
                (admit_spilled-Honest id x _ (spill_loop-SpillHonest id x admit.spill p w))
          | inr drop ↦ rw (good, drop) (save_incoming-Honest id x p w.consistent.distinct)
        ]
      ]

  -- Every spill of the loop saves, each in the state that the ones before it leave.
  abbrev pub SavesAlong : List Bytes → Parking K → Type 0
  SavesAlong [] p = Unit {0}
  SavesAlong (id ∷ ids) p =
      ((spill_session K id p).stored ≡ true) × SavesAlong ids (spill_session K id p).parking

  flush_loop-memory :
      (ids : List Bytes) (p : Parking K)
      → SavesAlong ids p
      → (flush_loop K ids p).memory ≡ spill_all ids p.memory
  unfolding flush_loop spill_all
  flush_loop-memory [] p h = refl
  flush_loop-memory (id ∷ ids) p h =
      flush_loop-memory ids (spill_session K id p).parking h.1
      ∙ ap (spill_all ids) (spill_session-erases K id p h.0)

  -- If each spill of the run saves its session, `flush_parked_sessions` leaves no session in RAM.
  pub flush_parked_sessions-empties :
      (p : Parking K)
      → SavesAlong (ids_oldest_first p.memory) p
      → (flush_parked_sessions K p).memory.entries ≡ []
  unfolding flush_parked_sessions
  flush_parked_sessions-empties p h =
      ap (λ m. m.entries) (flush_loop-memory (ids_oldest_first p.memory) p h)
      ∙ spill_all-ids_oldest_first p.memory
