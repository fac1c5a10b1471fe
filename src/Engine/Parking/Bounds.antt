-- ===== src/Engine/Parking/Bounds.antt =====
-- Theorems about the accounts and the limit of RAM in `store_snapshot` and `flush_parked_sessions`
-- (src/server/llm/llm_engine.cpp).
use llama_onprem_server.Prelude.{
  ◌≡◌, inl, inr, refl, subst, arith, true, List, [], ◌∷◌, Option, none, some, Bytes, Bool-cases,
  length, ltb, ◌==◌, ◌||◌,
}
use llama_onprem_server.Engine.KvStore.{KvStore}
use llama_onprem_server.Park.Memory.{SessionMemory, take, erase, insert, plan, ids_oldest_first}
use llama_onprem_server.Park.Memory.Limit.{
  IsWithin, erase-IsWithin, put_back-IsWithin, plan-insert-IsWithin,
}
use llama_onprem_server.Park.Memory.Spill.{spill_all}
use llama_onprem_server.Park.Snapshot.{SessionSnapshot, parked_session_bytes}
use llama_onprem_server.Store.Files.{seq_memory_prefix}
use llama_onprem_server.Engine.Parking.{
  Parking, Spilling, spilled, returned, save_and_trim, save_incoming, save_taken, spill_session,
  spill_loop, admit_spilled, store_snapshot, flush_loop, flush_parked_sessions,
}

module _ (K : KvStore) where
  save_taken-IsWithin :
      (id : Bytes) (m : SessionMemory) (x : Option SessionSnapshot) (s : K.Store)
      → IsWithin m
      → (take id m).snapshot ≡ x
      → IsWithin (save_taken K id x (take id m).memory s).parking.memory
  unfolding save_taken
  save_taken-IsWithin id m none s w h = unfold erase in erase-IsWithin id m w
  save_taken-IsWithin id m (some x) s w h = elim (Bool-cases (save_and_trim K id x s).0) [
    | inl ok ↦ rw ok (unfold erase in erase-IsWithin id m w)
    | inr bad ↦ rw bad (put_back-IsWithin id m x w h)
  ]

  pub spill_session-IsWithin :
      (id : Bytes) (p : Parking K)
      → IsWithin p.memory
      → IsWithin (spill_session K id p).parking.memory
  unfolding spill_session
  spill_session-IsWithin id p w =
      save_taken-IsWithin id p.memory (take id p.memory).snapshot p.store w refl

  pub save_incoming-IsWithin :
      (id : Bytes) (x : SessionSnapshot) (p : Parking K)
      → IsWithin p.memory
      → IsWithin (save_incoming K id x p).parking.memory
  unfolding save_incoming
  save_incoming-IsWithin id x p w = erase-IsWithin id p.memory w

  save_taken-erases :
      (id : Bytes) (x : Option SessionSnapshot) (m : SessionMemory) (s : K.Store)
      → (save_taken K id x m s).stored ≡ true
      → (save_taken K id x m s).parking.memory ≡ m
  unfolding save_taken
  save_taken-erases id none m s h = refl
  save_taken-erases id (some x) m s h = ground arith

  pub spill_session-erases :
      (id : Bytes) (p : Parking K)
      → (spill_session K id p).stored ≡ true
      → (spill_session K id p).parking.memory ≡ erase id p.memory
  unfolding spill_session erase
  spill_session-erases id p h =
      save_taken-erases id (take id p.memory).snapshot (take id p.memory).memory p.store h

  -- Where the loop ran to its end all named sessions left; where it did not, all is within.
  abbrev SpillOutcome : List Bytes → SessionMemory → Spilling K → Type 0
  SpillOutcome ids m (spilled q) = q.memory ≡ spill_all ids m
  SpillOutcome ids m (returned r) = IsWithin r.parking.memory

  spill_loop-SpillOutcome :
      (id : Bytes) (x : SessionSnapshot) (ids : List Bytes) (p : Parking K)
      → IsWithin p.memory
      → SpillOutcome ids p.memory (spill_loop K id x ids p)
  unfolding spill_loop spill_all
  spill_loop-SpillOutcome id x [] p w = refl
  spill_loop-SpillOutcome id x (i ∷ ids) p w =
      let r = spill_session K i p in
      let w' = spill_session-IsWithin i p w in
      elim (Bool-cases r.stored) [
        | inl ok ↦ rw ok (
            subst (λ m. SpillOutcome ids m (spill_loop K id x ids r.parking))
              (spill_session-erases i p ok) (spill_loop-SpillOutcome id x ids r.parking w'))
        | inr bad ↦ rw bad (save_incoming-IsWithin id x r.parking w')
      ]

  admit_spilled-IsWithin :
      (id : Bytes) (x : SessionSnapshot) (ids : List Bytes) (m : SessionMemory) (s : Spilling K)
      → SpillOutcome ids m s
      → IsWithin (insert id x (spill_all ids m))
      → IsWithin (admit_spilled K id x s).parking.memory
  unfolding admit_spilled
  admit_spilled-IsWithin id x ids m (spilled q) o w = rw o w
  admit_spilled-IsWithin id x ids m (returned r) o w = o

  -- If the accounts of the sessions in RAM are right and within the limit before `store_snapshot`,
  -- so they are behind it, whichever saves fail.
  pub store_snapshot-IsWithin :
      (id : Bytes) (x : SessionSnapshot) (p : Parking K)
      → IsWithin p.memory
      → IsWithin (store_snapshot K id x p).parking.memory
  unfolding store_snapshot
  store_snapshot-IsWithin id x p w =
      let admit = plan (parked_session_bytes x) id p.memory in
      elim (Bool-cases (length x.tokens == 0 || ltb (length x.state) seq_memory_prefix)) [
        | inl bad ↦ rw bad w
        | inr good ↦ elim (Bool-cases admit.keep_incoming) [
          | inl keep ↦
              rw (good, keep)
                (admit_spilled-IsWithin id x admit.spill p.memory (spill_loop K id x admit.spill p)
                  (spill_loop-SpillOutcome id x admit.spill p w)
                  (plan-insert-IsWithin id x p.memory w keep))
          | inr drop ↦ rw (good, drop) (save_incoming-IsWithin id x p w)
        ]
      ]

  flush_loop-IsWithin :
      (ids : List Bytes) (p : Parking K) → IsWithin p.memory → IsWithin (flush_loop K ids p).memory
  unfolding flush_loop
  flush_loop-IsWithin [] p w = w
  flush_loop-IsWithin (id ∷ ids) p w =
      flush_loop-IsWithin ids (spill_session K id p).parking (spill_session-IsWithin id p w)

  -- The same holds for `flush_parked_sessions`.
  pub flush_parked_sessions-IsWithin :
      (p : Parking K) → IsWithin p.memory → IsWithin (flush_parked_sessions K p).memory
  unfolding flush_parked_sessions
  flush_parked_sessions-IsWithin p w = flush_loop-IsWithin (ids_oldest_first p.memory) p w
