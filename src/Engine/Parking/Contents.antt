-- ===== src/Engine/Parking/Contents.antt =====
-- Lemmas about a property of all snapshots in RAM, through the parts of `store_snapshot`
-- (src/server/llm/llm_engine.cpp).
use llama_onprem_server.Prelude.{
  inl, inr, Bool, true, false, List, [], ◌∷◌, Option, none, some, Bytes, Bool-cases, bytes_eq,
  length, ltb, ◌==◌, ◌||◌, if◌then◌else◌,
}
use llama_onprem_server.Engine.KvStore.{KvStore}
use llama_onprem_server.Engine.Parking.{
  Parking, Spilling, spilled, returned, save_and_trim, save_incoming, save_taken, spill_session,
  spill_loop, admit_spilled, store_snapshot,
}
use llama_onprem_server.Park.Memory.{SessionMemory, find, take, erase, insert, plan}
use llama_onprem_server.Park.Memory.Accounts.{take-IsConsistent}
use llama_onprem_server.Park.Memory.Limit.{IsWithin}
use llama_onprem_server.Park.Memory.Lookup.{Distinct, find-take, find-insert}
use llama_onprem_server.Park.Snapshot.{SessionSnapshot, parked_session_bytes}
use llama_onprem_server.Store.Files.{seq_memory_prefix}
use llama_onprem_server.Engine.Parking.Bounds.{spill_session-IsWithin}

abbrev pub Holds : (SessionSnapshot → Type 0) → Option SessionSnapshot → Type 0
Holds P none = Unit {0}
Holds P (some x) = P x

-- Each snapshot that is found has the property.
abbrev pub Everywhere : (SessionSnapshot → Type 0) → SessionMemory → Type 0
Everywhere P m = (j : Bytes) → Holds P (find j m)

pub Holds-if :
    (P : SessionSnapshot → Type 0) (b : Bool) (o o' : Option SessionSnapshot)
    → Holds P o
    → Holds P o'
    → Holds P (if b then o else o')
Holds-if P true o o' h h' = h
Holds-if P false o o' h h' = h'

module _ (P : SessionSnapshot → Type 0) where
  pub erase-Everywhere :
      (id : Bytes) (m : SessionMemory)
      → Distinct m.entries
      → Everywhere P m
      → Everywhere P (take id m).memory
  erase-Everywhere id m d h j =
      rw (find-take id j m d).1 (Holds-if P (bytes_eq id j) none (find j m) tt (h j))

  pub insert-Everywhere :
      (id : Bytes) (x : SessionSnapshot) (m : SessionMemory)
      → Distinct m.entries
      → P x
      → Everywhere P m
      → Everywhere P (insert id x m)
  insert-Everywhere id x m d p h j =
      rw (find-insert id j x m d) (Holds-if P (bytes_eq id j) (some x) (find j m) p (h j))

  pub take-Holds :
      (id : Bytes) (m : SessionMemory)
      → Distinct m.entries
      → Everywhere P m
      → Holds P (take id m).snapshot
  take-Holds id m d h = rw (find-take id id m d).0 (h id)

  module _ (K : KvStore) where
    save_taken-Everywhere :
        (id : Bytes) (o : Option SessionSnapshot) (m : SessionMemory) (s : K.Store)
        → Distinct m.entries
        → Holds P o
        → Everywhere P m
        → Everywhere P (save_taken K id o m s).parking.memory
    unfolding save_taken
    save_taken-Everywhere id none m s d p h = h
    save_taken-Everywhere id (some x) m s d p h = elim (Bool-cases (save_and_trim K id x s).0) [
      | inl ok ↦ rw ok h
      | inr bad ↦ rw bad (insert-Everywhere id x m d p h)
    ]

    spill_session-Everywhere :
        (id : Bytes) (p : Parking K)
        → IsWithin p.memory
        → Everywhere P p.memory
        → Everywhere P (spill_session K id p).parking.memory
    unfolding spill_session
    spill_session-Everywhere id p w h =
        let d = w.consistent.distinct in
        save_taken-Everywhere id (take id p.memory).snapshot (take id p.memory).memory p.store
          (take-IsConsistent id p.memory w.consistent).distinct (take-Holds id p.memory d h)
          (erase-Everywhere id p.memory d h)

    save_incoming-Everywhere :
        (id : Bytes) (x : SessionSnapshot) (p : Parking K)
        → IsWithin p.memory
        → Everywhere P p.memory
        → Everywhere P (save_incoming K id x p).parking.memory
    unfolding save_incoming erase
    save_incoming-Everywhere id x p w h = erase-Everywhere id p.memory w.consistent.distinct h

    abbrev SpillContents : Spilling K → Type 0
    SpillContents (spilled p) = IsWithin p.memory × Everywhere P p.memory
    SpillContents (returned r) = Everywhere P r.parking.memory

    spill_loop-SpillContents :
        (id : Bytes) (x : SessionSnapshot) (ids : List Bytes) (p : Parking K)
        → IsWithin p.memory
        → Everywhere P p.memory
        → SpillContents (spill_loop K id x ids p)
    unfolding spill_loop
    spill_loop-SpillContents id x [] p w h = (w, h)
    spill_loop-SpillContents id x (i ∷ ids) p w h =
        let r = spill_session K i p in
        let w' = spill_session-IsWithin K i p w in
        let h' = spill_session-Everywhere i p w h in
        elim (Bool-cases r.stored) [
          | inl ok ↦ rw ok (spill_loop-SpillContents id x ids r.parking w' h')
          | inr bad ↦ rw bad (save_incoming-Everywhere id x r.parking w' h')
        ]

    admit_spilled-Everywhere :
        (id : Bytes) (x : SessionSnapshot) (s : Spilling K)
        → P x
        → SpillContents s
        → Everywhere P (admit_spilled K id x s).parking.memory
    unfolding admit_spilled
    admit_spilled-Everywhere id x (spilled p) q (w, h) =
        insert-Everywhere id x p.memory w.consistent.distinct q h
    admit_spilled-Everywhere id x (returned r) q h = h

    pub store_snapshot-Everywhere :
        (id : Bytes) (x : SessionSnapshot) (p : Parking K)
        → P x
        → IsWithin p.memory
        → Everywhere P p.memory
        → Everywhere P (store_snapshot K id x p).parking.memory
    unfolding store_snapshot
    store_snapshot-Everywhere id x p q w h =
        let admit = plan (parked_session_bytes x) id p.memory in
        elim (Bool-cases (length x.tokens == 0 || ltb (length x.state) seq_memory_prefix)) [
          | inl bad ↦ rw bad h
          | inr good ↦ elim (Bool-cases admit.keep_incoming) [
            | inl keep ↦
                rw (good, keep)
                  (admit_spilled-Everywhere id x _ q
                    (spill_loop-SpillContents id x admit.spill p w h))
            | inr drop ↦ rw (good, drop) (save_incoming-Everywhere id x p w h)
          ]
        ]
