-- ===== src/Engine/Parking/Keeps.antt =====
-- Theorems about the other sessions in `store_snapshot` and `flush_parked_sessions`
-- (src/server/llm/llm_engine.cpp).
use llama_onprem_server.Prelude.{
  ◌≡◌, ◌≢◌, inl, inr, refl, sym, subst, arith, List, [], ◌∷◌, Option, none, some, Bytes, Bool-cases,
  bytes_eq, bytes_eq_iff, bytes_eq_refl, length, ltb, ◌==◌, ◌||◌,
}
use llama_onprem_server.Engine.KvStore.{KvStore}
use llama_onprem_server.Park.Memory.{SessionMemory, find, take, erase, plan, ids_oldest_first}
use llama_onprem_server.Park.Memory.Accounts.{take-IsConsistent}
use llama_onprem_server.Park.Memory.Limit.{IsWithin}
use llama_onprem_server.Park.Memory.Lookup.{Distinct, find-take, find-insert}
use llama_onprem_server.Park.Snapshot.{SessionSnapshot, parked_session_bytes}
use llama_onprem_server.Store.Disk.{bytes_eq_ne}
use llama_onprem_server.Store.Files.{seq_memory_prefix}
use llama_onprem_server.Engine.Parking.{
  Parking, Spilling, spilled, returned, save_and_trim, save_incoming, save_taken, spill_session,
  spill_loop, admit_spilled, store_snapshot, flush_loop, flush_parked_sessions,
}
use llama_onprem_server.Engine.Parking.Bounds.{spill_session-IsWithin, save_incoming-IsWithin}
use llama_onprem_server.Engine.Parking.Track.{
  Undisturbed, stays, saves, fails, trims, removes, After, unmoved, After-trans,
}

module _ (K : KvStore) where
  -- A save of another session, with the expiry of old files behind a success.
  save_and_trim_other :
      (j id : Bytes) (x : SessionSnapshot) (s : K.Store)
      → id ≢ j
      → Undisturbed K j s (save_and_trim K id x s).1
  unfolding save_and_trim
  save_and_trim_other j id x s h = saves id x h (elim (Bool-cases (K.save_captured id x s).0) [
    | inl ok ↦ rw ok (trims stays)
    | inr bad ↦ rw bad stays
  ])

  -- One round for the session itself.
  save_taken_own :
      (j : Bytes) (o : Option SessionSnapshot) (m : SessionMemory) (p : Parking K)
      → Distinct m.entries
      → find j m ≡ none
      → After K j o p (save_taken K j o m p.store).parking
  unfolding save_taken save_and_trim
  save_taken_own j none m p d e = (e, stays)
  save_taken_own j (some y) m p d e = elim (Bool-cases (K.save_captured j y p.store).0) [
    | inl ok ↦
        rw ok (inr (e, record { before = p.store; lead = stays; saved = ok; rest = trims stays }))
    | inr bad ↦
        rw bad (inl ((ground (arith, find-insert j j y m d, bytes_eq_refl j)), fails j y bad stays))
  ]

  save_taken_other :
      (j id : Bytes) (o x : Option SessionSnapshot) (m : SessionMemory) (p : Parking K)
      → id ≢ j
      → Distinct m.entries
      → find j m ≡ o
      → After K j o p (save_taken K id x m p.store).parking
  unfolding save_taken
  save_taken_other j id o none m p h d e = unmoved K j o p _ e stays
  save_taken_other j id o (some x) m p h d e =
      let r = save_and_trim K id x p.store in
      unmoved K j o p _ (ground (arith, find-insert id j x m d, bytes_eq_ne id j h))
        (save_and_trim_other j id x p.store h)

  spill_session_own :
      (j : Bytes) (p : Parking K)
      → IsWithin p.memory
      → After K j (find j p.memory) p (spill_session K j p).parking
  unfolding spill_session
  spill_session_own j p w =
      let t = find-take j j p.memory w.consistent.distinct in
      let d = (take-IsConsistent j p.memory w.consistent).distinct in
      let m = (take j p.memory).memory in
      let gone : find j m ≡ none = ground (arith, t.1, bytes_eq_refl j) in
      subst (λ o. After K j o p (save_taken K j (take j p.memory).snapshot m p.store).parking) t.0
        (save_taken_own j (take j p.memory).snapshot m p d gone)

  spill_session-After :
      (j id : Bytes) (p : Parking K)
      → IsWithin p.memory
      → After K j (find j p.memory) p (spill_session K id p).parking
  unfolding spill_session
  spill_session-After j id p w =
      let t = find-take id j p.memory w.consistent.distinct in
      let d = (take-IsConsistent id p.memory w.consistent).distinct in
      elim (Bool-cases (bytes_eq id j)) [
        | inl same ↦
            subst (λ i. After K j (find j p.memory) p (spill_session K i p).parking)
              (sym ((bytes_eq_iff id j).0 same)) (spill_session_own j p w)
        | inr differs ↦
            save_taken_other j id (find j p.memory) (take id p.memory).snapshot
              (take id p.memory).memory p (λ e. ground (arith, bytes_eq_iff id j)) d
              (ground (arith, t.1))
      ]

  save_incoming-After :
      (j id : Bytes) (x : SessionSnapshot) (p : Parking K)
      → id ≢ j
      → IsWithin p.memory
      → After K j (find j p.memory) p (save_incoming K id x p).parking
  unfolding save_incoming erase
  save_incoming-After j id x p h w =
      unmoved K j (find j p.memory) p _
        (ground (arith, (find-take id j p.memory w.consistent.distinct).1, bytes_eq_ne id j h))
        (save_and_trim_other j id x p.store h)

  abbrev end_of : Spilling K → Parking K
  end_of (spilled p) = p
  end_of (returned r) = r.parking

  spill_loop-After :
      (j id : Bytes) (x : SessionSnapshot) (ids : List Bytes) (p : Parking K)
      → id ≢ j
      → IsWithin p.memory
      → After K j (find j p.memory) p (end_of (spill_loop K id x ids p))
  unfolding spill_loop
  spill_loop-After j id x [] p h w = unmoved K j (find j p.memory) p p refl stays
  spill_loop-After j id x (i ∷ ids) p h w =
      let r = spill_session K i p in
      let w' = spill_session-IsWithin K i p w in
      After-trans K j (find j p.memory) p r.parking _ (spill_session-After j i p w)
        (elim (Bool-cases r.stored) [
          | inl ok ↦ rw ok (spill_loop-After j id x ids r.parking h w')
          | inr bad ↦ rw bad (save_incoming-After j id x r.parking h w')
        ])

  admit_spilled-After :
      (j id : Bytes) (x : SessionSnapshot) (s : Spilling K)
      → id ≢ j
      → Distinct (end_of s).memory.entries
      → After K j (find j (end_of s).memory) (end_of s) (admit_spilled K id x s).parking
  unfolding admit_spilled
  admit_spilled-After j id x (returned r) h d =
      unmoved K j (find j r.parking.memory) r.parking r.parking refl stays
  admit_spilled-After j id x (spilled p) h d =
      unmoved K j (find j p.memory) p _
        (ground (arith, find-insert id j x p.memory d, bytes_eq_ne id j h)) (removes id h stays)

  spill_loop-IsWithin :
      (id : Bytes) (x : SessionSnapshot) (ids : List Bytes) (p : Parking K)
      → IsWithin p.memory
      → IsWithin (end_of (spill_loop K id x ids p)).memory
  unfolding spill_loop
  spill_loop-IsWithin id x [] p w = w
  spill_loop-IsWithin id x (i ∷ ids) p w =
      let r = spill_session K i p in
      let w' = spill_session-IsWithin K i p w in
      elim (Bool-cases r.stored) [
        | inl ok ↦ rw ok (spill_loop-IsWithin id x ids r.parking w')
        | inr bad ↦ rw bad (save_incoming-IsWithin K id x r.parking w')
      ]

  -- If the accounts of RAM are right and within the limit, `store_snapshot` of one session loses no
  -- other: a session in RAM is still there with its snapshot, or that snapshot was saved on the
  -- way; and apart from that save, its file is only touched by the expiry of old files.
  pub store_snapshot-After :
      (j id : Bytes) (x : SessionSnapshot) (p : Parking K)
      → id ≢ j
      → IsWithin p.memory
      → After K j (find j p.memory) p (store_snapshot K id x p).parking
  unfolding store_snapshot
  store_snapshot-After j id x p h w =
      let admit = plan (parked_session_bytes x) id p.memory in
      let s = spill_loop K id x admit.spill p in
      elim (Bool-cases (length x.tokens == 0 || ltb (length x.state) seq_memory_prefix)) [
        | inl bad ↦ rw bad (unmoved K j (find j p.memory) p p refl stays)
        | inr good ↦ elim (Bool-cases admit.keep_incoming) [
          | inl keep ↦
              rw (good, keep)
                (After-trans K j (find j p.memory) p (end_of s) _
                  (spill_loop-After j id x admit.spill p h w)
                  (admit_spilled-After j id x s h
                    (spill_loop-IsWithin id x admit.spill p w).consistent.distinct))
          | inr drop ↦ rw (good, drop) (save_incoming-After j id x p h w)
        ]
      ]

  flush_loop-After :
      (j : Bytes) (ids : List Bytes) (p : Parking K)
      → IsWithin p.memory
      → After K j (find j p.memory) p (flush_loop K ids p)
  unfolding flush_loop
  flush_loop-After j [] p w = unmoved K j (find j p.memory) p p refl stays
  flush_loop-After j (id ∷ ids) p w =
      let q = (spill_session K id p).parking in
      After-trans K j (find j p.memory) p q _ (spill_session-After j id p w)
        (flush_loop-After j ids q (spill_session-IsWithin K id p w))

  -- `flush_parked_sessions` loses no session: each is still in RAM, or was saved, and its file is
  -- otherwise left alone but for the expiry of old files.
  pub flush_parked_sessions-After :
      (j : Bytes) (p : Parking K)
      → IsWithin p.memory
      → After K j (find j p.memory) p (flush_parked_sessions K p)
  unfolding flush_parked_sessions
  flush_parked_sessions-After j p w =
      let q = flush_loop K (ids_oldest_first p.memory) p in
      After-trans K j (find j p.memory) p q _ (flush_loop-After j (ids_oldest_first p.memory) p w)
        (unmoved K j (find j q.memory) q _ refl (trims stays))
