-- ===== src/Park/Memory/Spill.antt =====
-- Theorems about planning, spilling and inserting together (`SessionMemory`,
-- src/server/llm/session_park.cpp).
use llama_onprem_server.Prelude.{
  ℕ, zero, suc, ◌+◌, ◌≤◌, true, List, [], ◌∷◌, map, none, ◌≡◌, refl, ap, ◌∙◌, arith, Bytes,
  bytes_eq_iff, bytes_eq_refl, u64_max, take as take_first, drop,
}
use llama_onprem_server.Park.Admit.{ParkedBytes, parked_id}
use llama_onprem_server.Park.Admit.Plan.{MakesRoom, total_bytes, plan_memory_admit-MakesRoom}
use llama_onprem_server.Park.Budget.Least.{sum_of}
use llama_onprem_server.Park.Snapshot.{SessionSnapshot, parked_session_bytes}
use llama_onprem_server.Park.Memory.{
  Entry, SessionMemory, find_entry, erase_entry, erase, append_entry, insert, held_without, plan,
  ids_oldest_first,
}
use llama_onprem_server.Park.Memory.Accounts.{
  IsConsistent, entry_bytes, erase-IsConsistent, insert-IsConsistent,
}
use llama_onprem_server.Park.Memory.Lookup.{Distinct, take_entries}

abbrev parked : Entry → ParkedBytes
parked e = record { id = e.id; bytes = e.bytes }

-- The memory once the named sessions have left it.
unfoldable pub spill_all : List Bytes → SessionMemory → SessionMemory
spill_all [] m = m
spill_all (id ∷ ids) m = spill_all ids (erase id m)

erase_entries : List Bytes → List Entry → List Entry
erase_entries [] es = es
erase_entries (id ∷ ids) es = erase_entries ids (erase_entry id es)

erase_entry_comm :
    (a b : Bytes) (es : List Entry)
    → erase_entry a (erase_entry b es) ≡ erase_entry b (erase_entry a es)
unfolding erase_entry
erase_entry_comm a b [] = refl
erase_entry_comm a b (e ∷ es) =
    ground (arith, bytes_eq_iff e.id a, bytes_eq_iff e.id b, erase_entry_comm a b es)

erase_entries_comm :
    (ids : List Bytes) (b : Bytes) (es : List Entry)
    → erase_entry b (erase_entries ids es) ≡ erase_entries ids (erase_entry b es)
unfolding erase_entries
erase_entries_comm [] b es = refl
erase_entries_comm (a ∷ ids) b es =
    erase_entries_comm ids b (erase_entry a es) ∙ ap (erase_entries ids) (erase_entry_comm b a es)

held_without_missing :
    (id : Bytes) (es : List Entry) → find_entry id es ≡ none → held_without id es ≡ map parked es
unfolding held_without find_entry
held_without_missing id [] h = refl
held_without_missing id (e ∷ es) h = ground (arith, held_without_missing id es)

-- `plan` looks at the sessions that are left when the replaced one is taken out.
held_without-eq-erase :
    (id : Bytes) (es : List Entry)
    → Distinct es
    → held_without id es ≡ map parked (erase_entry id es)
unfolding held_without erase_entry
held_without-eq-erase id [] d = refl
held_without-eq-erase id (e ∷ es) d =
    ground
      (arith, bytes_eq_iff e.id id, held_without_missing id es, held_without-eq-erase id es d.1)

take_first-map :
    (k : ℕ) (es : List Entry)
    → map parked_id (take_first k (map parked es)) ≡ map (λ e. e.id) (take_first k es)
take_first-map zero es = refl
take_first-map (suc k) [] = refl
take_first-map (suc k) (e ∷ es) = ap (◌∷◌ e.id) (take_first-map k es)

drop-map :
    (k : ℕ) (es : List Entry)
    → total_bytes (drop k (map parked es)) ≡ sum_of entry_bytes (drop k es)
drop-map zero [] = refl
drop-map zero (e ∷ es) = ap (λ n. e.bytes + n) (drop-map zero es)
drop-map (suc k) [] = refl
drop-map (suc k) (e ∷ es) = drop-map k es

erase_entry_head : (e : Entry) (es : List Entry) → erase_entry e.id (e ∷ es) ≡ es
unfolding erase_entry
erase_entry_head e es = rw (bytes_eq_refl e.id)

-- Spilling a front of the list by its ids leaves the rest.
erase_entries-take_first :
    (k : ℕ) (es : List Entry) → erase_entries (map (λ e. e.id) (take_first k es)) es ≡ drop k es
unfolding erase_entries
erase_entries-take_first zero es = refl
erase_entries-take_first (suc k) [] = refl
erase_entries-take_first (suc k) (e ∷ es) =
    ap (erase_entries (map (λ e. e.id) (take_first k es))) (erase_entry_head e es)
    ∙ erase_entries-take_first k es

spill_all-entries :
    (ids : List Bytes) (m : SessionMemory) → (spill_all ids m).entries ≡ erase_entries ids m.entries
unfolding spill_all erase_entries erase
spill_all-entries [] m = refl
spill_all-entries (id ∷ ids) m =
    spill_all-entries ids (erase id m) ∙ ap (erase_entries ids) (take_entries id m)

erase_entries_all : (es : List Entry) → erase_entries (map (λ e. e.id) es) es ≡ []
unfolding erase_entries
erase_entries_all [] = refl
erase_entries_all (e ∷ es) =
    ap (erase_entries (map (λ e. e.id) es)) (erase_entry_head e es) ∙ erase_entries_all es

-- Once every session was spilled none is parked.
pub spill_all-ids_oldest_first :
    (m : SessionMemory) → (spill_all (ids_oldest_first m) m).entries ≡ []
unfolding ids_oldest_first
spill_all-ids_oldest_first m =
    spill_all-entries (map (λ e. e.id) m.entries) m ∙ erase_entries_all m.entries

pub spill_all-IsConsistent :
    (ids : List Bytes) (m : SessionMemory) → IsConsistent m → IsConsistent (spill_all ids m)
unfolding spill_all
spill_all-IsConsistent [] m c = c
spill_all-IsConsistent (id ∷ ids) m c =
    spill_all-IsConsistent ids (erase id m) (erase-IsConsistent id m c)

pub used-append_entry :
    (id : Bytes) (snapshot : SessionSnapshot) (m : SessionMemory)
    → m.used_bytes + parked_session_bytes snapshot ≤ u64_max
    → (append_entry id snapshot m).used_bytes ≡ m.used_bytes + parked_session_bytes snapshot
unfolding append_entry
used-append_entry id snapshot m h = ground arith

-- The sessions that are left after the spill, without the replaced one.
left_over :
    (id : Bytes) (m : SessionMemory) (incoming : ℕ)
    → IsConsistent m
    → (r : MakesRoom (held_without id m.entries) incoming m.limit_bytes (plan incoming id m).spill)
    → (erase id (spill_all (plan incoming id m).spill m)).used_bytes + incoming ≤ m.limit_bytes
left_over id m incoming c r =
    let spill = (plan incoming id m).spill in
    let es = erase_entry id m.entries in
    let held = held_without-eq-erase id m.entries c.distinct in
    let m' = spill_all spill m in
    let c' = erase-IsConsistent id m' (spill_all-IsConsistent spill m c) in
    let front : spill ≡ map (λ e. e.id) (take_first r.count es) =
      r.oldest ∙ ap (λ h. map parked_id (take_first r.count h)) held ∙ take_first-map r.count es in
    let entries : (erase id m').entries ≡ drop r.count es =
      unfold erase in
      (take_entries id m'
        ∙ ap (erase_entry id) (spill_all-entries spill m)
        ∙ erase_entries_comm spill id m.entries
        ∙ ap (λ ids. erase_entries ids es) front
        ∙ erase_entries-take_first r.count es) in
    let total : total_bytes (drop r.count (held_without id m.entries))
        ≡ sum_of entry_bytes (drop r.count es) =
      ap (λ h. total_bytes (drop r.count h)) held ∙ drop-map r.count es in
    omega (arith, c'.counted, ap (sum_of entry_bytes) entries, total, r.fits)

total-held-le :
    (id : Bytes) (es : List Entry) → total_bytes (held_without id es) ≤ sum_of entry_bytes es
unfolding held_without
total-held-le id [] = omega arith
total-held-le id (e ∷ es) = ground (arith, total-held-le id es)

-- If the accounts are right, what is parked is a `uint64_t` and so is the limit, and `plan` keeps
-- the incoming session, then after its spilled sessions have left and the session was inserted the
-- accounts are right and the bytes in use are within the limit.
pub insert-plan-within :
    (id : Bytes) (snapshot : SessionSnapshot) (m : SessionMemory)
    → IsConsistent m
    → m.used_bytes ≤ u64_max
    → m.limit_bytes ≤ u64_max
    → (plan (parked_session_bytes snapshot) id m).keep_incoming ≡ true
    → IsConsistent
        (insert id snapshot (spill_all (plan (parked_session_bytes snapshot) id m).spill m))
      × ((insert id snapshot
            (spill_all (plan (parked_session_bytes snapshot) id m).spill m)).used_bytes
          ≤ m.limit_bytes)
insert-plan-within id snapshot m c fits limit keep =
    let incoming = parked_session_bytes snapshot in
    let held = held_without id m.entries in
    let spill = (plan incoming id m).spill in
    let room : MakesRoom held incoming m.limit_bytes spill =
      unfold plan in
      plan_memory_admit-MakesRoom held incoming m.limit_bytes
        (omega (arith, total-held-le id m.entries, c.counted)) keep in
    let left = left_over id m incoming c room in
    (
      insert-IsConsistent id snapshot _ (spill_all-IsConsistent spill m c) (omega (arith, left)),
      unfold insert in
          omega (
            arith,
            left,
            used-append_entry id snapshot (erase id (spill_all spill m)) (omega (arith, left)),
          ),
    )
