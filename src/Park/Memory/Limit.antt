-- ===== src/Park/Memory/Limit.antt =====
-- Lemmas about the limit of `SessionMemory` (src/server/llm/session_park.cpp).
use llama_onprem_server.Prelude.{
  ◌+◌, ◌≤◌, ◌≡◌, refl, arith, some, List, [], ◌∷◌, Bytes, u64_max, ap, ◌∙◌, sym, true,
}
use llama_onprem_server.Park.Budget.Least.{sum_of}
use llama_onprem_server.Park.Snapshot.{SessionSnapshot, parked_session_bytes}
use llama_onprem_server.Park.Memory.{
  Entry, SessionMemory, find_entry, take, take_found, erase, append_entry, insert, plan,
  snapshot_of,
}
use llama_onprem_server.Park.Memory.Accounts.{
  IsConsistent, Priced, entry_bytes, bytes_under, sum-erase_entry, take-IsConsistent,
  insert-IsConsistent,
}
use llama_onprem_server.Park.Memory.Lookup.{take_entries}
use llama_onprem_server.Park.Memory.Spill.{spill_all, insert-plan-within, used-append_entry}

-- The limit is a `uint64_t`.
pub record IsWithin (m : SessionMemory) : Type 0 where
  pub consistent : IsConsistent m
  pub within : m.used_bytes ≤ m.limit_bytes
  pub fits : m.limit_bytes ≤ u64_max

take-limit : (id : Bytes) (m : SessionMemory) → (take id m).memory.limit_bytes ≡ m.limit_bytes
unfolding take take_found
take-limit id m = ground arith

insert-limit :
    (id : Bytes) (x : SessionSnapshot) (m : SessionMemory)
    → (insert id x m).limit_bytes ≡ m.limit_bytes
unfolding insert append_entry erase
insert-limit id x m = take-limit id m

spill_all-limit :
    (ids : List Bytes) (m : SessionMemory) → (spill_all ids m).limit_bytes ≡ m.limit_bytes
unfolding spill_all erase
spill_all-limit [] m = refl
spill_all-limit (id ∷ ids) m = spill_all-limit ids (erase id m) ∙ take-limit id m

take-used :
    (id : Bytes) (m : SessionMemory)
    → IsConsistent m
    → (take id m).memory.used_bytes + bytes_under (find_entry id m.entries) ≡ m.used_bytes
take-used id m c = omega (
  arith,
  (take-IsConsistent id m c).counted,
  ap (sum_of entry_bytes) (take_entries id m),
  sum-erase_entry id m.entries,
  c.counted,
)

price_under :
    (id : Bytes) (es : List Entry) (x : SessionSnapshot)
    → Priced es
    → snapshot_of (find_entry id es) ≡ some x
    → bytes_under (find_entry id es) ≡ parked_session_bytes x
unfolding find_entry
price_under id [] x p h = ground arith
price_under id (e ∷ es) x p h = ground (arith, price_under id es x)

take-snapshot :
    (id : Bytes) (m : SessionMemory) → (take id m).snapshot ≡ snapshot_of (find_entry id m.entries)
unfolding take
take-snapshot id m = ground arith

pub erase-IsWithin : (id : Bytes) (m : SessionMemory) → IsWithin m → IsWithin (erase id m)
unfolding erase
erase-IsWithin id m w = record {
  consistent = take-IsConsistent id m w.consistent;
  within = omega (arith, take-used id m w.consistent, take-limit id m, w.within);
  fits = omega (arith, take-limit id m, w.fits);
}

-- A snapshot that was taken out fits back in.
pub put_back-IsWithin :
    (id : Bytes) (m : SessionMemory) (x : SessionSnapshot)
    → IsWithin m
    → (take id m).snapshot ≡ some x
    → IsWithin (insert id x (take id m).memory)
put_back-IsWithin id m x w h =
    let m' = (take id m).memory in
    let c' = take-IsConsistent id m w.consistent in
    let price = price_under id m.entries x w.consistent.priced (sym (take-snapshot id m) ∙ h) in
    let paid = take-used id m w.consistent in
    let less : (erase id m').used_bytes ≤ m'.used_bytes =
      unfold erase in omega (arith, take-used id m' c') in
    let limit : (insert id x m').limit_bytes ≡ m.limit_bytes =
      insert-limit id x m' ∙ take-limit id m in
    let room : (erase id m').used_bytes + parked_session_bytes x ≤ m.limit_bytes =
      omega (arith, paid, price, less, w.within) in
    record {
      consistent = insert-IsConsistent id x m' c' (omega (arith, room, w.fits));
      within =
          unfold insert in
          omega (
            arith,
            used-append_entry id x (erase id m') (omega (arith, room, w.fits)),
            room,
            limit,
          );
      fits = omega (arith, limit, w.fits);
    }

-- The plan makes room.
pub plan-insert-IsWithin :
    (id : Bytes) (x : SessionSnapshot) (m : SessionMemory)
    → IsWithin m
    → (plan (parked_session_bytes x) id m).keep_incoming ≡ true
    → IsWithin (insert id x (spill_all (plan (parked_session_bytes x) id m).spill m))
plan-insert-IsWithin id x m w keep =
    let ids = (plan (parked_session_bytes x) id m).spill in
    let r = insert-plan-within id x m w.consistent (omega (arith, w.within, w.fits)) w.fits keep in
    let limit : (insert id x (spill_all ids m)).limit_bytes ≡ m.limit_bytes =
      insert-limit id x (spill_all ids m) ∙ spill_all-limit ids m in
    record {
      consistent = r.0;
      within = omega (arith, r.1, limit);
      fits = omega (arith, w.fits, limit);
    }
