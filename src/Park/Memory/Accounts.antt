-- ===== src/Park/Memory/Accounts.antt =====
-- Theorems about the accounts of `SessionMemory` (src/server/llm/session_park.cpp): its ids, the
-- bytes of each entry, and `used_bytes`.
use llama_onprem_server.Prelude.{
  ℕ, ◌+◌, ◌≤◌, List, [], ◌∷◌, ◌++◌, Option, none, some, ◌≡◌, refl, arith, Bytes, bytes_eq_refl,
  u64_max,
}
use llama_onprem_server.Park.Snapshot.{SessionSnapshot, parked_session_bytes}
use llama_onprem_server.Park.Budget.Least.{sum_of}
use llama_onprem_server.Park.Memory.{
  Entry, SessionMemory, find_entry, erase_entry, take, erase, append_entry, insert,
}
use llama_onprem_server.Park.Memory.Lookup.{
  Distinct, find_entry-erase_entry, erase_entry-Distinct, append-Distinct, take_entries,
}

abbrev pub entry_bytes : Entry → ℕ
entry_bytes e = e.bytes

-- Every entry carries the price of its snapshot.
abbrev pub Priced : List Entry → Type 0
Priced [] = Unit {0}
Priced (e ∷ es) = (e.bytes ≡ parked_session_bytes e.snapshot) × Priced es

pub record IsConsistent (m : SessionMemory) : Type 0 where
  pub distinct : Distinct m.entries
  pub priced : Priced m.entries
  pub counted : m.used_bytes ≡ sum_of entry_bytes m.entries

abbrev pub bytes_under : Option Entry → ℕ
bytes_under none = 0
bytes_under (some e) = e.bytes

pub sum-erase_entry :
    (id : Bytes) (es : List Entry)
    → sum_of entry_bytes (erase_entry id es) + bytes_under (find_entry id es)
      ≡ sum_of entry_bytes es
unfolding find_entry erase_entry
sum-erase_entry id [] = omega arith
sum-erase_entry id (e ∷ es) = ground (arith, sum-erase_entry id es)

erase_entry-Priced : (id : Bytes) (es : List Entry) → Priced es → Priced (erase_entry id es)
unfolding erase_entry
erase_entry-Priced id [] p = tt
erase_entry-Priced id (e ∷ es) p = ground (arith, erase_entry-Priced id es)

append-Priced :
    (es : List Entry) (e : Entry)
    → Priced es
    → e.bytes ≡ parked_session_bytes e.snapshot
    → Priced (es ++ e ∷ [])
append-Priced [] e p h = (h, tt)
append-Priced (x ∷ es) e p h = (p.0, append-Priced es e p.1 h)

sum-append :
    (es : List Entry) (e : Entry)
    → sum_of entry_bytes (es ++ e ∷ []) ≡ sum_of entry_bytes es + e.bytes
sum-append [] e = omega arith
sum-append (x ∷ es) e = omega (arith, sum-append es e)

-- What is taken out is paid back.
take_used :
    (id : Bytes) (m : SessionMemory)
    → m.used_bytes ≡ sum_of entry_bytes m.entries
    → (take id m).memory.used_bytes ≡ sum_of entry_bytes (erase_entry id m.entries)
unfolding take
take_used id m h = ground (arith, sum-erase_entry id m.entries)

-- Taking a session out keeps the accounts, whether or not it was parked.
pub take-IsConsistent :
    (id : Bytes) (m : SessionMemory) → IsConsistent m → IsConsistent (take id m).memory
take-IsConsistent id m c =
    let e = take_entries id m in
    record {
      distinct = rw e (erase_entry-Distinct id m.entries c.distinct);
      priced = rw e (erase_entry-Priced id m.entries c.priced);
      counted = rw e (take_used id m c.counted);
    }

append_entry-IsConsistent :
    (id : Bytes) (snapshot : SessionSnapshot) (m : SessionMemory)
    → IsConsistent m
    → find_entry id m.entries ≡ none
    → m.used_bytes + parked_session_bytes snapshot ≤ u64_max
    → IsConsistent (append_entry id snapshot m)
unfolding append_entry
append_entry-IsConsistent id snapshot m c fresh h =
    let e : Entry = record {
      id = id;
      snapshot = snapshot;
      bytes = parked_session_bytes snapshot;
    } in
    record {
      distinct = append-Distinct m.entries e fresh c.distinct;
      priced = append-Priced m.entries e c.priced refl;
      counted = ground (arith, sum-append m.entries e);
    }

pub erase_fresh :
    (id : Bytes) (m : SessionMemory)
    → Distinct m.entries
    → find_entry id (erase id m).entries ≡ none
unfolding erase
erase_fresh id m d =
    ground (arith, take_entries id m, find_entry-erase_entry id id m.entries d, bytes_eq_refl id)

pub erase-IsConsistent :
    (id : Bytes) (m : SessionMemory) → IsConsistent m → IsConsistent (erase id m)
unfolding erase
erase-IsConsistent id m c = take-IsConsistent id m c

-- Inserting a session keeps the accounts, provided the bytes of the other sessions and the new
-- price add up to a `uint64_t`.
pub insert-IsConsistent :
    (id : Bytes) (snapshot : SessionSnapshot) (m : SessionMemory)
    → IsConsistent m
    → (erase id m).used_bytes + parked_session_bytes snapshot ≤ u64_max
    → IsConsistent (insert id snapshot m)
unfolding insert
insert-IsConsistent id snapshot m c h =
    append_entry-IsConsistent id snapshot (erase id m) (erase-IsConsistent id m c)
      (erase_fresh id m c.distinct) h
