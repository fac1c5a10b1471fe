-- ===== src/Park/Memory/Lookup.antt =====
-- Theorems about what `SessionMemory` (src/server/llm/session_park.cpp) finds behind each
-- operation.
use llama_onprem_server.Prelude.{
  List, [], ◌∷◌, ◌++◌, none, some, if◌then◌else◌, ◌≡◌, refl, arith, Bytes, bytes_eq, bytes_eq_iff,
  bytes_eq_refl,
}
use llama_onprem_server.Park.Snapshot.{SessionSnapshot, parked_session_bytes}
use llama_onprem_server.Park.Memory.{
  Entry, SessionMemory, find_entry, find, erase_entry, take, erase, append_entry, insert,
}

-- No two entries have the same id.
abbrev pub Distinct : List Entry → Type 0
Distinct [] = Unit {0}
Distinct (e ∷ es) = (find_entry e.id es ≡ none) × Distinct es

pub find_entry-erase_entry :
    (id j : Bytes) (es : List Entry)
    → Distinct es
    → find_entry j (erase_entry id es) ≡ (if bytes_eq id j then none else find_entry j es)
unfolding find_entry erase_entry
find_entry-erase_entry id j [] d = ground arith
find_entry-erase_entry id j (e ∷ es) d = ground (
  arith,
  bytes_eq_iff e.id id,
  bytes_eq_iff e.id j,
  bytes_eq_iff id j,
  find_entry-erase_entry id j es d.1,
)

pub erase_entry-Distinct :
    (id : Bytes) (es : List Entry) → Distinct es → Distinct (erase_entry id es)
unfolding erase_entry
erase_entry-Distinct id [] d = tt
erase_entry-Distinct id (e ∷ es) d = ground (
  arith,
  find_entry-erase_entry id e.id es d.1,
  erase_entry-Distinct id es d.1,
  bytes_eq_iff id e.id,
)

find_entry-append :
    (j : Bytes) (es : List Entry) (e : Entry)
    → find_entry e.id es ≡ none
    → find_entry j (es ++ e ∷ []) ≡ (if bytes_eq e.id j then some e else find_entry j es)
unfolding find_entry
find_entry-append j [] e h = refl
find_entry-append j (x ∷ es) e h = ground (
  arith,
  bytes_eq_iff x.id j,
  bytes_eq_iff e.id j,
  bytes_eq_iff x.id e.id,
  find_entry-append j es e,
)

pub append-Distinct :
    (es : List Entry) (e : Entry)
    → find_entry e.id es ≡ none
    → Distinct es
    → Distinct (es ++ e ∷ [])
unfolding find_entry
append-Distinct [] e h d = (refl, tt)
append-Distinct (x ∷ es) e h d = ground (
  arith,
  bytes_eq_iff x.id e.id,
  bytes_eq_iff e.id x.id,
  find_entry-append x.id es e,
  append-Distinct es e,
)

erase_entry_missing :
    (id : Bytes) (es : List Entry) → find_entry id es ≡ none → erase_entry id es ≡ es
unfolding find_entry erase_entry
erase_entry_missing id [] h = refl
erase_entry_missing id (e ∷ es) h = ground (arith, erase_entry_missing id es)

pub take_entries :
    (id : Bytes) (m : SessionMemory) → (take id m).memory.entries ≡ erase_entry id m.entries
unfolding take
take_entries id m = ground (arith, erase_entry_missing id m.entries)

-- With distinct ids, `take` returns what `find` finds; afterwards nothing is found under that id,
-- and every other session is found as before.
pub find-take :
    (id j : Bytes) (m : SessionMemory)
    → Distinct m.entries
    → ((take id m).snapshot ≡ find id m)
      × (find j (take id m).memory ≡ (if bytes_eq id j then none else find j m))
unfolding find
find-take id j m d =
    let e = take_entries id m in
    (unfold take in ground arith, ground (arith, e, find_entry-erase_entry id j m.entries d))

-- With distinct ids, `insert` makes the snapshot the one that is found under its id, whether or
-- not the id was parked before, and every other session is found as before.
pub find-insert :
    (id j : Bytes) (snapshot : SessionSnapshot) (m : SessionMemory)
    → Distinct m.entries
    → find j (insert id snapshot m) ≡ (if bytes_eq id j then some snapshot else find j m)
unfolding find insert erase append_entry
find-insert id j snapshot m d =
    let es = erase_entry id m.entries in
    let gone : find_entry id es ≡ none =
      ground (arith, find_entry-erase_entry id id m.entries d, bytes_eq_refl id) in
    ground (
      arith,
      take_entries id m,
      find_entry-append j es
          (record { id = id; snapshot = snapshot; bytes = parked_session_bytes snapshot }) gone,
      find_entry-erase_entry id j m.entries d,
    )
