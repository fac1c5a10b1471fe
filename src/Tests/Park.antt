-- ===== src/Tests/Park.antt =====
-- Tests of Park: the price of a snapshot, admission to RAM, the disk plan, and `SessionMemory`.
use Prim.Native.String.{String}
use llama_onprem_server.Prelude.{
  ℕ, ◌≤◌, true, List, [], ◌∷◌, ◌≡◌, refl, some, arith, codes, bytes_eq, pos,
}
use llama_onprem_server.Park.Admit.Plan.{MakesRoom, plan_memory_admit-MakesRoom}
use llama_onprem_server.Park.Admit.{ParkedBytes, plan_memory_admit}
use llama_onprem_server.Park.Budget.{saturating_total, drop_oldest}
use llama_onprem_server.Park.DiskGc.Plan.{GcOutcome, plan_session_disk_gc-GcOutcome}
use llama_onprem_server.Park.DiskGc.{
  DiskSessionStat, plan_session_disk_gc, sort_oldest, collect_old, insert_sorted, older, older_than,
}
use llama_onprem_server.Park.Memory.Accounts.{IsConsistent}
use llama_onprem_server.Park.Memory.Lookup.{Distinct}
use llama_onprem_server.Park.Memory.Spill.{spill_all, insert-plan-within}
use llama_onprem_server.Park.Memory
use llama_onprem_server.Park.Memory.{SessionMemory, Entry, empty_memory}
use llama_onprem_server.Park.Snapshot.{SessionSnapshot, parked_session_bytes}

abbrev small : SessionSnapshot
small = record { tokens = 7 ∷ 8 ∷ []; state = 1 ∷ 2 ∷ 3 ∷ [] }

abbrev parked_at : String → ℕ → ParkedBytes
parked_at id bytes = record { id = codes id; bytes = bytes }

abbrev three_parked : List ParkedBytes
three_parked = parked_at "a" 40 ∷ parked_at "b" 30 ∷ parked_at "c" 20 ∷ []

plan_runs :
    plan_memory_admit three_parked 45 100 ≡ record { keep_incoming = true; spill = codes "a" ∷ [] }
unfolding plan_memory_admit saturating_total drop_oldest
plan_runs = refl

plan_keeps : (plan_memory_admit three_parked 45 100).keep_incoming ≡ true
unfolding plan_memory_admit saturating_total drop_oldest
plan_keeps = refl

MakesRoom_example : MakesRoom three_parked 45 100 (plan_memory_admit three_parked 45 100).spill
MakesRoom_example = plan_memory_admit-MakesRoom three_parked 45 100 (omega arith) plan_keeps

-- Two days in nanoseconds are 172800000000000.
abbrev files : List DiskSessionStat
files =
    record { id = codes "new"; bytes = 50; mtime = 900_000_000_000_000 }
    ∷ record { id = codes "old"; bytes = 60; mtime = 20 }
    ∷ record { id = codes "older"; bytes = 70; mtime = 10 }
    ∷ []

gc_runs : plan_session_disk_gc files (pos 2) 120 900_000_000_000_001 ≡ codes "older" ∷ []
unfolding plan_session_disk_gc saturating_total drop_oldest sort_oldest collect_old insert_sorted
    older older_than
gc_runs = refl

GcOutcome_example :
    GcOutcome files
      (pos 2)
      120
      900_000_000_000_001
      (plan_session_disk_gc files (pos 2) 120 900_000_000_000_001)
GcOutcome_example =
    plan_session_disk_gc-GcOutcome files (pos 2) 120 900_000_000_000_001 (omega arith) (omega arith)

-- One hour in nanoseconds is 3600000000000. The nanoseconds of 200000 days overflow, and a file of
-- an hour is expired.
overflow_expires :
    plan_session_disk_gc
      (record { id = codes "hour"; bytes = 50; mtime = 10 } ∷ [])
      (pos 200_000)
      40
      3_600_000_000_010
    ≡ codes "hour" ∷ []
unfolding plan_session_disk_gc saturating_total drop_oldest sort_oldest collect_old insert_sorted
    older older_than
overflow_expires = refl

-- Sessions "a" and "b" of 11 bytes each, with room for 25.
abbrev entry_of : String → Entry
entry_of id = record { id = codes id; snapshot = small; bytes = 11 }

abbrev two_parked : SessionMemory
two_parked = record {
  limit_bytes = 25;
  used_bytes = 22;
  entries = entry_of "a" ∷ entry_of "b" ∷ [];
}

two_parked-Distinct : Distinct two_parked.entries
unfolding Memory.find_entry bytes_eq
two_parked-Distinct = (refl, (refl, tt))

two_parked-IsConsistent : IsConsistent two_parked
unfolding parked_session_bytes
two_parked-IsConsistent = record {
  distinct = two_parked-Distinct;
  priced = (refl, (refl, tt));
  counted = refl;
}

plan_two : (Memory.plan (parked_session_bytes small) (codes "c") two_parked).keep_incoming ≡ true
unfolding Memory.plan plan_memory_admit saturating_total drop_oldest parked_session_bytes bytes_eq
plan_two = refl

insert-plan-within_example :
    IsConsistent (
      Memory.insert (codes "c") small (
        spill_all
          (Memory.plan (parked_session_bytes small) (codes "c") two_parked).spill
          two_parked))
    × ((Memory.insert (codes "c") small (
          spill_all
            (Memory.plan (parked_session_bytes small) (codes "c") two_parked).spill
            two_parked)).used_bytes
        ≤ 25)
insert-plan-within_example =
    insert-plan-within (codes "c") small two_parked two_parked-IsConsistent (omega arith)
      (omega arith) plan_two

lookups :
    (Memory.contains (codes "b") two_parked ≡ true)
    × (Memory.token_count (codes "b") two_parked ≡ some 2)
    × (Memory.ids_oldest_first (Memory.insert (codes "a") small two_parked)
        ≡ codes "b" ∷ codes "a" ∷ [])
unfolding Memory.contains Memory.token_count Memory.ids_oldest_first Memory.insert Memory.erase
    Memory.take Memory.append_entry bytes_eq
lookups = (refl, refl, refl)
