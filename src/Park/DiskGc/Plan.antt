-- ===== src/Park/DiskGc/Plan.antt =====
-- Theorems about `plan_session_disk_gc` (src/server/llm/session_park.cpp).
use mathlib.Core.List.{Perm, filter}
use llama_onprem_server.Prelude.{
  ℕ, ◌+◌, ◌*◌, ◌≤◌, List, [], ◌∷◌, ◌≡◌, refl, inl, inr, arith, dec_lt, Bool-cases, leb, leb→le,
  u64_max, ℤ, pos, negsuc, Bytes, subst,
}
use llama_onprem_server.Park.Budget.{saturating_total, drop_oldest}
use llama_onprem_server.Park.Budget.Least.{
  sum_of, IsLeast, saturating_total-eq-sum, drop_oldest-IsLeast,
}
use llama_onprem_server.Park.DiskGc.{
  DiskSessionStat, file_id, file_bytes, nanoseconds_per_day, max_age_of, older_than, IsInt64Days,
  IsInt64Age, sort_oldest, insert_sorted, collect_old, plan_gc_days, plan_session_disk_gc,
}
use llama_onprem_server.Park.DiskGc.Sorted.{
  OldestFirst, sort_oldest-OldestFirst, sort_oldest-perm, collect_old-eq-filter,
}

-- `drop` names the oldest of the expired files, as few as possible, such that what is left of all
-- files is within the limit, or every expired file.
pub record IsGcPlan (files : List DiskSessionStat) (days max_bytes now : ℕ) (dropped : List Bytes)
    : Type 0 where
  pub expired : List DiskSessionStat
  pub expired_are :
      Perm expired (filter (λ f. dec_lt (f.mtime + nanoseconds_per_day * days) now) files)
  pub ordered : OldestFirst expired
  pub left : ℕ
  pub least :
      IsLeast file_id file_bytes max_bytes expired
        (sum_of file_bytes files)
        (record { names = dropped; left = left })

abbrev total_size : List DiskSessionStat → ℕ
total_size = sum_of file_bytes

size-insert_sorted :
    (f : DiskSessionStat) (gs : List DiskSessionStat)
    → total_size (insert_sorted f gs) ≡ f.bytes + total_size gs
unfolding insert_sorted
size-insert_sorted f [] = omega arith
size-insert_sorted f (g ∷ gs) = ground (arith, size-insert_sorted f gs)

size-sort_oldest : (fs : List DiskSessionStat) → total_size (sort_oldest fs) ≡ total_size fs
unfolding sort_oldest
size-sort_oldest [] = refl
size-sort_oldest (f ∷ fs) =
    omega (arith, size-insert_sorted f (sort_oldest fs), size-sort_oldest fs)

size-collect_old-le :
    (now max_age : ℕ) (fs : List DiskSessionStat)
    → total_size (collect_old now max_age fs) ≤ total_size fs
unfolding collect_old older_than
size-collect_old-le now max_age [] = omega arith
size-collect_old-le now max_age (f ∷ fs) = ground (arith, size-collect_old-le now max_age fs)

-- Under the limit nothing is dropped, and no file had to be.
IsLeast-none :
    (max_bytes total : ℕ) (old : List DiskSessionStat)
    → total ≤ max_bytes
    → IsLeast file_id file_bytes max_bytes old total (record { names = []; left = total })
IsLeast-none max_bytes total old h = record {
  count = 0;
  in_range = omega arith;
  names = refl;
  left = omega arith;
  enough = inl h;
  shortest = λ j lt. absurd (omega arith);
}

-- What the plan is for each value of `max_age_days`.
abbrev pub GcOutcome : List DiskSessionStat → ℤ → ℕ → ℕ → List Bytes → Type 0
GcOutcome files (negsuc _) max_bytes now dropped = dropped ≡ []
GcOutcome files (pos days) max_bytes now dropped = IsGcPlan files days max_bytes now dropped

plan_gc_days-IsGcPlan :
    (files : List DiskSessionStat) (days max_bytes now : ℕ)
    → total_size files ≤ u64_max
    → IsInt64Days days
    → IsGcPlan files days max_bytes now (plan_gc_days files days max_bytes now)
unfolding plan_gc_days
plan_gc_days-IsGcPlan files days max_bytes now fits small =
    let whole : max_age_of days ≡ nanoseconds_per_day * days = omega (arith, small) in
    let found = collect_old now (max_age_of days) files in
    let old = sort_oldest found in
    let total : saturating_total file_id file_bytes files 0 ≡ total_size files =
      omega (arith, saturating_total-eq-sum file_id file_bytes files 0 (omega arith)) in
    let within : total_size old ≤ total_size files =
      omega (arith, size-sort_oldest found, size-collect_old-le now (max_age_of days) files) in
    let expired_are =
      subst (λ max_age. Perm old (filter (λ f. dec_lt (f.mtime + max_age) now) files)) whole
        (subst (λ l. Perm old l)
          (collect_old-eq-filter now (max_age_of days) files (omega (arith, small)))
          (sort_oldest-perm found)) in
    rw total (elim (Bool-cases (leb (total_size files) max_bytes)) [
      | inl under ↦ rw under (record {
        expired = old;
        expired_are = expired_are;
        ordered = sort_oldest-OldestFirst found;
        left = total_size files;
        least = IsLeast-none max_bytes _ old (leb→le _ _ under);
      })
      | inr over ↦ rw over (record {
        expired = old;
        expired_are = expired_are;
        ordered = sort_oldest-OldestFirst found;
        left = (drop_oldest file_id file_bytes max_bytes old (total_size files)).left;
        least = drop_oldest-IsLeast file_id file_bytes max_bytes old (total_size files) within;
      })
    ])

-- With a negative `max_age_days` nothing is deleted. Otherwise, if the sizes add up to a
-- `uint64_t` and the days are at most 106751, so that their nanoseconds are an `int64_t`, the deleted
-- files are the oldest of those last written more than that many days before now, in the order of
-- their times, as few as possible, such that the directory is within `max_bytes`, or all of them.
pub plan_session_disk_gc-GcOutcome :
    (files : List DiskSessionStat) (max_age_days : ℤ) (max_bytes now : ℕ)
    → sum_of file_bytes files ≤ u64_max
    → IsInt64Age max_age_days
    → GcOutcome files max_age_days max_bytes now
        (plan_session_disk_gc files max_age_days max_bytes now)
unfolding plan_session_disk_gc
plan_session_disk_gc-GcOutcome files (negsuc _) max_bytes now fits small = refl
plan_session_disk_gc-GcOutcome files (pos days) max_bytes now fits small =
    plan_gc_days-IsGcPlan files days max_bytes now fits small
