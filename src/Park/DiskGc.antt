-- ===== src/Park/DiskGc.antt =====
-- `plan_session_disk_gc` (src/server/llm/session_park.cpp): which session files are deleted. A
-- time point is its distance in nanoseconds from the clock's smallest one, and any two are less
-- than `2 ^ 63` apart. `max_age` is the bit pattern of its 64 bits in nanoseconds, as the
-- comparison with an age converts it; the overflow wraps. `std::ranges::sort` is an insertion sort
-- by the same comparison; `old` holds the files where the source holds their indices.
pub mod Sorted
pub mod Plan
use llama_onprem_server.Prelude.{
  ℕ, ◌-◌, ◌*◌, ◌%◌, ◌^◌, ◌<◌, Bool, true, false, not, ◌||◌, List, [], ◌∷◌, ltb, leb, ◌==◌,
  if◌then◌else◌, Bytes, bytes_lt, ℤ, pos, negsuc,
}
use llama_onprem_server.Park.Budget.{saturating_total, drop_oldest}

pub record DiskSessionStat : Type 0 where
  pub id : Bytes
  pub bytes : ℕ
  pub mtime : ℕ

abbrev pub file_id : DiskSessionStat → Bytes
file_id f = f.id

abbrev pub file_bytes : DiskSessionStat → ℕ
file_bytes f = f.bytes

-- `std::chrono::hours{24} * max_age_days`, in nanoseconds.
abbrev pub nanoseconds_per_day : ℕ
nanoseconds_per_day = 86_400_000_000_000

abbrev pub max_age_of : ℕ → ℕ
max_age_of days = nanoseconds_per_day * days % 2 ^ 64

-- The nanoseconds of that many days are a positive `int64_t`: at most 106751 days.
abbrev pub IsInt64Days : ℕ → Type 0
IsInt64Days days = nanoseconds_per_day * days < 2 ^ 63

abbrev pub IsInt64Age : ℤ → Type 0
IsInt64Age (negsuc _) = Unit {0}
IsInt64Age (pos days) = IsInt64Days days

-- `now - file.mtime > max_age`; from `2 ^ 63` on, `max_age` is negative.
unfoldable pub older_than : ℕ → ℕ → Bool
older_than max_age age = leb (2 ^ 63) max_age || ltb max_age age

-- The comparison that is given to the sort: by time, and by id where the times are equal.
unfoldable pub older : DiskSessionStat → DiskSessionStat → Bool
older left right =
    if not (left.mtime == right.mtime)
    then ltb left.mtime right.mtime
    else bytes_lt left.id right.id

unfoldable pub insert_sorted : DiskSessionStat → List DiskSessionStat → List DiskSessionStat
insert_sorted f [] = f ∷ []
insert_sorted f (g ∷ gs) = if older g f then g ∷ insert_sorted f gs else f ∷ g ∷ gs

unfoldable pub sort_oldest : List DiskSessionStat → List DiskSessionStat
sort_oldest [] = []
sort_oldest (f ∷ fs) = insert_sorted f (sort_oldest fs)

-- The loop that collects the files beyond the age.
unfoldable pub collect_old : ℕ → ℕ → List DiskSessionStat → List DiskSessionStat
collect_old now max_age [] = []
collect_old now max_age (f ∷ fs) =
    let rest = collect_old now max_age fs in
    if leb now f.mtime then rest else if older_than max_age (now - f.mtime) then f ∷ rest else rest

-- The part behind the test of `max_age_days`.
unfoldable pub plan_gc_days : List DiskSessionStat → ℕ → ℕ → ℕ → List Bytes
plan_gc_days files max_age_days max_bytes now =
    let total = saturating_total file_id file_bytes files 0 in
    let old = sort_oldest (collect_old now (max_age_of max_age_days) files) in
    let dropped = drop_oldest file_id file_bytes max_bytes old total in
    if leb total max_bytes then [] else dropped.names

unfoldable pub plan_session_disk_gc : List DiskSessionStat → ℤ → ℕ → ℕ → List Bytes
unfolding plan_gc_days
plan_session_disk_gc files (negsuc _) max_bytes now = []
plan_session_disk_gc files (pos max_age_days) max_bytes now =
    plan_gc_days files max_age_days max_bytes now
