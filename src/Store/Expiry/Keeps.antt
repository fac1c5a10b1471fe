-- ===== src/Store/Expiry/Keeps.antt =====
-- Theorems about `trim_expired` (src/server/llm/session_kv_store.cpp).
use llama_onprem_server.Prelude.{
  ℕ, zero, suc, ◌+◌, ◌*◌, ◌-◌, ◌^◌, subst, ◌≤◌, ◌<◌, ◌≡◌, ◌≢◌, refl, sym, ap, ◌∙◌, inl, inr, arith,
  Bool, not, ◌&&◌, ◌||◌, List, [], ◌∷◌, Option, none, some, take, All, All-imp, Bytes, bytes_eq_iff,
  ltb, leb, Bool-cases, ℤ, pos, negsuc, is_neg,
}
use llama_onprem_server.Park.Budget.{sub_or_zero, saturating_total, drop_oldest}
use llama_onprem_server.Park.DiskGc.{
  DiskSessionStat, file_id, file_bytes, nanoseconds_per_day, older, insert_sorted, sort_oldest,
  collect_old, plan_gc_days, plan_session_disk_gc, max_age_of, older_than, IsInt64Days, IsInt64Age,
}
use llama_onprem_server.Store.Disk.{File, Disk, lookup, lookup-unlink, bytes_eq_ne}
use llama_onprem_server.Store.Files.{SessionKvStore, remove_file, remove}
use llama_onprem_server.Store.Names.{valid_id, kv_name, id_of_name}
use llama_onprem_server.Store.Names.Segments.{id_of_name-kv_name}
use llama_onprem_server.Store.Expiry.{stat_entry, collect_stats, remove_all, trim_expired}

-- A directory has one entry under a name.
abbrev pub UniqueNames : Disk → Type 0
UniqueNames [] = Unit {0}
UniqueNames ((n, f) ∷ d) = (lookup n d ≡ none) × UniqueNames d

-- The file of that session on the disk, with the time that was listed.
record IsListed (d : Disk) (st : DiskSessionStat) : Type 0 where
  file : File
  found : lookup (kv_name st.id) d ≡ some file
  same_time : file.mtime ≡ st.mtime

IsListed-cons :
    (n : Bytes) (f : File) (d : Disk) (st : DiskSessionStat)
    → lookup n d ≡ none
    → IsListed d st
    → IsListed ((n, f) ∷ d) st
IsListed-cons n f d st fresh l = record {
  file = l.file;
  found = unfold lookup in ground (arith, bytes_eq_iff n (kv_name st.id), l.found);
  same_time = l.same_time;
}

stat_entry-IsListed :
    (opened : Bool) (o : Option Bytes) (n : Bytes) (f : File) (d : Disk)
    (stats : List DiskSessionStat)
    → id_of_name n ≡ o
    → All (IsListed ((n, f) ∷ d)) stats
    → All (IsListed ((n, f) ∷ d)) (stat_entry opened o f stats)
stat_entry-IsListed opened none n f d stats e h = h
stat_entry-IsListed opened (some id) n f d stats e h =
    elim (Bool-cases (f.regular && valid_id opened id)) [
      | inl good ↦ rw good (
        record {
          file = f;
          found =
              unfold lookup in
              ground (arith, bytes_eq_iff n (kv_name id), id_of_name-kv_name n id e);
          same_time = refl;
        },
        h,
      )
      | inr bad ↦ rw bad h
    ]

collect_stats-IsListed :
    (opened : Bool) (k : ℕ) (d : Disk)
    → UniqueNames d
    → All (IsListed d) (collect_stats opened (take k d))
unfolding collect_stats
collect_stats-IsListed opened zero d u = tt
collect_stats-IsListed opened (suc k) [] u = tt
collect_stats-IsListed opened (suc k) ((n, f) ∷ d) u =
    stat_entry-IsListed opened (id_of_name n) n f d _ refl (
      All-imp (IsListed d) (IsListed ((n, f) ∷ d)) (λ st l. IsListed-cons n f d st u.0 l) _
        (collect_stats-IsListed opened k d u.1))

-- A session whose file was last written more than `max_age` before `now`.
record HasOldFile (d : Disk) (now max_age : ℕ) (id : Bytes) : Type 0 where
  file : File
  found : lookup (kv_name id) d ≡ some file
  old : file.mtime + max_age < now

module _ (d : Disk) (now max_age : ℕ) (small : max_age < 2 ^ 63) where
  abbrev OldStat : DiskSessionStat → Type 0
  OldStat st = HasOldFile d now max_age st.id

  collect_old-OldStat :
      (fs : List DiskSessionStat) → All (IsListed d) fs → All OldStat (collect_old now max_age fs)
  unfolding collect_old older_than
  collect_old-OldStat [] h = tt
  collect_old-OldStat (f ∷ fs) h = elim (Bool-cases (leb now f.mtime)) [
    | inl young ↦ rw young (collect_old-OldStat fs h.1)
    | inr past ↦ elim (Bool-cases (leb (2 ^ 63) max_age || ltb max_age (now - f.mtime))) [
      | inl old ↦
          rw (past, old)
            (
              record { file = h.0.file; found = h.0.found; old = ground (arith, h.0.same_time) },
              collect_old-OldStat fs h.1,
            )
      | inr young ↦ rw (past, young) (collect_old-OldStat fs h.1)
    ]
  ]

  insert_sorted-OldStat :
      (f : DiskSessionStat) (gs : List DiskSessionStat)
      → OldStat f
      → All OldStat gs
      → All OldStat (insert_sorted f gs)
  unfolding insert_sorted
  insert_sorted-OldStat f [] p h = (p, tt)
  insert_sorted-OldStat f (g ∷ gs) p h = elim (Bool-cases (older g f)) [
    | inl before ↦ rw before (h.0, insert_sorted-OldStat f gs p h.1)
    | inr after ↦ rw after (p, h)
  ]

  sort_oldest-OldStat : (fs : List DiskSessionStat) → All OldStat fs → All OldStat (sort_oldest fs)
  unfolding sort_oldest
  sort_oldest-OldStat [] h = tt
  sort_oldest-OldStat (f ∷ fs) h = insert_sorted-OldStat f _ h.0 (sort_oldest-OldStat fs h.1)

  drop_oldest-HasOldFile :
      (limit used : ℕ) (fs : List DiskSessionStat)
      → All OldStat fs
      → All (HasOldFile d now max_age) (drop_oldest file_id file_bytes limit fs used).names
  unfolding drop_oldest
  drop_oldest-HasOldFile limit used [] h = tt
  drop_oldest-HasOldFile limit used (f ∷ fs) h = elim (Bool-cases (ltb limit used)) [
    | inl over ↦ rw over (h.0, drop_oldest-HasOldFile limit (sub_or_zero used f.bytes) fs h.1)
    | inr under ↦ rw under tt
  ]

plan_gc_days-HasOldFile :
    (d : Disk) (fs : List DiskSessionStat) (days max_bytes now : ℕ)
    → IsInt64Days days
    → All (IsListed d) fs
    → All (HasOldFile d now (nanoseconds_per_day * days)) (plan_gc_days fs days max_bytes now)
unfolding plan_gc_days
plan_gc_days-HasOldFile d fs days max_bytes now small h =
    let max_age = max_age_of days in
    let whole : max_age ≡ nanoseconds_per_day * days = omega (arith, small) in
    let below : max_age < 2 ^ 63 = omega (arith, small) in
    let total = saturating_total file_id file_bytes fs 0 in
    elim (Bool-cases (leb total max_bytes)) [
      | inl under ↦ rw under tt
      | inr over ↦ rw over (
          subst
            (λ age.
              All (HasOldFile d now age)
                (drop_oldest file_id file_bytes max_bytes (sort_oldest (collect_old now max_age fs))
                  total).names)
            whole
            (drop_oldest-HasOldFile d now max_age below max_bytes total _ (
              sort_oldest-OldStat d now max_age below _
                (collect_old-OldStat d now max_age below fs h))))
    ]

plan-HasOldFile :
    (d : Disk) (fs : List DiskSessionStat) (days max_bytes now : ℕ)
    → IsInt64Days days
    → All (IsListed d) fs
    → All
        (HasOldFile d now (nanoseconds_per_day * days))
        (plan_session_disk_gc fs (pos days) max_bytes now)
unfolding plan_session_disk_gc
plan-HasOldFile d fs days max_bytes now small h =
    plan_gc_days-HasOldFile d fs days max_bytes now small h

remove_other :
    (removes : Bool) (id j : Bytes) (s : SessionKvStore)
    → j ≢ kv_name id
    → lookup j (remove removes id s).disk ≡ lookup j s.disk
unfolding remove remove_file
remove_other removes id j s h =
    ground (arith, lookup-unlink (kv_name id) j s.disk, bytes_eq_ne (kv_name id) j (λ e. h (sym e)))

remove_all_other :
    (removes : Bool) (ids : List Bytes) (j : Bytes) (s : SessionKvStore)
    → All (λ id. j ≢ kv_name id) ids
    → lookup j (remove_all removes ids s).disk ≡ lookup j s.disk
unfolding remove_all
remove_all_other removes [] j s h = refl
remove_all_other removes (id ∷ ids) j s h =
    remove_all_other removes ids j (remove removes id s) h.1 ∙ remove_other removes id j s h.0

-- `max_age_days` protects a file with this time.
abbrev pub IsProtected : ℤ → ℕ → File → Type 0
IsProtected (negsuc _) now f = Unit {0}
IsProtected (pos days) now f = now ≤ f.mtime + nanoseconds_per_day * days

not_own :
    (d : Disk) (now max_age : ℕ) (j : Bytes) (f : File)
    → lookup j d ≡ some f
    → now ≤ f.mtime + max_age
    → (id : Bytes) → HasOldFile d now max_age id
    → j ≢ kv_name id
not_own d now max_age j f e young id o same =
    let both : some f ≡ some o.file = sym e ∙ ap (λ n. lookup n d) same ∙ o.found in
    absurd (ground (arith, both, o.old))

-- Whatever goes wrong outside, `trim_expired` leaves every file alone that is no older than
-- `max_age_days`, if that is at most 106751, and every file if that is negative.
pub trim_expired-keeps :
    (opens removes : Bool) (visible : ℕ) (max_age_days : ℤ) (max_bytes now : ℕ) (s : SessionKvStore)
    (name : Bytes) (f : File)
    → IsInt64Age max_age_days
    → UniqueNames s.disk
    → lookup name s.disk ≡ some f
    → IsProtected max_age_days now f
    → lookup name (trim_expired opens removes visible max_age_days max_bytes now s).store.disk
      ≡ some f
unfolding trim_expired
trim_expired-keeps opens removes visible (negsuc n) max_bytes now s name f small u e p =
    elim (Bool-cases s.opened) [ inl on ↦ rw on e | inr off ↦ rw off e ]
trim_expired-keeps opens removes visible (pos days) max_bytes now s name f small u e p =
    elim (Bool-cases (not s.opened || is_neg (pos days) || not opens)) [
      | inl off ↦ rw off e
      | inr on ↦ rw on (
          remove_all_other removes _ name s (
            All-imp (HasOldFile s.disk now (nanoseconds_per_day * days)) (λ id. name ≢ kv_name id)
              (not_own s.disk now (nanoseconds_per_day * days) name f e p) _
              (plan-HasOldFile s.disk _ days max_bytes now small
                (collect_stats-IsListed s.opened visible s.disk u)))
          ∙ e)
    ]
