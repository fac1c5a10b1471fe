-- ===== src/Park/DiskGc/Sorted.antt =====
-- Lemmas about the order and the choice of files in `plan_session_disk_gc`
-- (src/server/llm/session_park.cpp).
use mathlib.Core.List.{Perm, filter}
use mathlib.Core.List.Perm
use llama_onprem_server.Prelude.{
  ℕ, ◌+◌, ◌^◌, ◌<◌, true, false, List, [], ◌∷◌, ◌≡◌, refl, inl, inr, arith, dec_lt, Bool-cases,
  bytes_lt_asymm, bytes_lt_neg_trans,
}
use llama_onprem_server.Park.DiskGc.{
  DiskSessionStat, older, insert_sorted, sort_oldest, collect_old, older_than,
}

-- No file of the list is older than `f`.
abbrev pub NoneOlder : DiskSessionStat → List DiskSessionStat → Type 0
NoneOlder f [] = Unit {0}
NoneOlder f (g ∷ gs) = (older g f ≡ false) × NoneOlder f gs

abbrev pub OldestFirst : List DiskSessionStat → Type 0
OldestFirst [] = Unit {0}
OldestFirst (f ∷ fs) = NoneOlder f fs × OldestFirst fs

older_asymm : (f g : DiskSessionStat) → older f g ≡ true → older g f ≡ false
unfolding older
older_asymm f g h = ground (arith, bytes_lt_asymm f.id g.id)

older_neg_trans :
    (f g h : DiskSessionStat) → older f g ≡ false → older g h ≡ false → older f h ≡ false
unfolding older
older_neg_trans f g h p q = ground (arith, bytes_lt_neg_trans f.id g.id h.id)

NoneOlder-trans :
    (f g : DiskSessionStat) (hs : List DiskSessionStat)
    → older g f ≡ false
    → NoneOlder g hs
    → NoneOlder f hs
NoneOlder-trans f g [] p n = tt
NoneOlder-trans f g (h ∷ hs) p n = (older_neg_trans h g f n.0 p, NoneOlder-trans f g hs p n.1)

NoneOlder-insert_sorted :
    (f g : DiskSessionStat) (gs : List DiskSessionStat)
    → older f g ≡ false
    → NoneOlder g gs
    → NoneOlder g (insert_sorted f gs)
unfolding insert_sorted
NoneOlder-insert_sorted f g [] p n = (p, tt)
NoneOlder-insert_sorted f g (h ∷ hs) p n = ground (arith, NoneOlder-insert_sorted f g hs)

insert_sorted-OldestFirst :
    (f : DiskSessionStat) (gs : List DiskSessionStat)
    → OldestFirst gs
    → OldestFirst (insert_sorted f gs)
unfolding insert_sorted
insert_sorted-OldestFirst f [] s = (tt, tt)
insert_sorted-OldestFirst f (g ∷ gs) s = elim (Bool-cases (older g f)) [
  | inl before ↦ rw before (
    NoneOlder-insert_sorted f g gs (older_asymm g f before) s.0,
    insert_sorted-OldestFirst f gs s.1,
  )
  | inr after ↦ rw after ((after, NoneOlder-trans f g gs after s.0), s)
]

pub sort_oldest-OldestFirst : (fs : List DiskSessionStat) → OldestFirst (sort_oldest fs)
unfolding sort_oldest
sort_oldest-OldestFirst [] = tt
sort_oldest-OldestFirst (f ∷ fs) = insert_sorted-OldestFirst f _ (sort_oldest-OldestFirst fs)

insert_sorted-perm :
    (f : DiskSessionStat) (gs : List DiskSessionStat) → Perm (insert_sorted f gs) (f ∷ gs)
unfolding insert_sorted
insert_sorted-perm f [] = Perm.refl _
insert_sorted-perm f (g ∷ gs) = elim (Bool-cases (older g f)) [
  | inl before ↦ rw before (Perm.trans (Perm.cons g (insert_sorted-perm f gs)) (Perm.swap f g gs))
  | inr after ↦ rw after (Perm.refl _)
]

pub sort_oldest-perm : (fs : List DiskSessionStat) → Perm (sort_oldest fs) fs
unfolding sort_oldest
sort_oldest-perm [] = Perm.refl _
sort_oldest-perm (f ∷ fs) =
    Perm.trans (insert_sorted-perm f (sort_oldest fs)) (Perm.cons f (sort_oldest-perm fs))

-- The loop collects the files that were last written more than `max_age` before `now`.
pub collect_old-eq-filter :
    (now max_age : ℕ) (fs : List DiskSessionStat)
    → max_age < 2 ^ 63
    → collect_old now max_age fs ≡ filter (λ f. dec_lt (f.mtime + max_age) now) fs
unfolding collect_old older_than
collect_old-eq-filter now max_age [] small = refl
collect_old-eq-filter now max_age (f ∷ fs) small =
    ground (arith, collect_old-eq-filter now max_age fs small)
