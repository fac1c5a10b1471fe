-- ===== src/Park/Admit/Plan.antt =====
-- Theorems about `plan_memory_admit` (src/server/llm/session_park.cpp).
use llama_onprem_server.Prelude.{
  ℕ, ◌+◌, ◌-◌, ◌≤◌, ◌<◌, true, List, [], map, ◌≡◌, subst, ◌↔◌, ◌⊎◌, arith, length, take, drop,
  u64_max,
}
use llama_onprem_server.Park.Admit.{ParkedBytes, parked_id, parked_bytes, plan_memory_admit}
use llama_onprem_server.Park.Budget.{drop_oldest, saturating_total}
use llama_onprem_server.Park.Budget.Least.{
  sum_of, IsLeast, saturating_total-eq-sum, saturating_total-le-sum, drop_oldest-IsLeast,
  drop_oldest-left-le, sum_of-take-drop,
}

abbrev pub total_bytes : List ParkedBytes → ℕ
total_bytes = sum_of parked_bytes

-- The incoming session is kept exactly when it has bytes and they are within the limit on their
-- own, whatever is parked; when it is not kept, nothing is spilled.
pub plan_memory_admit-keep_iff :
    (oldest_first : List ParkedBytes) (incoming limit : ℕ)
    → (((plan_memory_admit oldest_first incoming limit).keep_incoming ≡ true)
        ↔ ((0 < incoming) × (incoming ≤ limit)))
      × (((plan_memory_admit oldest_first incoming limit).keep_incoming ≡ true)
          ⊎ ((plan_memory_admit oldest_first incoming limit).spill ≡ []))
unfolding plan_memory_admit
plan_memory_admit-keep_iff xs incoming limit =
    let fits =
      drop_oldest-left-le parked_id parked_bytes (limit - incoming) xs
        (saturating_total parked_id parked_bytes xs 0)
        (omega (arith, saturating_total-le-sum parked_id parked_bytes xs 0)) in
    ((λ h. ground arith, λ h. ground (arith, fits)), ground (arith, fits))

-- `spill` names a front of the parked sessions; the rest fits beside the incoming one, and
-- with any shorter front it would not.
pub record MakesRoom (xs : List ParkedBytes) (incoming limit : ℕ) (spill : List (List ℕ))
    : Type 0 where
  pub count : ℕ
  pub in_range : count ≤ length xs
  pub oldest : spill ≡ map parked_id (take count xs)
  pub fits : total_bytes (drop count xs) + incoming ≤ limit
  pub needed : (j : ℕ) → j < count → limit < total_bytes (drop j xs) + incoming

MakesRoom-of_IsLeast :
    (xs : List ParkedBytes) (incoming limit : ℕ)
    → incoming ≤ limit
    → (r : IsLeast parked_id parked_bytes
        (limit - incoming)
        xs
        (total_bytes xs)
        (drop_oldest parked_id parked_bytes (limit - incoming) xs (total_bytes xs)))
    → MakesRoom xs incoming limit
        (drop_oldest parked_id parked_bytes (limit - incoming) xs (total_bytes xs)).names
MakesRoom-of_IsLeast xs incoming limit h r = record {
  count = r.count;
  in_range = r.in_range;
  oldest = r.names;
  fits = omega (
    arith,
    r.left,
    sum_of-take-drop parked_id parked_bytes r.count xs,
    drop_oldest-left-le parked_id parked_bytes (limit - incoming) xs (total_bytes xs) (omega arith),
  );
  needed = λ j lt. omega (arith, r.shortest j lt, sum_of-take-drop parked_id parked_bytes j xs);
}

spill_lem :
    (xs : List ParkedBytes) (incoming limit : ℕ)
    → 0 < incoming
    → incoming ≤ limit
    → saturating_total parked_id parked_bytes xs 0 ≡ total_bytes xs
    → (drop_oldest parked_id parked_bytes (limit - incoming) xs (total_bytes xs)).names
      ≡ (plan_memory_admit xs incoming limit).spill
unfolding plan_memory_admit
spill_lem xs incoming limit some_bytes fits e = ground arith

-- When the parked bytes add up to a `uint64_t` and the incoming session is kept, the spilled
-- sessions are the oldest ones, as few as possible, such that the others and the incoming one are
-- within the limit together.
pub plan_memory_admit-MakesRoom :
    (oldest_first : List ParkedBytes) (incoming limit : ℕ)
    → total_bytes oldest_first ≤ u64_max
    → (plan_memory_admit oldest_first incoming limit).keep_incoming ≡ true
    → MakesRoom oldest_first incoming limit (plan_memory_admit oldest_first incoming limit).spill
plan_memory_admit-MakesRoom xs incoming limit h k =
    let guards = (plan_memory_admit-keep_iff xs incoming limit).0.0 k in
    let total = saturating_total-eq-sum parked_id parked_bytes xs 0 (omega arith) in
    let total' : saturating_total parked_id parked_bytes xs 0 ≡ total_bytes xs =
      omega (arith, total) in
    let rest = MakesRoom-of_IsLeast xs incoming limit guards.1 (
      drop_oldest-IsLeast parked_id parked_bytes (limit - incoming) xs (total_bytes xs)
        (omega arith)) in
    subst (MakesRoom xs incoming limit) (spill_lem xs incoming limit guards.0 guards.1 total') rest
