-- ===== src/Park/Budget/Least.antt =====
-- Lemmas about the loops of Park/Budget (src/server/llm/session_park.cpp).
use llama_onprem_server.Prelude.{
  ℕ, zero, suc, ◌+◌, ◌-◌, ◌≤◌, ◌<◌, List, [], ◌∷◌, map, ◌≡◌, refl, ap, ◌⊎◌, inl, inr, arith, ltb,
  ltb→lt, Bool-cases, length, take, drop, u64_max, Bytes,
}
use llama_onprem_server.Park.Budget.{sub_or_zero, Dropped, saturating_total, drop_oldest}

module _ {ℓ} {A : Type ℓ} where
  abbrev pub sum_of : (A → ℕ) → List A → ℕ
  sum_of bytes [] = 0
  sum_of bytes (x ∷ xs) = bytes x + sum_of bytes xs

-- `d` dropped the first `count` items: no shorter front was enough, and this one was unless
-- nothing is left.
pub record IsLeast {ℓ} {A : Type ℓ} (name : A → Bytes) (bytes : A → ℕ) (limit : ℕ) (xs : List A)
    (used : ℕ) (d : Dropped) : Type 0 where
  pub count : ℕ
  pub in_range : count ≤ length xs
  pub names : d.names ≡ map name (take count xs)
  pub left : d.left + sum_of bytes (take count xs) ≡ used
  pub enough : (d.left ≤ limit) ⊎ (count ≡ length xs)
  pub shortest : (j : ℕ) → j < count → limit + sum_of bytes (take j xs) < used

module _ {ℓ} {A : Type ℓ} (name : A → Bytes) (bytes : A → ℕ) where
  pub saturating_total-eq-sum :
      (xs : List A) (used : ℕ)
      → used + sum_of bytes xs ≤ u64_max
      → saturating_total name bytes xs used ≡ used + sum_of bytes xs
  unfolding saturating_total
  saturating_total-eq-sum [] used h = omega arith
  saturating_total-eq-sum (x ∷ xs) used h =
      ground (arith, saturating_total-eq-sum xs (used + bytes x))

  pub saturating_total-le-sum :
      (xs : List A) (used : ℕ) → saturating_total name bytes xs used ≤ used + sum_of bytes xs
  unfolding saturating_total
  saturating_total-le-sum [] used = omega arith
  saturating_total-le-sum (x ∷ xs) used =
      ground (arith, saturating_total-le-sum xs (used + bytes x))

  pub sum_of-take-drop :
      (n : ℕ) (xs : List A) → sum_of bytes (take n xs) + sum_of bytes (drop n xs) ≡ sum_of bytes xs
  sum_of-take-drop zero xs = omega arith
  sum_of-take-drop (suc n) [] = omega arith
  sum_of-take-drop (suc n) (x ∷ xs) = omega (arith, sum_of-take-drop n xs)

  -- Whatever the sum, dropping every item brings a total that is no larger to the limit.
  pub drop_oldest-left-le :
      (limit : ℕ) (xs : List A) (used : ℕ)
      → used ≤ sum_of bytes xs
      → (drop_oldest name bytes limit xs used).left ≤ limit
  unfolding drop_oldest
  drop_oldest-left-le limit [] used h = omega arith
  drop_oldest-left-le limit (x ∷ xs) used h =
      ground (arith, drop_oldest-left-le limit xs (sub_or_zero used (bytes x)))

  shortest-cons :
      (limit used used' count : ℕ) (x : A) (xs : List A)
      → used' ≡ used - bytes x
      → limit < used
      → ((j : ℕ) → j < count → limit + sum_of bytes (take j xs) < used')
      → (j : ℕ) → j < suc count
      → limit + sum_of bytes (take j (x ∷ xs)) < used
  shortest-cons limit used used' count x xs e over h zero lt = omega arith
  shortest-cons limit used used' count x xs e over h (suc j) lt = omega (arith, h j (omega arith))

  pub drop_oldest-IsLeast :
      (limit : ℕ) (xs : List A) (used : ℕ)
      → sum_of bytes xs ≤ used
      → IsLeast name bytes limit xs used (drop_oldest name bytes limit xs used)
  unfolding drop_oldest
  drop_oldest-IsLeast limit [] used h = record {
    count = 0;
    in_range = omega arith;
    names = refl;
    left = omega arith;
    enough = inr refl;
    shortest = λ j lt. absurd (omega arith);
  }
  drop_oldest-IsLeast limit (x ∷ xs) used h = elim (Bool-cases (ltb limit used)) [
    | inl over ↦
        let e : sub_or_zero used (bytes x) ≡ used - bytes x = unfold sub_or_zero in ground arith in
        let r = drop_oldest-IsLeast limit xs (sub_or_zero used (bytes x)) (omega (arith, e)) in
        rw over (record {
          count = suc r.count;
          in_range = omega (arith, r.in_range);
          names = ap (◌∷◌ (name x)) r.names;
          left = omega (arith, r.left, e);
          enough = ground (arith, r.enough);
          shortest = shortest-cons limit used _ r.count x xs e (ltb→lt limit used over) r.shortest;
        })
    | inr under ↦ rw under (record {
      count = 0;
      in_range = omega arith;
      names = refl;
      left = omega arith;
      enough = inl (ground arith);
      shortest = λ j lt. absurd (omega arith);
    })
  ]
