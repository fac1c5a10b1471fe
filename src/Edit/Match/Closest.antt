-- ===== src/Edit/Match/Closest.antt =====
-- Theorems about `locate_hunk` (src/common/tools/tool_edit_file.cpp).
use llama_onprem_server.Prelude.{
  ℕ, zero, suc, ◌+◌, ◌-◌, ◌≤◌, ◌<◌, true, false, List, none, some, ltb, ◌==◌, length, Bytes, ℤ, ◌≡◌,
  ◌≢◌, ◌⊎◌, inl, inr, refl, sym, ap, subst, arith, Bool-cases, if◌then◌else◌, lt→ltb, ltb→lt,
  ==_iff,
}
use llama_onprem_server.Edit.Match.{
  Nearest, nothing_found, distance, locate_step, locate_loop, locate_hunk, lines_match, Located,
  ambiguous, not_found, located,
}

locate_step_first :
    (hint : ℤ) (at d t : ℕ)
    → locate_step hint at (record { best = none; best_distance = d; ties = t })
      ≡ record { best = some at; best_distance = distance at hint; ties = 1 }
unfolding locate_step
locate_step_first hint at d t = refl

locate_step_closer :
    (hint : ℤ) (at b d t : ℕ)
    → distance at hint < d
    → locate_step hint at (record { best = some b; best_distance = d; ties = t })
      ≡ record { best = some at; best_distance = distance at hint; ties = 1 }
unfolding locate_step
locate_step_closer hint at b d t h = rw (lt→ltb _ _ h)

locate_step_tie :
    (hint : ℤ) (at b d t : ℕ)
    → distance at hint ≡ d
    → locate_step hint at (record { best = some b; best_distance = d; ties = t })
      ≡ record { best = some b; best_distance = d; ties = t + 1 }
unfolding locate_step
locate_step_tie hint at b d t h = ground arith

locate_step_farther :
    (hint : ℤ) (at b d t : ℕ)
    → d < distance at hint
    → locate_step hint at (record { best = some b; best_distance = d; ties = t })
      ≡ record { best = some b; best_distance = d; ties = t }
unfolding locate_step
locate_step_farther hint at b d t h = ground arith

lt_extend {ℓ} : (P : ℕ → Type ℓ) (n : ℕ) → ((j : ℕ) → j < n → P j) → P n → (j : ℕ) → j < n + 1 → P j
lt_extend P n f p j h = elim (Bool-cases (ltb j n)) [
  | inl e ↦ f j (ltb→lt j n e)
  | inr e ↦ subst P (last j n h e) p
]
  where
    last : (j n : ℕ) → j < n + 1 → ltb j n ≡ false → n ≡ j
    last j n h e = ground arith

module _ (file : List Bytes) (old : List Bytes) (hint : ℤ) where
  abbrev pub Matches : ℕ → Type 0
  Matches j = lines_match file j old ≡ true

  abbrev pub Differs : ℕ → Type 0
  Differs j = lines_match file j old ≡ false

  -- What `j` is where `b` is the one nearest match.
  abbrev pub Beyond : ℕ → ℕ → Type 0
  Beyond b j = Differs j ⊎ ((j ≡ b) ⊎ (distance b hint < distance j hint))

  abbrev pub NoNearer : ℕ → ℕ → Type 0
  NoNearer b j = Differs j ⊎ (distance b hint ≤ distance j hint)

  -- What the loop knows when it has looked at the places before `at`.
  data IsBest : ℕ → Nearest → Type 0 where
    nothing : (at : ℕ) → ((j : ℕ) → j < at → Differs j) → IsBest at nothing_found
    one :
        (at b : ℕ)
        → b < at
        → Matches b
        → ((j : ℕ) → j < at → Beyond b j)
        → IsBest at (record { best = some b; best_distance = distance b hint; ties = 1 })
    more :
        (at b c t : ℕ)
        → 1 < t
        → Matches b
        → Matches c
        → b ≢ c
        → distance b hint ≡ distance c hint
        → ((j : ℕ) → j < at → NoNearer b j)
        → IsBest at (record { best = some b; best_distance = distance b hint; ties = t })

  miss-IsBest : (at : ℕ) (n : Nearest) → Differs at → IsBest at n → IsBest (at + 1) n
  miss-IsBest at n d (nothing _ f) = nothing (at + 1) (lt_extend Differs at f d)
  miss-IsBest at n d (one _ b lt m f) =
      one (at + 1) b (omega arith) m (lt_extend (Beyond b) at f (inl d))
  miss-IsBest at n d (more _ b c t ts m k ne e f) =
      more (at + 1) b c t ts m k ne e (lt_extend (NoNearer b) at f (inl d))

  nearer-Beyond : (at b j : ℕ) → distance at hint < distance b hint → NoNearer b j → Beyond at j
  nearer-Beyond at b j h (inl d) = inl d
  nearer-Beyond at b j h (inr le) = inr (inr (omega arith))

  Beyond-NoNearer : (b j : ℕ) → Beyond b j → NoNearer b j
  Beyond-NoNearer b j (inl d) = inl d
  Beyond-NoNearer b j (inr (inl e)) = inr (omega (arith, ap (λ k. distance k hint) e))
  Beyond-NoNearer b j (inr (inr lt)) = inr (omega arith)

  -- Whether a distance is less, the same or greater.
  trichotomy : (m n : ℕ) → (m < n) ⊎ ((m ≡ n) ⊎ (n < m))
  trichotomy m n = elim (Bool-cases (ltb m n)) [
    | inl e ↦ inl (ltb→lt m n e)
    | inr e ↦ elim (Bool-cases (m == n)) [
      | inl q ↦ inr (inl ((==_iff m n).0 q))
      | inr q ↦ inr (inr (ground arith))
    ]
  ]

  closest_here :
      (at b : ℕ)
      → Matches at
      → distance at hint < distance b hint
      → ((j : ℕ) → j < at → NoNearer b j)
      → IsBest (at + 1) (record { best = some at; best_distance = distance at hint; ties = 1 })
  closest_here at b m lt f =
      one (at + 1) at (omega arith) m
        (lt_extend (Beyond at) at (λ j h. nearer-Beyond at b j lt (f j h)) (inr (inl refl)))

  hit-IsBest :
      (at : ℕ) (n : Nearest) → Matches at → IsBest at n → IsBest (at + 1) (locate_step hint at n)
  hit-IsBest at n m (nothing _ f) = rw (locate_step_first hint at 0 0) (
      one (at + 1) at (omega arith) m
        (lt_extend (Beyond at) at (λ j h. inl (f j h)) (inr (inl refl))))
  hit-IsBest at n m (one _ b before mb f) = elim (trichotomy (distance at hint) (distance b hint)) [
    | inl lt ↦
        rw (locate_step_closer hint at b _ 1 lt)
          (closest_here at b m lt (λ j h. Beyond-NoNearer b j (f j h)))
    | inr (inl e) ↦ rw (locate_step_tie hint at b _ 1 e) (
        more (at + 1) b at 2 (omega arith) mb m (λ q. omega arith) (sym e)
          (lt_extend (NoNearer b) at (λ j h. Beyond-NoNearer b j (f j h)) (inr (omega (arith, e)))))
    | inr (inr gt) ↦
        rw (locate_step_farther hint at b _ 1 gt)
          (one (at + 1) b (omega arith) mb (lt_extend (Beyond b) at f (inr (inr gt))))
  ]
  hit-IsBest at n m (more _ b c t ts mb mc ne e f) =
      elim (trichotomy (distance at hint) (distance b hint)) [
        | inl lt ↦ rw (locate_step_closer hint at b _ t lt) (closest_here at b m lt f)
        | inr (inl q) ↦ rw (locate_step_tie hint at b _ t q) (
            more (at + 1) b c (t + 1) (omega arith) mb mc ne e
              (lt_extend (NoNearer b) at f (inr (omega (arith, q)))))
        | inr (inr gt) ↦
            rw (locate_step_farther hint at b _ t gt)
              (more (at + 1) b c t ts mb mc ne e (lt_extend (NoNearer b) at f (inr (omega arith))))
      ]

  shift : (at rounds : ℕ) → (at + 1) + rounds ≡ at + suc rounds
  shift at rounds = omega arith

  loop-IsBest :
      (rounds at : ℕ) (n : Nearest)
      → IsBest at n
      → IsBest (at + rounds) (locate_loop file old hint rounds at n)
  unfolding locate_loop
  loop-IsBest zero at n h = subst (λ k. IsBest k n) (omega arith) h
  loop-IsBest (suc rounds) at n h = elim (Bool-cases (lines_match file at old)) [
    | inl m ↦
        let n' = locate_step hint at n in
        rw m (next n' (loop-IsBest rounds (at + 1) n' (hit-IsBest at n m h)))
    | inr d ↦ rw d (next n (loop-IsBest rounds (at + 1) n (miss-IsBest at n d h)))
  ]
    where
      next :
          (n' : Nearest)
          → IsBest ((at + 1) + rounds) (locate_loop file old hint rounds (at + 1) n')
          → IsBest (at + suc rounds) (locate_loop file old hint rounds (at + 1) n')
      next n' =
          subst (λ k. IsBest k (locate_loop file old hint rounds (at + 1) n')) (shift at rounds)

  past_end : (j : ℕ) → length file < j + length old → Differs j
  unfolding lines_match
  past_end j h = rw (lt→ltb _ _ h)

  -- What each answer of `locate_hunk` says of the places where the old side stands.
  abbrev pub Answers : Located → Type 0
  Answers ambiguous =
      (b : ℕ) × (c : ℕ) × (b ≢ c)
      × Matches b
      × Matches c
      × (distance b hint ≡ distance c hint)
      × ((j : ℕ) → NoNearer b j)
  Answers not_found = (j : ℕ) → Differs j
  Answers (located b) = Matches b × ((j : ℕ) → Beyond b j)

  -- What held of the places that were looked at holds of all.
  everywhere {ℓ} :
      (P : ℕ → Type ℓ) (n : ℕ) → ((j : ℕ) → j < n → P j) → ((j : ℕ) → n ≤ j → P j) → (j : ℕ) → P j
  everywhere P n f g j = elim (Bool-cases (ltb j n)) [
    | inl e ↦ f j (ltb→lt j n e)
    | inr e ↦ g j (ground arith)
  ]

  answer : Nearest → Located
  answer n =
      if ltb 1 n.ties then ambiguous else elim n.best [ none ↦ not_found | some at ↦ located at ]

  answer-Answers :
      (at : ℕ) (n : Nearest) → IsBest at n → ((j : ℕ) → at ≤ j → Differs j) → Answers (answer n)
  unfolding answer
  answer-Answers at n (nothing _ f) past = everywhere Differs at f past
  answer-Answers at n (one _ b before m f) past =
      (m, everywhere (Beyond b) at f (λ j h. inl (past j h)))
  answer-Answers at n (more _ b c t ts mb mc ne e f) past =
      rw (lt→ltb 1 t ts) (b, c, ne, mb, mc, e, everywhere (NoNearer b) at f (λ j h. inl (past j h)))

  start-IsBest : IsBest 0 nothing_found
  start-IsBest = nothing 0 (λ j h. absurd (omega arith))

  -- A place is `located` where it is the one nearest to the hint of all places where the old lines
  -- stand in the file; the answer is `ambiguous` where two of them are equally near and none is
  -- nearer, and `not_found` where there is no such place.
  pub locate_hunk-Answers : Answers (locate_hunk file old hint)
  unfolding locate_hunk answer
  locate_hunk-Answers =
      let rounds = (length file + 1) - length old in
      answer-Answers (0 + rounds) (locate_loop file old hint rounds 0 nothing_found)
        (loop-IsBest rounds 0 nothing_found start-IsBest) (λ j h. past_end j (omega arith))
