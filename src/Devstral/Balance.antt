-- ===== src/Devstral/Balance.antt =====
-- The counts of the loop of `json_value_end` (src/common/devstral_call.hpp), in any text.
use llama_onprem_server.Prelude.{
  ℕ, ◌+◌, ◌-◌, ◌<◌, Bool, true, false, ◌&&◌, [], ◌∷◌, ◌++◌, none, some, ◌==◌, if◌then◌else◌, length,
  Bytes, ◌≡◌, refl, sym, ap, ◌∙◌, ◌⊎◌, inl, inr, arith, Bool-cases, ==_iff, subst,
}
use llama_onprem_server.Devstral.Nesting.{scan_loop-next, scan_loop_found}
use llama_onprem_server.Devstral.{
  Nest, next, found, mismatched, string_byte, balanced, nesting_byte, scan_byte, scan_loop,
}

-- A text without its strings, where it begins in a string or not, and behind a backslash or not.
pub outside : Bool → Bool → Bytes → Bytes
outside in_string escape [] = []
outside true true (c ∷ text) = outside true false text
outside true false (c ∷ text) =
    let in_escape = outside true true text in
    let behind = outside false false text in
    let in_text = outside true false text in
    if c == b'\\' then in_escape else if c == b'"' then behind else in_text
outside false escape (c ∷ text) =
    let in_text = outside true escape text in
    let behind = outside false escape text in if c == b'"' then in_text else c ∷ behind

unfoldable pub count : ℕ → Bytes → ℕ
count b [] = 0
count b (c ∷ text) = let rest = count b text in if c == b then rest + 1 else rest

-- As many brackets of each kind are closed as are opened or were open.
abbrev pub Balances : Nest → Bytes → Type 0
Balances s text =
    let bare = outside s.in_string s.escape text in
    (s.braces + count b'{' bare ≡ count b'}' bare)
    × (s.brackets + count b'[' bare ≡ count b']' bare)

string_byte-outside :
    (c : ℕ) (s : Nest) (text : Bytes)
    → s.in_string ≡ true
    → outside s.in_string s.escape (c ∷ text)
      ≡ outside (string_byte c s).in_string (string_byte c s).escape text
unfolding outside string_byte
string_byte-outside c s text h = elim (Bool-cases s.escape) [
  | inl e ↦ simp (h, e)
  | inr e ↦ elim (Bool-cases (c == b'\\')) [
    | inl q ↦ simp (h, e, q)
    | inr q ↦ elim (Bool-cases (c == b'"')) [
      | inl r ↦ simp (h, e, q, r)
      | inr r ↦ simp (h, e, q, r)
    ]
  ]
]

-- One byte outside of strings.
abbrev nest : ℕ → ℕ → Bool → Nest
nest b k e = record { braces = b; brackets = k; in_string = false; escape = e }

found_ne_next : (s : Nest) → found ≡ next s → ⊥
found_ne_next s e = cc

next_ne_found : (s : Nest) → next s ≡ found → ⊥
next_ne_found s e = cc

next_inj : (s t : Nest) → next s ≡ next t → s ≡ t
next_inj s t e = cc

balanced-next : (t s' : Nest) → balanced t ≡ next s' → t ≡ s'
unfolding balanced
balanced-next t s' h = elim (Bool-cases (t.braces == 0 && t.brackets == 0)) [
  | inl e ↦ absurd (found_ne_next s' (rw e at h))
  | inr e ↦ next_inj _ _ (rw e at h)
]

balanced-found : (t : Nest) → balanced t ≡ found → (t.braces ≡ 0) × (t.brackets ≡ 0)
unfolding balanced
balanced-found t h = elim (Bool-cases (t.braces == 0 && t.brackets == 0)) [
  | inl e ↦ (ground arith, ground arith)
  | inr e ↦ absurd (next_ne_found t (rw e at h))
]

-- A byte that opens or closes, or neither, where the next state is known.
module _ (b k : ℕ) (e : Bool) (text : Bytes) where
  open_brace : Balances (nest (b + 1) k e) text → Balances (nest b k e) (b'{' ∷ text)
  unfolding outside count
  open_brace h = (omega arith, h.1)

  open_bracket : Balances (nest b (k + 1) e) text → Balances (nest b k e) (b'[' ∷ text)
  unfolding outside count
  open_bracket h = (h.0, omega arith)

  close_brace :
      (b == 0) ≡ false → Balances (nest (b - 1) k e) text → Balances (nest b k e) (b'}' ∷ text)
  unfolding outside count
  close_brace n h = (ground arith, h.1)

  close_bracket :
      (k == 0) ≡ false → Balances (nest b (k - 1) e) text → Balances (nest b k e) (b']' ∷ text)
  unfolding outside count
  close_bracket n h = (h.0, ground arith)

  neither :
      (c : ℕ)
      → (c == b'"') ≡ false
      → (c == b'{') ≡ false
      → (c == b'}') ≡ false
      → (c == b'[') ≡ false
      → (c == b']') ≡ false
      → Balances (nest b k e) text
      → Balances (nest b k e) (c ∷ text)
  unfolding outside count
  neither c q o p m n h = rw (q, o, p, m, n) h

-- What one byte outside of strings comes to: the function ends, or the counts change as the byte says.
abbrev Counted : ℕ → Nest → Type 0
Counted c s =
    (nesting_byte c s ≡ mismatched)
    ⊎ ((t : Nest) × (nesting_byte c s ≡ balanced t)
        × ((text : Bytes) → Balances t text → Balances s (c ∷ text)))

nesting_byte-Counted : (c b k : ℕ) (e : Bool) → (c == b'"') ≡ false → Counted c (nest b k e)
unfolding nesting_byte
nesting_byte-Counted c b k e q = elim (Bool-cases (c == b'{')) [
  | inl h ↦
      inr (nest (b + 1) k e, rw h, λ text bal. rw ((==_iff c b'{').0 h) (open_brace b k e text bal))
  | inr o ↦ elim (Bool-cases (c == b'}')) [
    | inl h ↦ elim (Bool-cases (b == 0)) [
      | inl z ↦ inl (rw (o, h, z))
      | inr z ↦ inr (
        nest (b - 1) k e,
        rw (o, h, z),
        λ text bal. rw ((==_iff c b'}').0 h) (close_brace b k e text z bal),
      )
    ]
    | inr p ↦ elim (Bool-cases (c == b'[')) [
      | inl h ↦ inr (
        nest b (k + 1) e,
        rw (o, p, h),
        λ text bal. rw ((==_iff c b'[').0 h) (open_bracket b k e text bal),
      )
      | inr m ↦ elim (Bool-cases (c == b']')) [
        | inl h ↦ elim (Bool-cases (k == 0)) [
          | inl z ↦ inl (rw (o, p, m, h, z))
          | inr z ↦ inr (
            nest b (k - 1) e,
            rw (o, p, m, h, z),
            λ text bal. rw ((==_iff c b']').0 h) (close_bracket b k e text z bal),
          )
        ]
        | inr n ↦ inr (nest b k e, rw (o, p, m, n), λ text bal. neither b k e text c q o p m n bal)
      ]
    ]
  ]
]

-- A byte of the loop: it ends with no result, or it ends where the counts agree, or it goes on.
abbrev Scanned : ℕ → Nest → Type 0
Scanned c s =
    (scan_byte c s ≡ mismatched)
    ⊎ (((scan_byte c s ≡ found) × Balances s (c ∷ []))
        ⊎ ((t : Nest) × (scan_byte c s ≡ next t)
            × ((text : Bytes) → Balances t text → Balances s (c ∷ text))))

string_byte-counts :
    (c : ℕ) (s : Nest)
    → ((string_byte c s).braces ≡ s.braces) × ((string_byte c s).brackets ≡ s.brackets)
unfolding string_byte
string_byte-counts c s = elim (Bool-cases s.escape) [
  | inl e ↦ simp e (refl, refl)
  | inr e ↦ elim (Bool-cases (c == b'\\')) [
    | inl q ↦ simp (e, q) (refl, refl)
    | inr q ↦ elim (Bool-cases (c == b'"')) [
      | inl r ↦ simp (e, q, r) (refl, refl)
      | inr r ↦ simp (e, q, r) (refl, refl)
    ]
  ]
]

in_string_Balances :
    (c : ℕ) (s : Nest) (text : Bytes)
    → s.in_string ≡ true
    → Balances (string_byte c s) text
    → Balances s (c ∷ text)
in_string_Balances c s text h bal =
    let (braces, brackets) = string_byte-counts c s in
    rw (string_byte-outside c s text h)
      (omega (arith, bal.0, braces), omega (arith, bal.1, brackets))

scan_byte-string : (c : ℕ) (s : Nest) → s.in_string ≡ true → Scanned c s
unfolding scan_byte
scan_byte-string c s h =
    inr (inr (string_byte c s, simp h, λ text bal. in_string_Balances c s text h bal))

empty_Balances : (t : Nest) → (t.braces == 0 && t.brackets == 0) ≡ true → Balances t []
unfolding outside count
empty_Balances t z = (ground arith, ground arith)

Counted-Scanned :
    (c b k : ℕ) (e : Bool) → (c == b'"') ≡ false → Counted c (nest b k e) → Scanned c (nest b k e)
unfolding scan_byte balanced
Counted-Scanned c b k e q (inl m) = inl (rw q m)
Counted-Scanned c b k e q (inr (t, h, f)) = elim (Bool-cases (t.braces == 0 && t.brackets == 0)) [
  | inl z ↦ inr (inl (rw (q, h, z), f [] (empty_Balances t z)))
  | inr z ↦ inr (inr (t, rw (q, h, z), f))
]

bare_byte-Scanned : (c b k : ℕ) (e : Bool) → Scanned c (nest b k e)
unfolding scan_byte outside
bare_byte-Scanned c b k e = elim (Bool-cases (c == b'"')) [
  | inl q ↦ inr (
      inr (
        record { braces = b; brackets = k; in_string = true; escape = e },
        rw q,
        λ text bal. rw q bal,
      ))
  | inr q ↦ Counted-Scanned c b k e q (nesting_byte-Counted c b k e q)
]

scan_byte-Scanned : (c : ℕ) (s : Nest) → Scanned c s
scan_byte-Scanned c s = elim (Bool-cases s.in_string) [
  | inl h ↦ scan_byte-string c s h
  | inr h ↦
      subst (Scanned c) (λ i. record s { in_string = sym h i })
        (bare_byte-Scanned c s.braces s.brackets s.escape)
]

some_inj : (a b : ℕ) → some a ≡ some b → a ≡ b
some_inj a b h = cc

mismatched_ne :
    (i c : ℕ) (s : Nest) (text : Bytes) (e : ℕ)
    → scan_byte c s ≡ mismatched
    → scan_loop i s (c ∷ text) ≡ some e
    → ⊥
unfolding scan_loop
mismatched_ne i c s text e m h = none_ne_some e (rw (scan_loop, m) at h)
  where
    none_ne_some : (e : ℕ) → none ≡ some e → ⊥
    none_ne_some e h = cc

-- The loop ends behind a part of the text in which the counts agree.
pub scan_loop-Balances :
    (i : ℕ) (s : Nest) (text : Bytes) (e : ℕ)
    → scan_loop i s text ≡ some e
    → (v : Bytes) × (rest : Bytes) × (text ≡ v ++ rest)
      × (e ≡ i + length v)
      × (0 < length v)
      × Balances s v
unfolding scan_loop
scan_loop-Balances i s [] e h = cc
scan_loop-Balances i s (c ∷ text) e h = elim (scan_byte-Scanned c s) [
  | inl m ↦ absurd (mismatched_ne i c s text e m h)
  | inr (inl (f, bal)) ↦ (
    c ∷ [],
    text,
    refl,
    sym (some_inj _ _ (sym (scan_loop_found i c s text f) ∙ h)),
    omega arith,
    bal,
  )
  | inr (inr (t, n, f)) ↦
      let (v, rest, q, l, positive, bal) =
        scan_loop-Balances (i + 1) t text e (sym (scan_loop-next i c s t text n) ∙ h) in
      (c ∷ v, rest, ap (◌∷◌ c) q, omega arith, omega arith, f v bal)
]
