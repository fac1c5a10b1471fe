-- ===== src/History/Find.antt =====
-- Where `find` finds a text or a byte (std::string_view, as src/server/sessions/tool_history.cpp uses
-- it).
use llama_onprem_server.Prelude.{
  ℕ, zero, suc, ◌+◌, ◌≤◌, true, [], ◌∷◌, ◌++◌, none, some, ◌==◌, length, take, drop, Bytes,
  starts_with, find_byte, find_text, ◌≡◌, refl, sym, ap, ◌∙◌, arith, Bool-cases, Option-cases, inl,
  inr, drop_nil, drop-append_both, drop-append_length, length-append,
}

-- What a text that starts with `prefix` is.
pub starts_with-parts :
    (text prefix : Bytes)
    → starts_with text prefix ≡ true
    → text ≡ prefix ++ drop (length prefix) text
unfolding starts_with
starts_with-parts text [] h = refl
starts_with-parts [] (p ∷ prefix) h = cc
starts_with-parts (c ∷ text) (p ∷ prefix) h =
    let k : (c ≡ p) × (starts_with text prefix ≡ true) = ground arith in
    rw k.0 (ap (λ t. p ∷ t) (starts_with-parts text prefix k.1))

find_text-parts :
    (needle text : Bytes) (i : ℕ)
    → find_text needle text ≡ some i
    → (a : Bytes) × (r : Bytes) × (text ≡ a ++ (needle ++ r)) × (i ≡ length a)
unfolding find_text
find_text-parts needle [] i h = elim (Bool-cases (starts_with [] needle)) [
  | inl e ↦
      let k : some 0 ≡ some i = rw e at h in
      ([], drop (length needle) [], starts_with-parts [] needle e, cc)
  | inr e ↦ let k : none ≡ some i = rw e at h in cc
]
find_text-parts needle (c ∷ text) i h = elim (Bool-cases (starts_with (c ∷ text) needle)) [
  | inl e ↦
      let k : some 0 ≡ some i = rw e at h in
      ([], drop (length needle) (c ∷ text), starts_with-parts (c ∷ text) needle e, cc)
  | inr e ↦ elim (Option-cases (find_text needle text)) [
    | inl f ↦ let k : none ≡ some i = rw (e, f) at h in cc
    | inr (j, f) ↦
        let k : some (j + 1) ≡ some i = rw (e, f) at h in
        let (a, r, q, l) = find_text-parts needle text j f in
        let n : j + 1 ≡ i = cc in (c ∷ a, r, ap (λ t. c ∷ t) q, omega arith)
  ]
]

find_byte-parts :
    (b : ℕ) (text : Bytes) (i : ℕ)
    → find_byte b text ≡ some i
    → (a : Bytes) × (r : Bytes) × (text ≡ a ++ b ∷ r) × (i ≡ length a)
unfolding find_byte
find_byte-parts b [] i h = cc
find_byte-parts b (c ∷ text) i h = elim (Bool-cases (c == b)) [
  | inl e ↦
      let k : some 0 ≡ some i = rw e at h in
      let same : c ≡ b = ground arith in ([], text, ap (λ x. x ∷ text) same, cc)
  | inr e ↦ elim (Option-cases (find_byte b text)) [
    | inl f ↦ let k : none ≡ some i = rw (e, f) at h in cc
    | inr (j, f) ↦
        let k : some (j + 1) ≡ some i = rw (e, f) at h in
        let (a, r, q, l) = find_byte-parts b text j f in
        let n : j + 1 ≡ i = cc in (c ∷ a, r, ap (λ t. c ∷ t) q, omega arith)
  ]
]

drop-part :
    (a needle r text : Bytes) (i : ℕ)
    → text ≡ a ++ (needle ++ r)
    → i ≡ length a
    → drop i text ≡ needle ++ drop (i + length needle) text
drop-part a needle r text i q l =
    rw (q, l)
      (drop-append_length a (needle ++ r)
        ∙ ap (λ t. needle ++ t) (sym (drop-append_both a needle r)))

part_bound :
    (a needle r text : Bytes) (i : ℕ)
    → text ≡ a ++ (needle ++ r)
    → i ≡ length a
    → i + length needle ≤ length text
part_bound a needle r text i q l =
    rw (q, l) (omega (arith, length-append a (needle ++ r), length-append needle r))

pub find_text-drop :
    (needle text : Bytes) (i : ℕ)
    → find_text needle text ≡ some i
    → drop i text ≡ needle ++ drop (i + length needle) text
find_text-drop needle text i h =
    let (a, r, q, l) = find_text-parts needle text i h in drop-part a needle r text i q l

pub find_text-bound :
    (needle text : Bytes) (i : ℕ) → find_text needle text ≡ some i → i + length needle ≤ length text
find_text-bound needle text i h =
    let (a, r, q, l) = find_text-parts needle text i h in part_bound a needle r text i q l

pub find_byte-drop :
    (b : ℕ) (text : Bytes) (i : ℕ) → find_byte b text ≡ some i → drop i text ≡ b ∷ drop (i + 1) text
find_byte-drop b text i h =
    let (a, r, q, l) = find_byte-parts b text i h in drop-part a (b ∷ []) r text i q l

pub find_byte-bound :
    (b : ℕ) (text : Bytes) (i : ℕ) → find_byte b text ≡ some i → i + 1 ≤ length text
find_byte-bound b text i h =
    let (a, r, q, l) = find_byte-parts b text i h in part_bound a (b ∷ []) r text i q l

-- The bytes up to one that is found, and with it.
pub take-next :
    (i b : ℕ) (text rest : Bytes)
    → drop i text ≡ b ∷ rest
    → take (i + 1) text ≡ take i text ++ b ∷ []
take-next i b [] rest h = let n : [] ≡ b ∷ rest = sym (drop_nil i) ∙ h in cc
take-next zero b (c ∷ text) rest h = let same : c ≡ b = cc in ap (λ x. x ∷ []) same
take-next (suc i) b (c ∷ text) rest h =
    let place : suc i + 1 ≡ suc (i + 1) = omega arith in
    ap (λ n. take n (c ∷ text)) place ∙ ap (λ t. c ∷ t) (take-next i b text rest h)
