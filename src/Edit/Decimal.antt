-- ===== src/Edit/Decimal.antt =====
-- Lemmas about `read_int` (src/common/tools/tool_edit_file.cpp) on the text of `std::to_string`.
use native.Mathlib.Numerals.{add-one}
use llama_onprem_server.Prelude.{
  ℕ, zero, suc, ◌+◌, ◌*◌, ◌/◌, ◌%◌, ◌^◌, ◌<◌, true, false, [], ◌∷◌, ◌++◌, some, ◌==◌, Bytes, ◌≡◌,
  refl, ap, ◌∙◌, arith, Bool-cases, inl, inr, ==_iff,
}
use llama_onprem_server.Prelude.Decimal.{digits_of, to_string}
use llama_onprem_server.Edit.Header.{is_digit, digits_loop, read_int}

is_digit_mod : (n : ℕ) → is_digit (b'0' + n % 10) ≡ true
unfolding is_digit
is_digit_mod n = ground arith

digits_loop_digit :
    (p n : ℕ) (text : Bytes)
    → digits_loop p ((b'0' + n % 10) ∷ text) ≡ digits_loop ((p * 10 + n % 10) % 2 ^ 32) text
unfolding digits_loop
digits_loop_digit p n text = rw (is_digit_mod n) (ap (λ k. digits_loop k text) (omega arith))

positive : (n fuel : ℕ) → n < suc fuel → (n / 10 == 0) ≡ false → n / 10 < fuel
positive n fuel h e = ground arith

digits_loop-digits_of :
    (fuel n : ℕ) (text : Bytes)
    → n < fuel
    → n < 2 ^ 32
    → digits_loop 0 (digits_of fuel n text) ≡ digits_loop n text
unfolding digits_of
digits_loop-digits_of zero n text h w = absurd (omega arith)
digits_loop-digits_of (suc fuel) n text h w = elim (Bool-cases (n / 10 == 0)) [
  | inl e ↦ rw e (
      digits_loop_digit 0 n text
      ∙ ap (λ k. digits_loop k text) (omega (arith, (==_iff (n / 10) 0).0 e)))
  | inr e ↦ rw e (
      digits_loop-digits_of fuel (n / 10) ((b'0' + n % 10) ∷ text) (positive n fuel h e)
        (omega arith)
      ∙ digits_loop_digit (n / 10) n text
      ∙ ap (λ k. digits_loop k text) (omega arith))
]

digits_of-append :
    (fuel n : ℕ) (text rest : Bytes)
    → digits_of fuel n text ++ rest ≡ digits_of fuel n (text ++ rest)
unfolding digits_of
digits_of-append zero n text rest = refl
digits_of-append (suc fuel) n text rest = elim (Bool-cases (n / 10 == 0)) [
  | inl e ↦ rw e
  | inr e ↦ rw e (digits_of-append fuel (n / 10) ((b'0' + n % 10) ∷ text) rest)
]

-- A text that `read_int` does not go on into.
abbrev pub IsStop : Bytes → Type 0
IsStop [] = Unit
IsStop (c ∷ text) = is_digit c ≡ false

digits_loop-IsStop : (n : ℕ) (rest : Bytes) → IsStop rest → digits_loop n rest ≡ (n, rest)
unfolding digits_loop
digits_loop-IsStop n [] h = refl
digits_loop-IsStop n (c ∷ rest) h = rw h

-- A digit in front, and so more than nothing.
read_int-digits_of :
    (fuel n c : ℕ) (text : Bytes)
    → is_digit c ≡ true
    → read_int (digits_of fuel n (c ∷ text)) ≡ some (digits_loop 0 (digits_of fuel n (c ∷ text)))
unfolding read_int digits_of
read_int-digits_of zero n c text h = rw h
read_int-digits_of (suc fuel) n c text h = elim (Bool-cases (n / 10 == 0)) [
  | inl e ↦ rw (e, is_digit_mod n)
  | inr e ↦ rw e (read_int-digits_of fuel (n / 10) (b'0' + n % 10) (c ∷ text) (is_digit_mod n))
]

read_int_start :
    (fuel n : ℕ) (text : Bytes)
    → read_int (digits_of (suc fuel) n text) ≡ some (digits_loop 0 (digits_of (suc fuel) n text))
unfolding digits_of read_int
read_int_start fuel n text = elim (Bool-cases (n / 10 == 0)) [
  | inl e ↦ rw (e, is_digit_mod n)
  | inr e ↦ rw e (read_int-digits_of fuel (n / 10) (b'0' + n % 10) text (is_digit_mod n))
]

-- A number of 32 bits in front of no further digit is read back as it was written.
pub read_int-to_string :
    (n : ℕ) (rest : Bytes)
    → n < 2 ^ 32
    → IsStop rest
    → read_int (to_string n ++ rest) ≡ some (n, rest)
unfolding to_string
read_int-to_string n rest w h =
    rw (add-one n, digits_of-append (suc n) n [] rest)
      (read_int_start n n rest
        ∙ ap some
            (digits_loop-digits_of (suc n) n rest (omega arith) w ∙ digits_loop-IsStop n rest h))
