-- ===== src/Devstral/Nesting.antt =====
-- `json_value_end` (src/common/devstral_call.hpp) on a text that nests as it should.
use mathlib.Core.List.{append_assoc}
use llama_onprem_server.Prelude.{
  ℕ, ◌+◌, ◌-◌, ◌<◌, Bool, true, false, ◌||◌, [], ◌∷◌, ◌++◌, some, ◌==◌, length, length-append,
  Bytes, ◌≡◌, refl, ap, ◌∙◌, arith,
}
use llama_onprem_server.Devstral.{
  Nest, at_start, next, found, string_byte, balanced, nesting_byte, scan_byte, scan_loop,
}

-- The inside of a string.
pub data IsStringBody : Bytes → Type 0 where
  done : IsStringBody []
  plain :
      {c : ℕ} {text : Bytes}
      → (c == b'\\') ≡ false
      → (c == b'"') ≡ false
      → IsStringBody text
      → IsStringBody (c ∷ text)
  escaped : {c : ℕ} {text : Bytes} → IsStringBody text → IsStringBody (b'\\' ∷ c ∷ text)

abbrev pub is_special : ℕ → Bool
is_special c = (c == b'"' || (c == b'{' || c == b'}')) || (c == b'[' || c == b']')

-- What may stand between brackets: strings, nested values, and bytes that are neither.
pub data IsItems : Bytes → Type 0 where
  nil : IsItems []
  byte : {c : ℕ} {text : Bytes} → is_special c ≡ false → IsItems text → IsItems (c ∷ text)
  string :
      {body text : Bytes} → IsStringBody body → IsItems text → IsItems (b'"' ∷ body ++ b'"' ∷ text)
  object :
      {items text : Bytes} → IsItems items → IsItems text → IsItems (b'{' ∷ items ++ b'}' ∷ text)
  array :
      {items text : Bytes} → IsItems items → IsItems text → IsItems (b'[' ∷ items ++ b']' ∷ text)

pub data IsValue : Bytes → Type 0 where
  object : {items : Bytes} → IsItems items → IsValue (b'{' ∷ items ++ b'}' ∷ [])
  array : {items : Bytes} → IsItems items → IsValue (b'[' ∷ items ++ b']' ∷ [])

abbrev nest : ℕ → ℕ → Nest
nest braces brackets = record {
  braces = braces;
  brackets = brackets;
  in_string = false;
  escape = false;
}

abbrev in_text : ℕ → ℕ → Bool → Nest
in_text braces brackets escape = record {
  braces = braces;
  brackets = brackets;
  in_string = true;
  escape = escape;
}

pub scan_loop-next :
    (i ch : ℕ) (s s' : Nest) (text : Bytes)
    → scan_byte ch s ≡ next s'
    → scan_loop i s (ch ∷ text) ≡ scan_loop (i + 1) s' text
unfolding scan_loop
scan_loop-next i ch s s' text h = rw (scan_loop, h)

scan_loop-IsStringBody :
    {body : Bytes} (i b k : ℕ) (rest : Bytes)
    → IsStringBody body
    → scan_loop i (in_text b k false) (body ++ b'"' ∷ rest)
      ≡ scan_loop (i + length body + 1) (nest b k) rest
unfolding scan_loop scan_byte string_byte
scan_loop-IsStringBody i b k rest done = ap (λ n. scan_loop n (nest b k) rest) (omega arith)
scan_loop-IsStringBody i b k rest (plain {c} {text} e q h) =
    rw (e, q)
      (scan_loop-IsStringBody (i + 1) b k rest h
        ∙ ap (λ n. scan_loop n (nest b k) rest) (omega arith))
scan_loop-IsStringBody i b k rest (escaped {c} {text} h) =
    scan_loop-IsStringBody (i + 1 + 1) b k rest h
    ∙ ap (λ n. scan_loop n (nest b k) rest) (omega arith)

drop_one : (n : ℕ) → n + 1 - 1 ≡ n
drop_one n = omega arith

-- One byte outside of strings, where a bracket is open.
module _ (b k : ℕ) (h : 0 < b + k) where
  scan_byte_other : (c : ℕ) → is_special c ≡ false → scan_byte c (nest b k) ≡ next (nest b k)
  unfolding scan_byte nesting_byte balanced
  scan_byte_other c s = ground arith

  scan_byte_quote : scan_byte b'"' (nest b k) ≡ next (in_text b k false)
  unfolding scan_byte
  scan_byte_quote = refl

  close_brace : scan_byte b'}' (nest (b + 1) k) ≡ next (nest b k)
  unfolding scan_byte nesting_byte balanced
  close_brace = rw (drop_one b) (ground arith)

  close_bracket : scan_byte b']' (nest b (k + 1)) ≡ next (nest b k)
  unfolding scan_byte nesting_byte balanced
  close_bracket = rw (drop_one k) (ground arith)

open_brace : (b k : ℕ) → scan_byte b'{' (nest b k) ≡ next (nest (b + 1) k)
unfolding scan_byte nesting_byte balanced
open_brace b k = ground arith

open_bracket : (b k : ℕ) → scan_byte b'[' (nest b k) ≡ next (nest b (k + 1))
unfolding scan_byte nesting_byte balanced
open_bracket b k = ground arith

scan_loop-IsItems :
    {items : Bytes} (i b k : ℕ) (rest : Bytes)
    → 0 < b + k
    → IsItems items
    → scan_loop i (nest b k) (items ++ rest) ≡ scan_loop (i + length items) (nest b k) rest
scan_loop-IsItems i b k rest h nil = ap (λ n. scan_loop n (nest b k) rest) (omega arith)
scan_loop-IsItems i b k rest h (byte {c} {text} s t) =
    scan_loop-next i c _ _ _ (scan_byte_other b k h c s)
    ∙ scan_loop-IsItems (i + 1) b k rest h t
    ∙ ap (λ n. scan_loop n (nest b k) rest) (omega arith)
scan_loop-IsItems i b k rest h (string {body} {text} s t) =
    rw (append_assoc body (b'"' ∷ text) rest) (
      scan_loop-next i b'"' _ _ _ (scan_byte_quote b k h)
      ∙ scan_loop-IsStringBody (i + 1) b k (text ++ rest) s
      ∙ scan_loop-IsItems _ b k rest h t
      ∙ ap (λ n. scan_loop n (nest b k) rest) (omega (arith, length-append body (b'"' ∷ text))))
scan_loop-IsItems i b k rest h (object {items} {text} s t) =
    rw (append_assoc items (b'}' ∷ text) rest) (
      scan_loop-next i b'{' _ _ _ (open_brace b k)
      ∙ scan_loop-IsItems (i + 1) (b + 1) k (b'}' ∷ text ++ rest) (omega arith) s
      ∙ scan_loop-next _ b'}' _ _ _ (close_brace b k h)
      ∙ scan_loop-IsItems _ b k rest h t
      ∙ ap (λ n. scan_loop n (nest b k) rest) (omega (arith, length-append items (b'}' ∷ text))))
scan_loop-IsItems i b k rest h (array {items} {text} s t) =
    rw (append_assoc items (b']' ∷ text) rest) (
      scan_loop-next i b'[' _ _ _ (open_bracket b k)
      ∙ scan_loop-IsItems (i + 1) b (k + 1) (b']' ∷ text ++ rest) (omega arith) s
      ∙ scan_loop-next _ b']' _ _ _ (close_bracket b k h)
      ∙ scan_loop-IsItems _ b k rest h t
      ∙ ap (λ n. scan_loop n (nest b k) rest) (omega (arith, length-append items (b']' ∷ text))))

pub scan_loop_found :
    (i ch : ℕ) (s : Nest) (text : Bytes)
    → scan_byte ch s ≡ found
    → scan_loop i s (ch ∷ text) ≡ some (i + 1)
unfolding scan_loop
scan_loop_found i ch s text h = rw (scan_loop, h)

last_brace : scan_byte b'}' (nest 1 0) ≡ found
unfolding scan_byte nesting_byte balanced
last_brace = refl

last_bracket : scan_byte b']' (nest 0 1) ≡ found
unfolding scan_byte nesting_byte balanced
last_bracket = refl

-- The loop at the start of a value ends just behind it.
pub scan_loop-IsValue :
    {value : Bytes} (i : ℕ) (rest : Bytes)
    → IsValue value
    → scan_loop i at_start (value ++ rest) ≡ some (i + length value)
scan_loop-IsValue i rest (object {items} s) = rw (append_assoc items (b'}' ∷ []) rest) (
    scan_loop-next i b'{' _ _ _ (open_brace 0 0)
    ∙ scan_loop-IsItems (i + 1) 1 0 (b'}' ∷ rest) (omega arith) s
    ∙ scan_loop_found _ b'}' _ _ last_brace
    ∙ ap some (omega (arith, length-append items (b'}' ∷ []))))
scan_loop-IsValue i rest (array {items} s) = rw (append_assoc items (b']' ∷ []) rest) (
    scan_loop-next i b'[' _ _ _ (open_bracket 0 0)
    ∙ scan_loop-IsItems (i + 1) 0 1 (b']' ∷ rest) (omega arith) s
    ∙ scan_loop_found _ b']' _ _ last_bracket
    ∙ ap some (omega (arith, length-append items (b']' ∷ []))))
