-- ===== src/Prelude/Strings.antt =====
-- Strings as lists of bytes, compared as `std::string` compares them.
use Prim.Native.Char.{code}
use Prim.Native.Nat.{ℕ, ◌+◌}
use Prim.Native.String.{String}
use mathlib.Core.Bool.{Bool, true, false, ◌&&◌, ◌||◌}
use mathlib.Core.List.{List, [], ◌∷◌, ◌++◌}
use mathlib.Core.Logic.{◌↔◌}
use mathlib.Core.Option.{Option, none, some}
use mathlib.Core.Path.{◌≡◌, refl}
use native.Mathlib.Omega.{arith}
use llama_onprem_server.Prelude.Tests.{ltb, ◌==◌, if◌then◌else◌}

abbrev pub Bytes : Type 0
Bytes = List ℕ

-- The code points of a literal: its bytes, where it is ASCII.
abbrev pub codes : String → Bytes
codes String.[] = []
codes (String.◌∷◌ c s) = code c ∷ codes s

-- `a == b`.
unfoldable pub bytes_eq : Bytes → Bytes → Bool
bytes_eq [] [] = true
bytes_eq [] (y ∷ b) = false
bytes_eq (x ∷ a) [] = false
bytes_eq (x ∷ a) (y ∷ b) = x == y && bytes_eq a b

-- `a < b`: lexicographic, by unsigned bytes.
pub bytes_lt : Bytes → Bytes → Bool
bytes_lt a [] = false
bytes_lt [] (y ∷ b) = true
bytes_lt (x ∷ a) (y ∷ b) = if x == y then bytes_lt a b else ltb x y

-- `text.starts_with(prefix)`.
unfoldable pub starts_with : Bytes → Bytes → Bool
starts_with text [] = true
starts_with [] (p ∷ prefix) = false
starts_with (x ∷ text) (p ∷ prefix) = x == p && starts_with text prefix

-- `text.find(b)`: the index of the first byte that is `b`.
unfoldable pub find_byte : ℕ → Bytes → Option ℕ
find_byte b [] = none
find_byte b (x ∷ text) =
    let rest = find_byte b text in
    if x == b then some 0 else elim rest [ none ↦ none | some i ↦ some (i + 1) ]

-- `text.find(b) != npos`.
unfoldable pub has_byte : ℕ → Bytes → Bool
has_byte b [] = false
has_byte b (x ∷ text) = x == b || has_byte b text

-- `text.find(needle)`.
unfoldable pub find_text : Bytes → Bytes → Option ℕ
find_text needle [] = if starts_with [] needle then some 0 else none
find_text needle (x ∷ text) =
    let rest = find_text needle text in
    if starts_with (x ∷ text) needle
    then some 0
    else elim rest [ none ↦ none | some i ↦ some (i + 1) ]

-- `text.back() == b`, where there is a last byte.
unfoldable pub back_is : ℕ → Bytes → Bool
back_is b [] = false
back_is b (x ∷ []) = x == b
back_is b (x ∷ y ∷ text) = back_is b (y ∷ text)

pub bytes_eq_iff : (a b : Bytes) → (bytes_eq a b ≡ true) ↔ (a ≡ b)
unfolding bytes_eq
bytes_eq_iff [] [] = ground arith
bytes_eq_iff [] (y ∷ b) = ground arith
bytes_eq_iff (x ∷ a) [] = ground arith
bytes_eq_iff (x ∷ a) (y ∷ b) = ground (arith, bytes_eq_iff a b)

pub bytes_eq_refl : (a : Bytes) → bytes_eq a a ≡ true
bytes_eq_refl a = (bytes_eq_iff a a).1 refl

pub bytes_lt_asymm : (a b : Bytes) → bytes_lt a b ≡ true → bytes_lt b a ≡ false
unfolding bytes_lt
bytes_lt_asymm a [] h = cc
bytes_lt_asymm [] (y ∷ b) h = refl
bytes_lt_asymm (x ∷ a) (y ∷ b) h = ground (arith, bytes_lt_asymm a b)

pub bytes_lt_neg_trans :
    (a b c : Bytes) → bytes_lt a b ≡ false → bytes_lt b c ≡ false → bytes_lt a c ≡ false
unfolding bytes_lt
bytes_lt_neg_trans a b [] h k = refl
bytes_lt_neg_trans a [] (z ∷ c) h k = cc
bytes_lt_neg_trans [] (y ∷ b) (z ∷ c) h k = cc
bytes_lt_neg_trans (x ∷ a) (y ∷ b) (z ∷ c) h k = ground (arith, bytes_lt_neg_trans a b c)

pub back_is-append :
    (b : ℕ) (l : Bytes) (c : ℕ) (r : Bytes) → back_is b (l ++ c ∷ r) ≡ back_is b (c ∷ r)
unfolding back_is
back_is-append b [] c r = refl
back_is-append b (x ∷ []) c r = refl
back_is-append b (x ∷ y ∷ l) c r = back_is-append b (y ∷ l) c r

pub starts_with-append : (text rest : Bytes) → starts_with (text ++ rest) text ≡ true
unfolding starts_with
starts_with-append [] rest = refl
starts_with-append (c ∷ text) rest = ground (arith, starts_with-append text rest)
