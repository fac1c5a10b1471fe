-- ===== src/Jobs/Runner/Counts.antt =====
-- How often a key stands in a list.
use llama_onprem_server.Prelude.{
  ℕ, ◌+◌, ◌<◌, ◌≡◌, arith, Bool, true, false, List, [], ◌∷◌, ◌++◌, ◌==◌,
}
use llama_onprem_server.Jobs.Runner.{elem, erase_key}

abbrev pub one_if : Bool → ℕ
one_if true = 1
one_if false = 0

unfoldable pub count : ℕ → List ℕ → ℕ
count k [] = 0
count k (x ∷ xs) = one_if (x == k) + count k xs

pub count-append : (k : ℕ) (xs ys : List ℕ) → count k (xs ++ ys) ≡ count k xs + count k ys
unfolding count
count-append k [] ys = omega arith
count-append k (x ∷ xs) ys = omega (arith, count-append k xs ys)

pub count-erase_key :
    (k i : ℕ) (xs : List ℕ)
    → elem k xs ≡ true
    → count i (erase_key k xs) + one_if (k == i) ≡ count i xs
unfolding count elem erase_key
count-erase_key k i [] h = ground arith
count-erase_key k i (x ∷ xs) h = ground (arith, count-erase_key k i xs)

pub count-elem : (k : ℕ) (xs : List ℕ) → elem k xs ≡ true → 0 < count k xs
unfolding count elem
count-elem k [] h = ground arith
count-elem k (x ∷ xs) h = ground (arith, count-elem k xs)
