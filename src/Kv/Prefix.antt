-- ===== src/Kv/Prefix.antt =====
-- The common prefix of two token sequences: `common_prefix_length` (src/common/span_prefix.hpp)
-- and `checkpoint_from_offsets` (src/server/llm/token_offset.hpp). A token is its `int32_t` bit
-- pattern; tokens are only compared.
pub mod Common
pub mod Checkpoint
use llama_onprem_server.Prelude.{
  ℕ, zero, suc, ◌+◌, ◌-◌, Bool, true, false, not, ◌&&◌, ◌||◌, List, [], ◌∷◌, Option, none, some,
  min, ltb, ◌==◌, if◌then◌else◌, length, get_elem?,
}

-- `a[i] == b[i]`, for an index that is in range of both.
abbrev pub same_at : List ℕ → List ℕ → ℕ → Bool
same_at a b i = both (get_elem? a i) (get_elem? b i)
  where
    both : Option ℕ → Option ℕ → Bool
    both none y = false
    both (some x) none = false
    both (some x) (some y) = x == y

-- The loop over `i`, with the number of rounds that are left up to `n`.
pub common_prefix_loop : List ℕ → List ℕ → ℕ → ℕ → ℕ
common_prefix_loop a b zero i = i
common_prefix_loop a b (suc rounds) i =
    let rest = common_prefix_loop a b rounds (i + 1) in if not (same_at a b i) then i else rest

pub common_prefix_length : List ℕ → List ℕ → ℕ
unfolding common_prefix_loop
common_prefix_length a b = common_prefix_loop a b (min (length a) (length b)) 0

-- `std::equal(active + from, active + from + rounds, prompt + from)`.
pub equal_range : List ℕ → List ℕ → ℕ → ℕ → Bool
equal_range a b zero from = true
equal_range a b (suc rounds) from = same_at a b from && equal_range a b rounds (from + 1)

-- The loop over the message ends; the two tests that break are in the source's order.
pub offsets_loop : List ℕ → List ℕ → List ℕ → ℕ → ℕ
offsets_loop active prompt [] matched = matched
offsets_loop active prompt (stop ∷ ends) matched =
    let rest = offsets_loop active prompt ends stop in
    if ltb stop matched || ltb (length active) stop || ltb (length prompt) stop
    then matched
    else if not (equal_range active prompt (stop - matched) matched)
    then matched
    else rest

-- The loop that goes on token by token from `i`, carrying `matched`.
pub tail_loop : List ℕ → List ℕ → ℕ → ℕ → ℕ → ℕ
tail_loop active prompt zero i matched = matched
tail_loop active prompt (suc rounds) i matched =
    let rest = tail_loop active prompt rounds (i + 1) (i + 1) in
    if not (same_at active prompt i) then matched else rest

unfoldable pub checkpoint_from_offsets : List ℕ → List ℕ → List ℕ → ℕ
unfolding equal_range offsets_loop tail_loop
checkpoint_from_offsets active prompt message_ends =
    let matched = offsets_loop active prompt message_ends 0 in
    tail_loop active prompt (min (length active) (length prompt) - matched) matched matched
