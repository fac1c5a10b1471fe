-- ===== src/Text/Utf8.antt =====
-- `Utf8Util` (src/server/llm/utf8_stream.hpp): cutting a byte stream at the ends of UTF-8
-- characters. A byte is a number below 256.
pub mod Lead
pub mod Prefix
pub mod Stream
use Prim.Native.Nat.{bit_and}
use llama_onprem_server.Prelude.{
  ℕ, zero, suc, ◌+◌, ◌-◌, Bool, not, List, [], ◌∷◌, ◌++◌, min, ltb, ◌==◌, if◌then◌else◌, length,
  get_or, take, drop, Bytes,
}

-- `(c & 0xC0) == 0x80`: a continuation byte.
unfoldable pub is_continuation : ℕ → Bool
is_continuation c = bit_and c 0xC0 == 0x80

-- The number of bytes that a character with this first byte has.
unfoldable pub expected_len : ℕ → ℕ
expected_len c =
    if bit_and c 0xF8 == 0xF0
    then 4
    else if bit_and c 0xF0 == 0xE0
    then 3
    else if bit_and c 0xE0 == 0xC0
    then 2
    else 1

-- The loop over `i`, with the rounds that are left. An index in range is read, so the default of
-- `get_or` is never used.
unfoldable pub lookback : Bytes → ℕ → ℕ → ℕ
lookback s zero i = 0
lookback s (suc rounds) i =
    let len = length s in
    let c = get_or s (len - i) 0 in
    let rest = lookback s rounds (i + 1) in
    if not (is_continuation c) then if ltb i (expected_len c) then len - i else len else rest

unfoldable pub get_complete_utf8_prefix_len : Bytes → ℕ
get_complete_utf8_prefix_len s = if length s == 0 then 0 else lookback s (min 4 (length s)) 1

-- `StreamBuffer`: the buffer is its one field. A call returns its text and the new buffer.
pub record Processed : Type 0 where
  pub ready : Bytes
  pub buf : Bytes

pub process : Bytes → Bytes → Processed
process buf piece =
    let all = buf ++ piece in
    let valid_len = get_complete_utf8_prefix_len all in
    if valid_len == 0
    then record { ready = []; buf = all }
    else record { ready = take valid_len all; buf = drop valid_len all }

pub flush : Bytes → Processed
flush buf =
    let valid_len = get_complete_utf8_prefix_len buf in
    if length buf == 0
    then record { ready = []; buf = buf }
    else record { ready = if ltb 0 valid_len then take valid_len buf else []; buf = [] }

unfoldable pub reset : Bytes → Bytes
reset buf = []

unfoldable pub empty : Bytes → Bool
empty buf = length buf == 0

-- A generation: every piece is processed in turn and what is ready is handed on; at the end comes
-- what `flush` gives.
unfoldable pub stream : Bytes → List Bytes → List Bytes
unfolding process flush
stream buf [] = (flush buf).ready ∷ []
stream buf (piece ∷ pieces) = let step = process buf piece in step.ready ∷ stream step.buf pieces
