-- ===== src/Jobs/TokenBuffer.antt =====
-- `TokenBuffer` (src/server/jobs/token_buffer.hpp), between the worker that pushes pieces and the
-- request thread that pulls them. Every method holds the mutex for its whole body, so a concurrent
-- execution is a sequence of calls. A `wait_pull` that has to wait is `blocks` and changes nothing.
pub mod Delivery
use llama_onprem_server.Prelude.{
  ℕ, Bool, true, false, not, ◌&&◌, ◌||◌, List, [], ◌∷◌, ◌++◌, if◌then◌else◌, Bytes,
}

pub record TokenBuffer : Type 0 where
  pub pieces : List Bytes
  pub full_result : Bytes
  pub done : Bool
  pub cancelled : Bool

abbrev pub new_buffer : TokenBuffer
new_buffer = record { pieces = []; full_result = []; done = false; cancelled = false }

abbrev pub is_empty {ℓ} : {A : Type ℓ} → List A → Bool
is_empty [] = true
is_empty (x ∷ xs) = false

pub push : Bytes → TokenBuffer → TokenBuffer
push piece b = if b.cancelled || b.done then b else record b { pieces = b.pieces ++ piece ∷ [] }

pub set_done : TokenBuffer → TokenBuffer
set_done b = record b { done = true }

pub cancel : TokenBuffer → TokenBuffer
cancel b = record b { done = true; cancelled = true }

unfoldable pub is_done : TokenBuffer → Bool
is_done b = b.done && is_empty b.pieces

unfoldable pub is_cancelled : TokenBuffer → Bool
is_cancelled b = b.cancelled

-- The result of `wait_pull`: still waiting, `nullopt`, or a piece with the buffer behind it.
pub data Waited : Type 0 where
  blocks : Waited
  eof : Waited
  pulled : Bytes → TokenBuffer → Waited

pull_front : List Bytes → TokenBuffer → Waited
pull_front [] b = eof
pull_front (piece ∷ rest) b = pulled piece (record b { pieces = rest })

pub wait_pull : TokenBuffer → Waited
unfolding pull_front
wait_pull b =
    if not (is_empty b.pieces) || b.done || b.cancelled then pull_front b.pieces b else blocks

-- `pull_available`: the pieces in order, the flag `out_done`, and the buffer behind it.
pub record Available : Type 0 where
  pub out : List Bytes
  pub out_done : Bool
  pub buffer : TokenBuffer

pull_available : TokenBuffer → Available
pull_available b = record {
  out = b.pieces;
  out_done = b.done && is_empty {A = Bytes} [];
  buffer = record b { pieces = [] };
}

pub set_full_result : Bytes → TokenBuffer → TokenBuffer
set_full_result text b = record b { full_result = text }

-- The calls that change a buffer.
pub data Call : Type 0 where
  pushes : Bytes → Call
  finishes : Call
  cancels : Call
  pulls : Call
  drains : Call
  stores : Bytes → Call

-- A buffer with all that was pulled from it so far, in order.
pub record Run : Type 0 where
  pub buffer : TokenBuffer
  pub delivered : List Bytes

after_wait : Run → Waited → Run
after_wait r blocks = r
after_wait r eof = r
after_wait r (pulled piece b) = record { buffer = b; delivered = r.delivered ++ piece ∷ [] }

pub step : Run → Call → Run
unfolding push set_done cancel wait_pull pull_available set_full_result after_wait
step r (pushes piece) = record r { buffer = push piece r.buffer }
step r finishes = record r { buffer = set_done r.buffer }
step r cancels = record r { buffer = cancel r.buffer }
step r pulls = after_wait r (wait_pull r.buffer)
step r drains =
    let a = pull_available r.buffer in
    record { buffer = a.buffer; delivered = r.delivered ++ a.out }
step r (stores text) = record r { buffer = set_full_result text r.buffer }

unfoldable pub run : Run → List Call → Run
unfolding step
run r [] = r
run r (c ∷ cs) = run (step r c) cs

abbrev pub start : Run
start = record { buffer = new_buffer; delivered = [] }
