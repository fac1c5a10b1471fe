-- ===== src/Jobs/Tasks.antt =====
-- `Task` (src/server/jobs/jobs.hpp, jobs.cpp) and `JobState` (src/api/models.hpp). The mutex of a task
-- makes each method one step. The request, and what is parsed of the answer, are left out.
use llama_onprem_server.Prelude.{ℕ, Bool, true, false, ◌||◌, if◌then◌else◌, Bytes, ℤ, pos, negsuc}
use llama_onprem_server.Jobs.TokenBuffer
use llama_onprem_server.Jobs.TokenBuffer.{TokenBuffer}

pub data JobState : Type 0 where
  unknown : JobState
  queued : JobState
  running : JobState
  done : JobState
  error : JobState
  cancelled : JobState

unfoldable pub is_finished : JobState → Bool
is_finished done = true
is_finished error = true
is_finished cancelled = true
is_finished queued = false
is_finished running = false
is_finished unknown = false

abbrev pub is_cancelled_state : JobState → Bool
is_cancelled_state cancelled = true
is_cancelled_state unknown = false
is_cancelled_state queued = false
is_cancelled_state running = false
is_cancelled_state done = false
is_cancelled_state error = false

-- `on_finished` says that the callback is there.
pub record Task : Type 0 where
  pub buffer : TokenBuffer
  pub finished_at : ℕ
  pub on_finished : Bool
  pub state : JobState
  pub error : Bytes
  pub error_code : Bytes
  pub result : Bytes
  pub cancel_requested : Bool
  pub context_used : ℕ
  pub context_size : ℕ

-- `std::exchange(on_finished, nullptr)`, without what it returns.
unfoldable pub take_on_finished : Task → Task
take_on_finished t = record t { on_finished = false }

unfoldable pub set_error_state : Bytes → Bytes → ℕ → Task → Task
set_error_state msg code now t = record t {
  error = msg;
  error_code = code;
  state = error;
  finished_at = now;
}

unfoldable pub set_result : Bytes → JobState → ℕ → Task → Task
set_result text new_state now t = record t {
  result = text;
  state = new_state;
  finished_at = if is_finished new_state then now else t.finished_at;
}

unfoldable pub release_stream : Task → Task
release_stream t =
    if t.cancel_requested || is_cancelled_state t.state
    then record t { buffer = TokenBuffer.cancel t.buffer }
    else record t { buffer = TokenBuffer.set_done t.buffer }

unfoldable pub request_cancel : Task → Task
request_cancel t = record t { cancel_requested = true; buffer = TokenBuffer.cancel t.buffer }

unfoldable pub set_cancelled : ℕ → Task → Task
set_cancelled now t = record t {
  state = cancelled;
  finished_at = now;
  buffer = TokenBuffer.cancel t.buffer;
}

unfoldable pub set_running : Task → Task
set_running t = record t { state = running }

-- `std::max(0, n)`.
abbrev at_least_zero : ℤ → ℕ
at_least_zero (pos n) = n
at_least_zero (negsuc n) = 0

unfoldable pub note_context : ℤ → ℤ → Task → Task
note_context used size t = record t {
  context_used = at_least_zero used;
  context_size = at_least_zero size;
}
