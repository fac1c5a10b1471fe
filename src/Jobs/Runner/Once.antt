-- ===== src/Jobs/Runner/Once.antt =====
-- Theorems about the places of a task of `Jobs` (src/server/jobs/jobs.cpp) in an execution.
use llama_onprem_server.Prelude.{
  ℕ, ◌<◌, ◌≡◌, inl, inr, ap, arith, Bool, true, false, none, some, ◌||◌, [], ◌==◌, Bool-cases,
  Bytes, length, bytes_eq,
}
use llama_onprem_server.Jobs.Tasks.{Task, is_finished, unknown}
use llama_onprem_server.Jobs.TokenBuffer.{new_buffer}
use llama_onprem_server.Jobs.Runner.Counts.{count}
use llama_onprem_server.Jobs.Runner.{
  Jobs, waiting, took, leave_loop, release_session, clone_session,
}
use llama_onprem_server.Jobs.Runner.Steps.{
  Step, submits, looks_up, requests, cancels, collects, releases, clones, stops, shuts_down, takes,
  starts, ends, worker_finishes, cancel_finishes, leaves, drops, Steps, nothing, after,
}
use llama_onprem_server.Jobs.Runner.Balance.{
  held, closing_at, dropped, finished, not_yet, IsBalanced, cancel_withdrawn-IsBalanced,
  request_cancel-IsBalanced, unsafe_gc-IsBalanced, request_stop-IsBalanced,
  request_shutdown-IsBalanced, submit-IsBalanced, cancel_lookup-IsBalanced,
}
use llama_onprem_server.Jobs.Runner.Work.{
  start-IsBalanced, wait_next-IsBalanced, end_chat-IsBalanced, worker_finishes-IsBalanced,
  cancel_finishes-IsBalanced,
}

release_session-IsBalanced :
    (k : ℕ) (id : Bytes) (on_worker : Bool) (j : Jobs)
    → IsBalanced k j
    → IsBalanced k (release_session id on_worker j)
unfolding release_session finished not_yet
release_session-IsBalanced k id on_worker j b = elim (Bool-cases (length id == 0 || on_worker)) [
  | inl skipped ↦ rw skipped b
  | inr kept ↦ rw kept b
]

clone_session-IsBalanced :
    (k : ℕ) (from to : Bytes) (j : Jobs) → IsBalanced k j → IsBalanced k (clone_session from to j)
unfolding clone_session finished not_yet
clone_session-IsBalanced k from to j b =
    elim (Bool-cases (length from == 0 || length to == 0 || bytes_eq from to)) [
      | inl skipped ↦ rw skipped b
      | inr kept ↦ rw kept b
    ]

leave-IsBalanced :
    (k : ℕ) (j : Jobs)
    → j.worker ≡ waiting
    → IsBalanced k j
    → j.stop ≡ true
    → IsBalanced k (leave_loop none j)
unfolding leave_loop finished not_yet
leave-IsBalanced k j at b stopped =
    ground (arith, b.0, b.1, ap (held k) at, ap (closing_at k) at, ap (dropped k) at)

drop-IsBalanced :
    (k i : ℕ) (j : Jobs)
    → j.worker ≡ took i
    → IsBalanced k j
    → j.stop ≡ true
    → IsBalanced k (leave_loop (some i) j)
unfolding leave_loop finished not_yet
drop-IsBalanced k i j at b stopped =
    ground (arith, b.0, b.1, ap (held k) at, ap (closing_at k) at, ap (dropped k) at)

pub Step-IsBalanced : {j j' : Jobs} (k : ℕ) → Step j j' → IsBalanced k j → IsBalanced k j'
Step-IsBalanced k (submits now t) b = submit-IsBalanced k now t _ b
Step-IsBalanced k (looks_up i) b = cancel_lookup-IsBalanced k i _ b
Step-IsBalanced k (requests i) b = request_cancel-IsBalanced k i _ b
Step-IsBalanced k (cancels now i at) b = cancel_withdrawn-IsBalanced k now i _ at b
Step-IsBalanced k (collects now) b = unsafe_gc-IsBalanced k now _ b
Step-IsBalanced k (releases id on_worker) b = release_session-IsBalanced k id on_worker _ b
Step-IsBalanced k (clones from to) b = clone_session-IsBalanced k from to _ b
Step-IsBalanced k stops b = request_stop-IsBalanced k _ b
Step-IsBalanced k shuts_down b = request_shutdown-IsBalanced k _ b
Step-IsBalanced k (takes at) b = wait_next-IsBalanced k _ at b
Step-IsBalanced k (starts now i at) b = start-IsBalanced k now i _ at b
Step-IsBalanced k (ends ended now i at) b = end_chat-IsBalanced k now i ended _ at b
Step-IsBalanced k (worker_finishes i at) b = worker_finishes-IsBalanced k i _ at b
Step-IsBalanced k (cancel_finishes i at) b = cancel_finishes-IsBalanced k i _ at b
Step-IsBalanced k (leaves at stopped) b = leave-IsBalanced k _ at b stopped
Step-IsBalanced k (drops i at stopped) b = drop-IsBalanced k i _ at b stopped

pub Steps-IsBalanced : {i j : Jobs} (k : ℕ) → Steps i j → IsBalanced k i → IsBalanced k j
Steps-IsBalanced k nothing b = b
Steps-IsBalanced k (after steps step) b = Step-IsBalanced k step (Steps-IsBalanced k steps b)

abbrev pub blank : Task
blank = record {
  buffer = new_buffer;
  finished_at = 0;
  on_finished = false;
  state = unknown;
  error = [];
  error_code = [];
  result = [];
  cancel_requested = false;
  context_used = 0;
  context_size = 0;
}

-- No task yet; the first key is 1.
abbrev pub new_jobs : Jobs
new_jobs = record {
  heap = λ k. blank;
  next_key = 1;
  tasks = λ k. false;
  queue = [];
  releases = [];
  clones = [];
  stop = false;
  worker = waiting;
  withdrawn = [];
  finishing = [];
  closed = [];
  notified = [];
}

pub new_jobs-IsBalanced : (k : ℕ) → 0 < k → IsBalanced k new_jobs
unfolding count finished not_yet is_finished
new_jobs-IsBalanced k h = ground arith

-- In every execution of the job runner, a task is in exactly one place: not submitted yet, in the
-- queue, taken off by a call of `cancel`, with the worker, dropped by the worker when it left, or
-- finished. A finished one is on its way through `finish_task` or went through it once. A queued one
-- is in `tasks_`. Its callback ran at most as often as `finish_task`, which runs at most once. A task
-- is dropped only if the worker was told to stop.
pub every-IsBalanced : {j : Jobs} (k : ℕ) → Steps new_jobs j → 0 < k → IsBalanced k j
every-IsBalanced k steps h = Steps-IsBalanced k steps (new_jobs-IsBalanced k h)
