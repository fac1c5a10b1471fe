-- ===== src/Jobs/Runner/Steps.antt =====
-- The executions of the job runner, as sequences of steps of its threads.
use llama_onprem_server.Prelude.{ℕ, ◌≡◌, Bool, true, none, some, Bytes}
use llama_onprem_server.Jobs.Tasks
use llama_onprem_server.Jobs.Tasks.{Task}
use llama_onprem_server.Jobs.Runner.{
  Jobs, waiting, took, chatting, closing, leave_loop, elem, erase_key, update, unsafe_gc, submit,
  cancel_lookup, cancel_withdrawn, release_session, clone_session, request_stop, request_shutdown,
  wait_next, start, Ended, end_chat, finish_task,
}

-- `requests` is how `cancel` goes on for a task that was not in the queue.
pub data Step : Jobs → Jobs → Type 0 where
  submits : {j : Jobs} (now : ℕ) (t : Task) → Step j (submit now t j)
  looks_up : {j : Jobs} (k : ℕ) → Step j (cancel_lookup k j).1
  requests : {j : Jobs} (k : ℕ) → Step j (update k Tasks.request_cancel j)
  cancels : {j : Jobs} (now k : ℕ) → elem k j.withdrawn ≡ true → Step j (cancel_withdrawn now k j)
  collects : {j : Jobs} (now : ℕ) → Step j (unsafe_gc now j)
  releases : {j : Jobs} (id : Bytes) (on_worker : Bool) → Step j (release_session id on_worker j)
  clones : {j : Jobs} (from to : Bytes) → Step j (clone_session from to j)
  stops : {j : Jobs} → Step j (request_stop j)
  shuts_down : {j : Jobs} → Step j (request_shutdown j)
  takes : {j : Jobs} → j.worker ≡ waiting → Step j (wait_next j)
  starts : {j : Jobs} (now k : ℕ) → j.worker ≡ took k → Step j (start now k j)
  ends :
      {j : Jobs} (ended : Ended) (now k : ℕ)
      → j.worker ≡ chatting k
      → Step j (end_chat ended now k j)
  worker_finishes :
      {j : Jobs} (k : ℕ)
      → j.worker ≡ closing k
      → Step j (record (finish_task k j) { worker = waiting })
  cancel_finishes :
      {j : Jobs} (k : ℕ)
      → elem k j.finishing ≡ true
      → Step j (record (finish_task k j) { finishing = erase_key k j.finishing })
  leaves : {j : Jobs} → j.worker ≡ waiting → j.stop ≡ true → Step j (leave_loop none j)
  drops : {j : Jobs} (k : ℕ) → j.worker ≡ took k → j.stop ≡ true → Step j (leave_loop (some k) j)

pub data Steps : Jobs → Jobs → Type 0 where
  nothing : {j : Jobs} → Steps j j
  after : {i j k : Jobs} → Steps i j → Step j k → Steps i k
