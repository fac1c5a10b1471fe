-- ===== src/Jobs/Runner.antt =====
-- `Jobs` (src/server/jobs/jobs.hpp, jobs.cpp): the tasks, the queue and the worker. Each critical
-- section is one operation. A thread between two of them is part of the state: the calls of `cancel`
-- that took a task off the queue, the calls of `finish_task`, and the worker.
pub mod Counts
pub mod Steps
pub mod Balance
pub mod Work
pub mod Once
pub mod Final
pub mod Callback
use llama_onprem_server.Prelude.{
  ℕ, suc, ◌+◌, ◌-◌, ◌*◌, Bool, true, false, not, ◌&&◌, ◌||◌, List, [], ◌∷◌, ◌++◌, Option, none,
  some, ltb, ◌==◌, if◌then◌else◌, length, Bytes, bytes_eq,
}
use llama_onprem_server.Jobs.Tasks
use llama_onprem_server.Jobs.Tasks.{Task, queued, is_finished}

-- Where the worker is: at `wait_next`, with a task from it, in `chat`, in `finish_task`, or gone. A
-- worker that was told to stop while it was in `wait_next` drops the task that it took.
pub data Worker : Type 0 where
  waiting : Worker
  took : ℕ → Worker
  chatting : ℕ → Worker
  closing : ℕ → Worker
  gone : Option ℕ → Worker

-- `heap` holds every task by its key, `tasks` says which keys are in `tasks_`, and `next_key` is the
-- counter of keys. `closed` and `notified` log the calls of `finish_task` that took the callback,
-- and the callbacks that ran.
pub record Jobs : Type 0 where
  pub heap : ℕ → Task
  pub next_key : ℕ
  pub tasks : ℕ → Bool
  pub queue : List ℕ
  pub releases : List Bytes
  pub clones : List (Bytes × Bytes)
  pub stop : Bool
  pub worker : Worker
  pub withdrawn : List ℕ
  pub finishing : List ℕ
  pub closed : List ℕ
  pub notified : List ℕ

pub elem : ℕ → List ℕ → Bool
elem k [] = false
elem k (x ∷ xs) = x == k || elem k xs

-- `queue_.erase(std::ranges::find(queue_, k))`.
pub erase_key : ℕ → List ℕ → List ℕ
erase_key k [] = []
erase_key k (x ∷ xs) = let rest = erase_key k xs in if x == k then xs else x ∷ rest

-- A method of one task.
pub update : ℕ → (Task → Task) → Jobs → Jobs
update k f j = record j { heap = λ i. if k == i then f (j.heap i) else j.heap i }

-- 300 seconds, in nanoseconds.
abbrev finished_ttl : ℕ
finished_ttl = 300 * 1_000_000_000

abbrev pub expired : ℕ → Task → Bool
expired now t =
    is_finished t.state && not (t.finished_at == 0) && ltb finished_ttl (now - t.finished_at)

unfoldable pub unsafe_gc : ℕ → Jobs → Jobs
unsafe_gc now j = record j { tasks = λ k. j.tasks k && not (expired now (j.heap k)) }

pub enqueue : ℕ → ℕ → Jobs → Jobs
unfolding update unsafe_gc
enqueue now k j =
    let j' = update k (λ t. record t { state = queued }) (unsafe_gc now j) in
    record j' { tasks = λ i. k == i || j'.tasks i; queue = j.queue ++ k ∷ [] }

-- `submit`: a new task, and the key that `next_job_key` gives it.
unfoldable pub submit : ℕ → Task → Jobs → Jobs
unfolding enqueue update
submit now t j =
    let fresh = record (update j.next_key (λ old. t) j) { next_key = j.next_key + 1 } in
    enqueue now j.next_key fresh

-- The first half of `cancel`, under the mutex: none is a key that is not there, and the flag is
-- `notify_immediately`. Without it, `request_cancel` of the task is what follows.
unfoldable pub cancel_lookup : ℕ → Jobs → Option Bool × Jobs
unfolding elem erase_key
cancel_lookup k j =
    if not (j.tasks k)
    then (none, j)
    else if elem k j.queue
    then (some true, record j { queue = erase_key k j.queue; withdrawn = k ∷ j.withdrawn })
    else (some false, j)

-- The second half for a task that was taken off the queue, up to its call of `finish_task`.
unfoldable pub cancel_withdrawn : ℕ → ℕ → Jobs → Jobs
unfolding update erase_key
cancel_withdrawn now k j =
    record (update k (λ t. Tasks.set_cancelled now (Tasks.request_cancel t)) j) {
      withdrawn = erase_key k j.withdrawn;
      finishing = k ∷ j.finishing;
    }

unfoldable pub release_session : Bytes → Bool → Jobs → Jobs
release_session id on_worker_thread j =
    if length id == 0 || on_worker_thread then j else record j { releases = j.releases ++ id ∷ [] }

unfoldable pub clone_session : Bytes → Bytes → Jobs → Jobs
clone_session from to j =
    if length from == 0 || length to == 0 || bytes_eq from to
    then j
    else record j { clones = j.clones ++ (from, to) ∷ [] }

-- `current_task_`.
abbrev pub is_current : ℕ → Worker → Bool
is_current k (chatting i) = i == k
is_current k waiting = false
is_current k (took i) = false
is_current k (closing i) = false
is_current k (gone dropped) = false

-- `worker_.request_stop()`: the worker may see it before `request_shutdown` goes on.
pub request_stop : Jobs → Jobs
request_stop j = record j { stop = true }

pub request_shutdown : Jobs → Jobs
request_shutdown j = record j {
  stop = true;
  heap =
      λ k. if j.tasks k || is_current k j.worker then Tasks.request_cancel (j.heap k) else j.heap k;
}

-- The loop of `wait_next` over the queue: the first key that is in `tasks_`, and what is behind it.
unfoldable pub next_task : (ℕ → Bool) → List ℕ → Option ℕ × List ℕ
next_task tasks [] = (none, [])
next_task tasks (k ∷ queue) =
    let rest = next_task tasks queue in if tasks k then (some k, queue) else rest

abbrev pub worker_with : Option ℕ → Worker
worker_with none = waiting
worker_with (some k) = took k

-- `wait_next` once its condition holds. The clones and releases go to the engine, unless the worker
-- leaves.
unfoldable pub wait_next : Jobs → Jobs
unfolding next_task
wait_next j =
    let (task, queue) = next_task j.tasks j.queue in
    if j.stop
    then j
    else record j { queue = queue; releases = []; clones = []; worker = worker_with task }

-- The worker with a task: a cancelled one is finished, any other one runs.
unfoldable pub start : ℕ → ℕ → Jobs → Jobs
unfolding update
start now k j =
    if (j.heap k).cancel_requested
    then record (update k (Tasks.set_cancelled now) j) { worker = closing k }
    else record (update k Tasks.set_running j) { worker = chatting k }

-- The test behind `wait_next`: the loop is left, and what was taken is dropped.
pub leave_loop : Option ℕ → Jobs → Jobs
leave_loop task j = record j { worker = gone task }

-- How `chat` ended: with a text, with `LlamaContextFull`, or with another exception.
pub data Ended : Type 0 where
  answered : Bytes → Bytes → Ended
  failed : Bytes → Bytes → Ended

abbrev pub end_state : Ended → ℕ → Task → Task
end_state (answered full visible) now t =
    if t.cancel_requested
    then Tasks.set_result full Tasks.cancelled now t
    else Tasks.set_result visible Tasks.done now t
end_state (failed message code) now t = Tasks.set_error_state message code now t

unfoldable pub end_chat : Ended → ℕ → ℕ → Jobs → Jobs
unfolding update
end_chat ended now k j = record (update k (end_state ended now) j) { worker = closing k }

-- `finish_task`: the callback runs if it was still there, and the stream is released.
unfoldable pub finish_task : ℕ → Jobs → Jobs
unfolding update
finish_task k j = record (update k (λ t. Tasks.release_stream (Tasks.take_on_finished t)) j) {
  closed = k ∷ j.closed;
  notified = if (j.heap k).on_finished then k ∷ j.notified else j.notified;
}
