-- ===== src/Tests/Runner.antt =====
-- Tests of Jobs/Runner: a task is submitted, taken, answered and finished, and another is cancelled
-- in the queue.
use llama_onprem_server.Prelude.{◌≤◌, ◌≡◌, ◌⊎◌, refl, arith, true, [], ◌∷◌, codes}
use llama_onprem_server.Jobs.Runner.Balance.{IsBalanced, finished}
use llama_onprem_server.Jobs.Runner.Callback.{callback_once}
use llama_onprem_server.Jobs.Runner.Counts.{count}
use llama_onprem_server.Jobs.Runner.Final.{SameOutcome, finished_stays}
use llama_onprem_server.Jobs.Runner.Once.{
  blank, new_jobs, new_jobs-IsBalanced, every-IsBalanced, Steps-IsBalanced,
}
use llama_onprem_server.Jobs.Runner.Steps.{
  submits, shuts_down, takes, starts, ends, worker_finishes, Steps, nothing, after,
}
use llama_onprem_server.Jobs.Runner.{
  Jobs, submit, wait_next, start, end_chat, finish_task, waiting, answered, cancel_lookup,
  cancel_withdrawn, unsafe_gc, next_task, request_shutdown,
}
use llama_onprem_server.Jobs.Tasks
use llama_onprem_server.Jobs.Tasks.{Task, is_finished, done}

abbrev asked : Task
asked = record blank { on_finished = true }

abbrev submitted : Jobs
submitted = submit 10 asked new_jobs

abbrev taken : Jobs
taken = wait_next submitted

abbrev started : Jobs
started = start 20 1 taken

abbrev answered_one : Jobs
answered_one = end_chat (answered (codes "full") (codes "hi")) 30 1 started

abbrev closed_one : Jobs
closed_one = record (finish_task 1 answered_one) { worker = waiting }

to_answer : Steps submitted answered_one
unfolding submit wait_next next_task unsafe_gc start end_chat
to_answer =
    after (after (after nothing (takes refl)) (starts 20 1 refl))
      (ends (answered (codes "full") (codes "hi")) 30 1 refl)

to_close : Steps submitted closed_one
unfolding submit wait_next next_task unsafe_gc start end_chat
to_close = after to_answer (worker_finishes 1 refl)

joined : Steps new_jobs submitted
joined = after nothing (submits 10 asked)

one-IsBalanced : IsBalanced 1 submitted
one-IsBalanced = every-IsBalanced 1 joined (omega arith)

every-IsBalanced_example : IsBalanced 2 submitted
every-IsBalanced_example = every-IsBalanced 2 joined (omega arith)

callback_once_example :
    (count 1 closed_one.notified ≤ 1)
    × ((count 1 closed_one.closed ≡ 0) ⊎ (count 1 closed_one.notified ≡ 1))
callback_once_example =
    callback_once new_jobs 10 asked (new_jobs-IsBalanced 1 (omega arith)) refl to_close

callback_runs : closed_one.notified ≡ 1 ∷ []
unfolding submit wait_next next_task unsafe_gc start end_chat finish_task Tasks.set_running
    Tasks.set_result
callback_runs = refl

one_finished : finished 1 answered_one ≡ 1
unfolding finished submit wait_next next_task unsafe_gc start end_chat is_finished Tasks.set_running
    Tasks.set_result
one_finished = refl

-- Shutting down asks every task to stop, and leaves the finished one as it is.
finished_stays_example : SameOutcome (answered_one.heap 1) ((request_shutdown answered_one).heap 1)
finished_stays_example =
    finished_stays 1 (after nothing shuts_down) (Steps-IsBalanced 1 to_answer one-IsBalanced)
      one_finished

-- A task that is cancelled in the queue is finished without the worker.
abbrev withdrawn_one : Jobs
withdrawn_one = cancel_withdrawn 15 1 (cancel_lookup 1 submitted).1

withdrawn_runs :
    (withdrawn_one.queue ≡ [])
    × (withdrawn_one.finishing ≡ 1 ∷ [])
    × ((withdrawn_one.heap 1).state ≡ Tasks.cancelled)
unfolding cancel_withdrawn cancel_lookup submit unsafe_gc Tasks.set_cancelled
withdrawn_runs = (refl, refl, refl)
