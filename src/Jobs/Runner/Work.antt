-- ===== src/Jobs/Runner/Work.antt =====
-- Lemmas about the places of a task for the worker's steps and `finish_task`
-- (src/server/jobs/jobs.cpp).
use llama_onprem_server.Prelude.{
  ℕ, ◌+◌, ◌≤◌, ◌≡◌, ◌⊎◌, inl, inr, refl, ap, arith, Bool, true, false, List, [], ◌∷◌, Option, none,
  some, ◌==◌, if◌then◌else◌, Bool-cases,
}
use llama_onprem_server.Jobs.Tasks
use llama_onprem_server.Jobs.Tasks.{Task, JobState, is_finished, queued}
use llama_onprem_server.Jobs.Runner.Counts.{one_if, count, count-erase_key}
use llama_onprem_server.Jobs.Runner.{
  Jobs, waiting, took, chatting, closing, elem, erase_key, update, next_task, wait_next, start,
  Ended, end_chat, finish_task, worker_with, answered, failed,
}
use llama_onprem_server.Jobs.Runner.Balance.{
  held, closing_at, dropped, finished, not_yet, IsBalanced,
}

pub start-IsBalanced :
    (k now i : ℕ) (j : Jobs) → j.worker ≡ took i → IsBalanced k j → IsBalanced k (start now i j)
unfolding start update finished not_yet Tasks.set_cancelled Tasks.set_running is_finished
start-IsBalanced k now i j at b = elim (Bool-cases (i == k)) [
  | inl same ↦ elim (Bool-cases (j.heap i).cancel_requested) [
    | inl asked ↦
        rw (asked, same) (ground (arith, ap (held k) at, ap (closing_at k) at, ap (dropped k) at))
    | inr unasked ↦
        rw (unasked, same) (ground (arith, ap (held k) at, ap (closing_at k) at, ap (dropped k) at))
  ]
  | inr other ↦ elim (Bool-cases (j.heap i).cancel_requested) [
    | inl asked ↦
        rw (asked, other) (ground (arith, ap (held k) at, ap (closing_at k) at, ap (dropped k) at))
    | inr unasked ↦
        rw (unasked, other)
          (ground (arith, ap (held k) at, ap (closing_at k) at, ap (dropped k) at))
  ]
]

next_task-counts :
    (k : ℕ) (tasks : ℕ → Bool) (q : List ℕ)
    → (count k q ≡ 0) ⊎ (tasks k ≡ true)
    → count k (next_task tasks q).1 + held k (worker_with (next_task tasks q).0) ≡ count k q
unfolding next_task count
next_task-counts k tasks [] h = omega arith
next_task-counts k tasks (x ∷ q) h = elim (Bool-cases (tasks x)) [
  | inl there ↦ rw there (omega arith)
  | inr missing ↦ rw missing (ground (arith, next_task-counts k tasks q))
]

dropped-worker_with : (k : ℕ) (task : Option ℕ) → dropped k (worker_with task) ≡ 0
dropped-worker_with k none = refl
dropped-worker_with k (some i) = refl

closing_at-worker_with : (k : ℕ) (task : Option ℕ) → closing_at k (worker_with task) ≡ 0
closing_at-worker_with k none = refl
closing_at-worker_with k (some i) = refl

release_stream-state : (t : Task) → (Tasks.release_stream t).state ≡ t.state
unfolding Tasks.release_stream
release_stream-state t = ground arith

pub release_stream-on_finished :
    (t : Task) → (Tasks.release_stream (Tasks.take_on_finished t)).on_finished ≡ false
unfolding Tasks.release_stream Tasks.take_on_finished
release_stream-on_finished t = ground arith

pub wait_next-IsBalanced :
    (k : ℕ) (j : Jobs) → j.worker ≡ waiting → IsBalanced k j → IsBalanced k (wait_next j)
unfolding wait_next finished not_yet
wait_next-IsBalanced k j at b =
    let c = next_task-counts k j.tasks j.queue b.2 in
    elim (Bool-cases j.stop) [
      | inl stopping ↦ rw stopping (b.0, b.1, b.2, b.3, b.4, inr refl)
      | inr working ↦
          rw
            (
              working,
              closing_at-worker_with k (next_task j.tasks j.queue).0,
              dropped-worker_with k (next_task j.tasks j.queue).0,
            )
            (ground (arith, c, ap (held k) at, ap (closing_at k) at, ap (dropped k) at))
    ]

pub end_chat-IsBalanced :
    (k now i : ℕ) (ended : Ended) (j : Jobs)
    → j.worker ≡ chatting i
    → IsBalanced k j
    → IsBalanced k (end_chat ended now i j)
unfolding end_chat update finished not_yet is_finished Tasks.set_result Tasks.set_error_state
end_chat-IsBalanced k now i (answered full visible) j at b = elim (Bool-cases (i == k)) [
  | inl same ↦ rw same (elim (Bool-cases (j.heap k).cancel_requested) [
    | inl asked ↦ rw asked (ground (arith, ap (held k) at, ap (closing_at k) at, ap (dropped k) at))
    | inr unasked ↦
        rw unasked (ground (arith, ap (held k) at, ap (closing_at k) at, ap (dropped k) at))
  ])
  | inr other ↦ rw other (ground (arith, ap (held k) at, ap (closing_at k) at, ap (dropped k) at))
]
end_chat-IsBalanced k now i (failed message code) j at b = elim (Bool-cases (i == k)) [
  | inl same ↦ rw same (ground (arith, ap (held k) at, ap (closing_at k) at, ap (dropped k) at))
  | inr other ↦ rw other (ground (arith, ap (held k) at, ap (closing_at k) at, ap (dropped k) at))
]

notified_at :
    (k i : ℕ) (told : Bool) (notified : List ℕ)
    → count k (if told then i ∷ notified else notified) ≤ one_if (i == k) + count k notified
unfolding count
notified_at k i told notified = ground arith

pub worker_finishes-IsBalanced :
    (k i : ℕ) (j : Jobs)
    → j.worker ≡ closing i
    → IsBalanced k j
    → IsBalanced k (record (finish_task i j) { worker = waiting })
unfolding finish_task update finished not_yet count Tasks.take_on_finished
worker_finishes-IsBalanced k i j at b =
    let n = notified_at k i (j.heap i).on_finished j.notified in
    elim (Bool-cases (i == k)) [
      | inl same ↦ rw same (
          rw
            (
              release_stream-state (Tasks.take_on_finished (j.heap k)),
              release_stream-on_finished (j.heap k),
            )
            (ground (arith, n, ap (held k) at, ap (closing_at k) at, ap (dropped k) at)))
      | inr other ↦
          rw other (ground (arith, n, ap (held k) at, ap (closing_at k) at, ap (dropped k) at))
    ]

pub cancel_finishes-IsBalanced :
    (k i : ℕ) (j : Jobs)
    → elem i j.finishing ≡ true
    → IsBalanced k j
    → IsBalanced k (record (finish_task i j) { finishing = erase_key i j.finishing })
unfolding finish_task update finished not_yet count Tasks.take_on_finished
cancel_finishes-IsBalanced k i j at b =
    let n = notified_at k i (j.heap i).on_finished j.notified in
    let c = count-erase_key i k j.finishing at in
    elim (Bool-cases (i == k)) [
      | inl same ↦ rw same (
          rw
            (
              release_stream-state (Tasks.take_on_finished (j.heap k)),
              release_stream-on_finished (j.heap k),
            )
            (ground (arith, n, c)))
      | inr other ↦ rw other (ground (arith, n, c))
    ]
