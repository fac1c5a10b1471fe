-- ===== src/Jobs/Runner/Balance.antt =====
-- The places where a task of `Jobs` (src/server/jobs/jobs.cpp) can be, counted, and lemmas for the
-- operations of other threads than the worker.
use llama_onprem_server.Prelude.{
  ℕ, ◌+◌, ◌≤◌, ◌≡◌, ◌⊎◌, inl, inr, refl, arith, true, not, ◌||◌, none, some, [], ◌∷◌, leb, ◌==◌,
  Bool-cases,
}
use llama_onprem_server.Jobs.Tasks
use llama_onprem_server.Jobs.Tasks.{Task, JobState, is_finished, queued}
use llama_onprem_server.Jobs.Runner.Counts.{one_if, count, count-append, count-erase_key}
use llama_onprem_server.Jobs.Runner.{
  Jobs, Worker, waiting, took, chatting, closing, gone, elem, update, unsafe_gc, enqueue, submit,
  cancel_lookup, cancel_withdrawn, request_stop, request_shutdown, is_current,
}

-- The worker has the task and it is not finished.
abbrev pub held : ℕ → Worker → ℕ
held k (took i) = one_if (i == k)
held k (chatting i) = one_if (i == k)
held k (closing i) = 0
held k waiting = 0
held k (gone dropped) = 0

-- The worker is in `finish_task` with it.
abbrev pub closing_at : ℕ → Worker → ℕ
closing_at k (closing i) = one_if (i == k)
closing_at k (took i) = 0
closing_at k (chatting i) = 0
closing_at k waiting = 0
closing_at k (gone dropped) = 0

-- The worker dropped it when it left.
abbrev pub dropped : ℕ → Worker → ℕ
dropped k (gone (some i)) = one_if (i == k)
dropped k (gone none) = 0
dropped k waiting = 0
dropped k (took i) = 0
dropped k (chatting i) = 0
dropped k (closing i) = 0

unfoldable pub finished : ℕ → Jobs → ℕ
finished k j = one_if (is_finished (j.heap k).state)

unfoldable pub not_yet : ℕ → Jobs → ℕ
not_yet k j = one_if (leb j.next_key k)

abbrev pub IsBalanced : ℕ → Jobs → Type 0
IsBalanced k j =
    (count k j.queue
        + count k j.withdrawn
        + held k j.worker
        + dropped k j.worker
        + finished k j
        + not_yet k j
      ≡ 1)
    × (count k j.finishing + closing_at k j.worker + count k j.closed ≡ finished k j)
    × ((count k j.queue ≡ 0) ⊎ (j.tasks k ≡ true))
    × (count k j.notified ≤ count k j.closed)
    × (one_if (j.heap k).on_finished + count k j.closed ≤ 1)
    × ((dropped k j.worker ≡ 0) ⊎ (j.stop ≡ true))

pub cancel_withdrawn-IsBalanced :
    (k now i : ℕ) (j : Jobs)
    → elem i j.withdrawn ≡ true
    → IsBalanced k j
    → IsBalanced k (cancel_withdrawn now i j)
unfolding cancel_withdrawn update finished not_yet Tasks.set_cancelled Tasks.request_cancel
    is_finished count
cancel_withdrawn-IsBalanced k now i j at b =
    let c = count-erase_key i k j.withdrawn at in
    elim (Bool-cases (i == k)) [
      | inl same ↦ rw same (ground (arith, c))
      | inr other ↦ rw other (ground (arith, c))
    ]

pub request_cancel-IsBalanced :
    (k i : ℕ) (j : Jobs) → IsBalanced k j → IsBalanced k (update i Tasks.request_cancel j)
unfolding update finished not_yet Tasks.request_cancel
request_cancel-IsBalanced k i j b = elim (Bool-cases (i == k)) [
  | inl same ↦ rw same b
  | inr other ↦ rw other b
]

pub unsafe_gc-IsBalanced : (k now : ℕ) (j : Jobs) → IsBalanced k j → IsBalanced k (unsafe_gc now j)
unfolding unsafe_gc finished not_yet
unsafe_gc-IsBalanced k now j b = ground (arith, b.0, b.2)

pub request_stop-IsBalanced : (k : ℕ) (j : Jobs) → IsBalanced k j → IsBalanced k (request_stop j)
unfolding request_stop finished not_yet
request_stop-IsBalanced k j b = (b.0, b.1, b.2, b.3, b.4, inr refl)

pub request_shutdown-IsBalanced :
    (k : ℕ) (j : Jobs) → IsBalanced k j → IsBalanced k (request_shutdown j)
unfolding request_shutdown finished not_yet Tasks.request_cancel
request_shutdown-IsBalanced k j b = elim (Bool-cases (j.tasks k || is_current k j.worker)) [
  | inl told ↦ rw told (b.0, b.1, b.2, b.3, b.4, inr refl)
  | inr untold ↦ rw untold (b.0, b.1, b.2, b.3, b.4, inr refl)
]

pub submit-IsBalanced :
    (k now : ℕ) (t : Task) (j : Jobs) → IsBalanced k j → IsBalanced k (submit now t j)
unfolding submit enqueue update unsafe_gc finished not_yet is_finished count
submit-IsBalanced k now t j b =
    let c = count-append k j.queue (j.next_key ∷ []) in
    elim (Bool-cases (j.next_key == k)) [
      | inl same ↦ rw same (ground (arith, c))
      | inr other ↦ rw other (ground (arith, c))
    ]

pub cancel_lookup-IsBalanced :
    (k i : ℕ) (j : Jobs) → IsBalanced k j → IsBalanced k (cancel_lookup i j).1
unfolding cancel_lookup finished not_yet count
cancel_lookup-IsBalanced k i j b = elim (Bool-cases (not (j.tasks i))) [
  | inl missing ↦ rw missing b
  | inr there ↦ elim (Bool-cases (elem i j.queue)) [
    | inl waits ↦ rw (there, waits) (ground (arith, count-erase_key i k j.queue waits))
    | inr away ↦ rw (there, away) b
  ]
]
