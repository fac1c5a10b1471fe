-- ===== src/Jobs/Runner/Final.antt =====
-- Theorems about a task of `Jobs` (src/server/jobs/jobs.cpp) behind its end.
use llama_onprem_server.Prelude.{
  ℕ, ◌≡◌, ◌⊎◌, inl, inr, refl, ap, ◌∙◌, arith, Bool, true, false, not, ◌||◌, [], ◌==◌, Bool-cases,
  Bytes, length, bytes_eq,
}
use llama_onprem_server.Jobs.Tasks
use llama_onprem_server.Jobs.Tasks.{Task, JobState, is_finished, queued, unknown}
use llama_onprem_server.Jobs.Runner.Counts.{one_if, count-erase_key}
use llama_onprem_server.Jobs.Runner.{
  Jobs, took, chatting, elem, update, unsafe_gc, enqueue, submit, cancel_lookup, cancel_withdrawn,
  release_session, clone_session, request_stop, request_shutdown, wait_next, start, leave_loop,
  Ended, end_chat, finish_task, is_current, end_state,
}
use llama_onprem_server.Jobs.Runner.Steps.{
  Step, submits, looks_up, requests, cancels, collects, releases, clones, stops, shuts_down, takes,
  starts, ends, worker_finishes, cancel_finishes, leaves, drops, Steps, nothing, after,
}
use llama_onprem_server.Jobs.Runner.Balance.{held, finished, not_yet, IsBalanced}
use llama_onprem_server.Jobs.Runner.Once.{Steps-IsBalanced}

-- State, result and error are as before.
abbrev pub SameOutcome : Task → Task → Type 0
SameOutcome t t' = (t'.state ≡ t.state) × (t'.result ≡ t.result) × (t'.error ≡ t.error)

at_key :
    (k i : ℕ) (f : Task → Task) (j : Jobs)
    → ((i == k) ≡ false) ⊎ SameOutcome (j.heap k) (f (j.heap k))
    → SameOutcome (j.heap k) ((update i f j).heap k)
unfolding update
at_key k i f j h = elim (Bool-cases (i == k)) [
  | inl same ↦ rw same (elim h [ inl other ↦ ground (arith, same, other) | inr kept ↦ kept ])
  | inr other ↦ rw other (refl, refl, refl)
]

not_held :
    (k i : ℕ) (j : Jobs)
    → finished k j ≡ 1
    → IsBalanced k j
    → held k j.worker ≡ one_if (i == k)
    → (i == k) ≡ false
not_held k i j f b at = ground (arith, b.0)

same_outcome : (t : Task) → SameOutcome t t
same_outcome t = (refl, refl, refl)

release_outcome : (t : Task) → SameOutcome t (Tasks.release_stream (Tasks.take_on_finished t))
unfolding Tasks.release_stream Tasks.take_on_finished
release_outcome t = elim (Bool-cases (t.cancel_requested || Tasks.is_cancelled_state t.state)) [
  | inl stopped ↦ rw stopped (refl, refl, refl)
  | inr ended ↦ rw ended (refl, refl, refl)
]

request_outcome : (t : Task) → SameOutcome t (Tasks.request_cancel t)
unfolding Tasks.request_cancel
request_outcome t = (refl, refl, refl)

submit_outcome :
    (k now : ℕ) (t : Task) (j : Jobs)
    → finished k j ≡ 1
    → IsBalanced k j
    → SameOutcome (j.heap k) ((submit now t j).heap k)
unfolding submit enqueue update unsafe_gc not_yet
submit_outcome k now t j f b =
    let other : (j.next_key == k) ≡ false = ground (arith, b.0) in rw other (refl, refl, refl)

lookup_outcome : (k i : ℕ) (j : Jobs) → SameOutcome (j.heap k) ((cancel_lookup i j).1.heap k)
unfolding cancel_lookup
lookup_outcome k i j = elim (Bool-cases (not (j.tasks i))) [
  | inl missing ↦ rw missing (refl, refl, refl)
  | inr there ↦ elim (Bool-cases (elem i j.queue)) [
    | inl waits ↦ rw (there, waits) (refl, refl, refl)
    | inr away ↦ rw (there, away) (refl, refl, refl)
  ]
]

withdrawn_outcome :
    (k now i : ℕ) (j : Jobs)
    → elem i j.withdrawn ≡ true
    → finished k j ≡ 1
    → IsBalanced k j
    → SameOutcome (j.heap k) ((cancel_withdrawn now i j).heap k)
unfolding cancel_withdrawn
withdrawn_outcome k now i j at f b =
    at_key k i (λ t. Tasks.set_cancelled now (Tasks.request_cancel t)) j
      (inl (ground (arith, count-erase_key i k j.withdrawn at, b.0)))

shutdown_outcome : (k : ℕ) (j : Jobs) → SameOutcome (j.heap k) ((request_shutdown j).heap k)
unfolding request_shutdown Tasks.request_cancel
shutdown_outcome k j = elim (Bool-cases (j.tasks k || is_current k j.worker)) [
  | inl told ↦ rw told (refl, refl, refl)
  | inr untold ↦ rw untold (refl, refl, refl)
]

wait_outcome : (k : ℕ) (j : Jobs) → SameOutcome (j.heap k) ((wait_next j).heap k)
unfolding wait_next
wait_outcome k j = elim (Bool-cases j.stop) [
  | inl stopping ↦ rw stopping (refl, refl, refl)
  | inr working ↦ rw working (refl, refl, refl)
]

start_outcome :
    (k now i : ℕ) (j : Jobs)
    → j.worker ≡ took i
    → finished k j ≡ 1
    → IsBalanced k j
    → SameOutcome (j.heap k) ((start now i j).heap k)
unfolding start
start_outcome k now i j at f b =
    let other = not_held k i j f b (ap (held k) at) in
    elim (Bool-cases (j.heap i).cancel_requested) [
      | inl asked ↦ rw asked (at_key k i (Tasks.set_cancelled now) j (inl other))
      | inr unasked ↦ rw unasked (at_key k i Tasks.set_running j (inl other))
    ]

end_outcome :
    (k now i : ℕ) (ended : Ended) (j : Jobs)
    → j.worker ≡ chatting i
    → finished k j ≡ 1
    → IsBalanced k j
    → SameOutcome (j.heap k) ((end_chat ended now i j).heap k)
unfolding end_chat
end_outcome k now i ended j at f b =
    at_key k i (end_state ended now) j (inl (not_held k i j f b (ap (held k) at)))

finish_outcome : (k i : ℕ) (j : Jobs) → SameOutcome (j.heap k) ((finish_task i j).heap k)
unfolding finish_task
finish_outcome k i j =
    at_key k i (λ t. Tasks.release_stream (Tasks.take_on_finished t)) j
      (inr (release_outcome (j.heap k)))

session_outcome :
    (k : ℕ) (id from to : Bytes) (on_worker : Bool) (j : Jobs)
    → SameOutcome (j.heap k) ((release_session id on_worker j).heap k)
      × SameOutcome (j.heap k) ((clone_session from to j).heap k)
unfolding release_session clone_session
session_outcome k id from to on_worker j = (
  elim (Bool-cases (length id == 0 || on_worker)) [
    | inl skipped ↦ rw skipped (refl, refl, refl)
    | inr kept ↦ rw kept (refl, refl, refl)
  ],
  elim (Bool-cases (length from == 0 || length to == 0 || bytes_eq from to)) [
    | inl skipped ↦ rw skipped (refl, refl, refl)
    | inr kept ↦ rw kept (refl, refl, refl)
  ],
)

Step-SameOutcome :
    {j j' : Jobs} (k : ℕ)
    → Step j j'
    → finished k j ≡ 1
    → IsBalanced k j
    → SameOutcome (j.heap k) (j'.heap k)
Step-SameOutcome k (submits now t) f b = submit_outcome k now t _ f b
Step-SameOutcome k (looks_up i) f b = lookup_outcome k i _
Step-SameOutcome {j = j} k (requests i) f b =
    at_key k i Tasks.request_cancel j (inr (request_outcome (j.heap k)))
Step-SameOutcome k (cancels now i at) f b = withdrawn_outcome k now i _ at f b
Step-SameOutcome {j = j} k (collects now) f b = unfold unsafe_gc in same_outcome (j.heap k)
Step-SameOutcome k (releases id on_worker) f b = (session_outcome k id [] [] on_worker _).0
Step-SameOutcome k (clones from to) f b = (session_outcome k [] from to true _).1
Step-SameOutcome {j = j} k stops f b = unfold request_stop in same_outcome (j.heap k)
Step-SameOutcome k shuts_down f b = shutdown_outcome k _
Step-SameOutcome k (takes at) f b = wait_outcome k _
Step-SameOutcome k (starts now i at) f b = start_outcome k now i _ at f b
Step-SameOutcome k (ends ended now i at) f b = end_outcome k now i ended _ at f b
Step-SameOutcome k (worker_finishes i at) f b = finish_outcome k i _
Step-SameOutcome k (cancel_finishes i at) f b = finish_outcome k i _
Step-SameOutcome {j = j} k (leaves at stopped) f b = unfold leave_loop in same_outcome (j.heap k)
Step-SameOutcome {j = j} k (drops i at stopped) f b = unfold leave_loop in same_outcome (j.heap k)

still_finished :
    (j j' : Jobs) (k : ℕ)
    → SameOutcome (j.heap k) (j'.heap k)
    → finished k j ≡ 1
    → finished k j' ≡ 1
unfolding finished
still_finished j j' k s f = ap (λ state. one_if (is_finished state)) s.0 ∙ f

-- In every execution, a task that is finished at some point has the same state, result and error at
-- every later point.
pub finished_stays :
    {i j : Jobs} (k : ℕ)
    → Steps i j
    → IsBalanced k i
    → finished k i ≡ 1
    → SameOutcome (i.heap k) (j.heap k)
finished_stays {i = i} k nothing b f = same_outcome (i.heap k)
finished_stays {i = i} k (after {j = m} steps step) b f =
    let s = finished_stays k steps b f in
    let t = Step-SameOutcome k step (still_finished i m k s f) (Steps-IsBalanced k steps b) in
    (t.0 ∙ s.0, t.1 ∙ s.1, t.2 ∙ s.2)
