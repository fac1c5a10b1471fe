-- ===== src/Jobs/Runner/Callback.antt =====
-- Theorems about the calls of `on_finished` in `Jobs` (src/server/jobs/jobs.cpp).
use llama_onprem_server.Prelude.{
  ℕ, ◌+◌, ◌≤◌, ◌≡◌, ◌⊎◌, inl, inr, refl, ap, ◌∙◌, arith, Bool, true, false, not, ◌||◌, List, [],
  ◌∷◌, ◌==◌, if◌then◌else◌, Bool-cases, Bytes, length, bytes_eq,
}
use llama_onprem_server.Jobs.Tasks
use llama_onprem_server.Jobs.Tasks.{Task, JobState, is_finished, queued, unknown}
use llama_onprem_server.Jobs.Runner.Counts.{one_if, count}
use llama_onprem_server.Jobs.Runner.{
  Jobs, elem, update, unsafe_gc, enqueue, submit, cancel_lookup, cancel_withdrawn, release_session,
  clone_session, request_stop, request_shutdown, wait_next, start, leave_loop, Ended, end_chat,
  finish_task, is_current, end_state, answered, failed,
}
use llama_onprem_server.Jobs.Runner.Steps.{
  Step, submits, looks_up, requests, cancels, collects, releases, clones, stops, shuts_down, takes,
  starts, ends, worker_finishes, cancel_finishes, leaves, drops, Steps, nothing, after,
}
use llama_onprem_server.Jobs.Runner.Balance.{not_yet, IsBalanced, submit-IsBalanced}
use llama_onprem_server.Jobs.Runner.Once.{Steps-IsBalanced}
use llama_onprem_server.Jobs.Runner.Work.{release_stream-on_finished}

-- How often the callback of the task ran, or will run if it is still there.
unfoldable told : ℕ → Jobs → ℕ
told k j = count k j.notified + one_if (j.heap k).on_finished

abbrev Keeps : ℕ → Jobs → Jobs → Type 0
Keeps k j j' = (told k j' ≡ told k j) × (not_yet k j' ≡ 0)

count-notified :
    (k i : ℕ) (b : Bool) (notified : List ℕ)
    → count k (if b then i ∷ notified else notified)
      ≡ (if b then one_if (i == k) else 0) + count k notified
unfolding count
count-notified k i b notified = ground arith

told-finish_task : (k i : ℕ) (j : Jobs) → told k (finish_task i j) ≡ told k j
unfolding finish_task update told count
told-finish_task k i j =
    let n = count-notified k i (j.heap i).on_finished j.notified in
    elim (Bool-cases (i == k)) [
      | inl same ↦
          let e : i ≡ k = ground (arith, same) in
          let h : (j.heap i).on_finished ≡ (j.heap k).on_finished =
            ap (λ x. (j.heap x).on_finished) e in
          rw (same, release_stream-on_finished (j.heap k)) (ground (arith, n, h))
      | inr other ↦ rw other (ground (arith, n))
    ]

told-update :
    (k i : ℕ) (f : Task → Task) (j : Jobs)
    → ((t : Task) → (f t).on_finished ≡ t.on_finished)
    → told k (update i f j) ≡ told k j
unfolding update told
told-update k i f j h = elim (Bool-cases (i == k)) [
  | inl same ↦ rw (same, h (j.heap k)) refl
  | inr other ↦ rw other refl
]

submit-Keeps : (k now : ℕ) (t : Task) (j : Jobs) → not_yet k j ≡ 0 → Keeps k j (submit now t j)
unfolding submit enqueue update unsafe_gc not_yet told
submit-Keeps k now t j n =
    let other : (j.next_key == k) ≡ false = ground arith in rw other (refl, ground arith)

told-end_state :
    (ended : Ended) (now : ℕ) (t : Task) → (end_state ended now t).on_finished ≡ t.on_finished
unfolding Tasks.set_result Tasks.set_error_state
told-end_state (answered full visible) now t = ground arith
told-end_state (failed message code) now t = refl

told-start : (k now i : ℕ) (j : Jobs) → told k (start now i j) ≡ told k j
unfolding start told
told-start k now i j = elim (Bool-cases (j.heap i).cancel_requested) [
  | inl asked ↦
      rw asked
        (unfold told Tasks.set_cancelled in told-update k i (Tasks.set_cancelled now) j (λ t. refl))
  | inr unasked ↦
      rw unasked (unfold told Tasks.set_running in told-update k i Tasks.set_running j (λ t. refl))
]

told-lookup : (k i : ℕ) (j : Jobs) → told k (cancel_lookup i j).1 ≡ told k j
unfolding cancel_lookup told
told-lookup k i j = elim (Bool-cases (not (j.tasks i))) [
  | inl missing ↦ rw missing refl
  | inr there ↦ elim (Bool-cases (elem i j.queue)) [
    | inl waits ↦ rw (there, waits) refl
    | inr away ↦ rw (there, away) refl
  ]
]

told-shutdown : (k : ℕ) (j : Jobs) → told k (request_shutdown j) ≡ told k j
unfolding request_shutdown told Tasks.request_cancel
told-shutdown k j = elim (Bool-cases (j.tasks k || is_current k j.worker)) [
  | inl asked ↦ rw asked refl
  | inr unasked ↦ rw unasked refl
]

told-wait_next : (k : ℕ) (j : Jobs) → told k (wait_next j) ≡ told k j
unfolding wait_next told
told-wait_next k j = elim (Bool-cases j.stop) [
  | inl stopping ↦ rw stopping refl
  | inr working ↦ rw working refl
]

told-session :
    (k : ℕ) (id from to : Bytes) (on_worker : Bool) (j : Jobs)
    → (told k (release_session id on_worker j) ≡ told k j)
      × (told k (clone_session from to j) ≡ told k j)
unfolding release_session clone_session told
told-session k id from to on_worker j = (
  elim (Bool-cases (length id == 0 || on_worker)) [
    | inl skipped ↦ rw skipped refl
    | inr kept ↦ rw kept refl
  ],
  elim (Bool-cases (length from == 0 || length to == 0 || bytes_eq from to)) [
    | inl skipped ↦ rw skipped refl
    | inr kept ↦ rw kept refl
  ],
)

Step-told : {j j' : Jobs} (k : ℕ) → Step j j' → not_yet k j ≡ 0 → told k j' ≡ told k j
Step-told {j = j} k (submits now t) n = (submit-Keeps k now t j n).0
Step-told k (looks_up i) n = told-lookup k i _
Step-told {j = j} k (requests i) n =
    told-update k i Tasks.request_cancel j (λ t. unfold Tasks.request_cancel in refl)
Step-told {j = j} k (cancels now i at) n =
    unfold told cancel_withdrawn in
    told-update k i (λ t. Tasks.set_cancelled now (Tasks.request_cancel t)) j
      (λ t. unfold Tasks.set_cancelled Tasks.request_cancel in refl)
Step-told k (collects now) n = unfold told unsafe_gc in refl
Step-told k (releases id on_worker) n = (told-session k id [] [] on_worker _).0
Step-told k (clones from to) n = (told-session k [] from to true _).1
Step-told k stops n = unfold told request_stop in refl
Step-told k shuts_down n = told-shutdown k _
Step-told k (takes at) n = told-wait_next k _
Step-told k (starts now i at) n = told-start k now i _
Step-told {j = j} k (ends ended now i at) n =
    unfold told end_chat in told-update k i (end_state ended now) j (told-end_state ended now)
Step-told {j = j} k (worker_finishes i at) n = unfold told in told-finish_task k i j
Step-told {j = j} k (cancel_finishes i at) n = unfold told in told-finish_task k i j
Step-told k (leaves at stopped) n = unfold told leave_loop in refl
Step-told k (drops i at stopped) n = unfold told leave_loop in refl

next_key-le : {j j' : Jobs} → Step j j' → j.next_key ≤ j'.next_key
next_key-le (submits now t) = unfold submit enqueue update unsafe_gc in omega arith
next_key-le (looks_up i) = unfold cancel_lookup in ground arith
next_key-le (requests i) = unfold update in omega arith
next_key-le (cancels now i at) = unfold cancel_withdrawn update in omega arith
next_key-le (collects now) = unfold unsafe_gc in omega arith
next_key-le (releases id on_worker) = unfold release_session in ground arith
next_key-le (clones from to) = unfold clone_session in ground arith
next_key-le stops = unfold request_stop in omega arith
next_key-le shuts_down = unfold request_shutdown in omega arith
next_key-le (takes at) = unfold wait_next in ground arith
next_key-le (starts now i at) = unfold start update in ground arith
next_key-le (ends ended now i at) = unfold end_chat update in omega arith
next_key-le (worker_finishes i at) = unfold finish_task update in omega arith
next_key-le (cancel_finishes i at) = unfold finish_task update in omega arith
next_key-le (leaves at stopped) = unfold leave_loop in omega arith
next_key-le (drops k at stopped) = unfold leave_loop in omega arith

Step-not_yet : {j j' : Jobs} (k : ℕ) → Step j j' → not_yet k j ≡ 0 → not_yet k j' ≡ 0
unfolding not_yet
Step-not_yet k step n = ground (arith, next_key-le step)

Steps-told : {i j : Jobs} (k : ℕ) → Steps i j → not_yet k i ≡ 0 → Keeps k i j
Steps-told k nothing n = (refl, n)
Steps-told k (after steps step) n =
    let before = Steps-told k steps n in
    (Step-told k step before.1 ∙ before.0, Step-not_yet k step before.1)

told-submit :
    (now : ℕ) (t : Task) (j : Jobs)
    → IsBalanced j.next_key j
    → t.on_finished ≡ true
    → (told j.next_key (submit now t j) ≡ 1) × (not_yet j.next_key (submit now t j) ≡ 0)
unfolding submit enqueue update unsafe_gc not_yet told
told-submit now t j b h =
    let same : (j.next_key == j.next_key) ≡ true = ground arith in
    rw same (ground (arith, b.0, b.1, b.3))

-- If a task with a callback is submitted in a state where its key is in no place yet, then in every
-- later state the callback ran at most once, and exactly once if `finish_task` was called for the
-- task.
pub callback_once :
    {j : Jobs} (i : Jobs) (now : ℕ) (t : Task)
    → IsBalanced i.next_key i
    → t.on_finished ≡ true
    → Steps (submit now t i) j
    → (count i.next_key j.notified ≤ 1)
      × ((count i.next_key j.closed ≡ 0) ⊎ (count i.next_key j.notified ≡ 1))
callback_once {j = j} i now t b h steps =
    let k = i.next_key in
    let s = told-submit now t i b h in
    let all = Steps-told k steps s.1 in
    let c = Steps-IsBalanced k steps (submit-IsBalanced k now t i b) in
    unfold told in ground (arith, s.0, all.0, c.4)
