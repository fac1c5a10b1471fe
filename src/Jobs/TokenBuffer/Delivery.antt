-- ===== src/Jobs/TokenBuffer/Delivery.antt =====
-- Theorems about sequences of calls of a `TokenBuffer` (src/server/jobs/token_buffer.hpp).
use mathlib.Core.List.{append-nil, append_assoc}
use llama_onprem_server.Prelude.{
  true, false, List, [], ◌∷◌, ◌++◌, ◌≡◌, ◌↔◌, refl, sym, ap, ◌∙◌, ◌⊎◌, inl, inr, arith, Bytes,
  length, replicate,
}
use llama_onprem_server.Jobs.TokenBuffer.{
  TokenBuffer, Call, pushes, finishes, is_done, cancels, pulls, drains, stores, Run, eof, wait_pull,
  pull_front, after_wait, step, run, start, push, set_full_result,
}

-- The pieces that are pushed before the stream is finished or cancelled.
abbrev pub accepted : List Call → List Bytes
accepted [] = []
accepted (pushes piece ∷ cs) = piece ∷ accepted cs
accepted (finishes ∷ cs) = []
accepted (cancels ∷ cs) = []
accepted (pulls ∷ cs) = accepted cs
accepted (drains ∷ cs) = accepted cs
accepted (stores text ∷ cs) = accepted cs

-- All that went through a buffer: what was delivered, then what waits.
abbrev passed : Run → List Bytes
passed r = r.delivered ++ r.buffer.pieces

after_wait-pull_front :
    (r : Run) (xs : List Bytes)
    → r.buffer.pieces ≡ xs
    → passed (after_wait r (pull_front xs r.buffer)) ≡ passed r
unfolding after_wait pull_front
after_wait-pull_front r [] e = refl
after_wait-pull_front r (x ∷ xs) e =
    append_assoc r.delivered (x ∷ []) xs ∙ ap (λ l. r.delivered ++ l) (sym e)

passed-pulls : (r : Run) → passed (step r pulls) ≡ passed r
unfolding step
passed-pulls r =
    unfold wait_pull after_wait in ground (arith, after_wait-pull_front r r.buffer.pieces refl)

flags-pulls :
    (r : Run)
    → ((step r pulls).buffer.done ≡ r.buffer.done)
      × ((step r pulls).buffer.cancelled ≡ r.buffer.cancelled)
unfolding step wait_pull after_wait pull_front
flags-pulls r = ground arith

-- A stream that is done takes nothing more.
passed-step_done : (r : Run) (c : Call) → r.buffer.done ≡ true → passed (step r c) ≡ passed r
unfolding step
passed-step_done r (pushes piece) h = ground arith
passed-step_done r finishes h = refl
passed-step_done r cancels h = refl
passed-step_done r pulls h = passed-pulls r
passed-step_done r drains h = append-nil _
passed-step_done r (stores text) h = refl

step-done : (r : Run) (c : Call) → r.buffer.done ≡ true → (step r c).buffer.done ≡ true
unfolding step
step-done r (pushes piece) h = ground arith
step-done r finishes h = refl
step-done r cancels h = refl
step-done r pulls h = (flags-pulls r).0 ∙ h
step-done r drains h = h
step-done r (stores text) h = h

passed-run_done : (r : Run) (cs : List Call) → r.buffer.done ≡ true → passed (run r cs) ≡ passed r
unfolding run
passed-run_done r [] h = refl
passed-run_done r (c ∷ cs) h =
    passed-run_done (step r c) cs (step-done r c h) ∙ passed-step_done r c h

passed-run_open :
    (r : Run) (cs : List Call)
    → r.buffer.done ≡ false
    → r.buffer.cancelled ≡ false
    → passed (run r cs) ≡ passed r ++ accepted cs
unfolding run
passed-run_open r [] h k = sym (append-nil _)
passed-run_open r (pushes piece ∷ cs) h k =
    let s = step r (pushes piece) in
    let same : (s.buffer.done ≡ false)
        × (s.buffer.cancelled ≡ false)
        × (passed s ≡ passed r ++ (piece ∷ [])) =
      unfold step in
      rw (h, k) (refl, refl, sym (append_assoc r.delivered r.buffer.pieces (piece ∷ []))) in
    passed-run_open s cs same.0 same.1
    ∙ ap (λ l. l ++ accepted cs) same.2
    ∙ append_assoc (passed r) (piece ∷ []) (accepted cs)
passed-run_open r (finishes ∷ cs) h k =
    passed-run_done (step r finishes) cs refl ∙ sym (append-nil (passed r))
passed-run_open r (cancels ∷ cs) h k =
    passed-run_done (step r cancels) cs refl ∙ sym (append-nil (passed r))
passed-run_open r (pulls ∷ cs) h k =
    passed-run_open (step r pulls) cs ((flags-pulls r).0 ∙ h) ((flags-pulls r).1 ∙ k)
    ∙ ap (λ l. l ++ accepted cs) (passed-pulls r)
passed-run_open r (drains ∷ cs) h k =
    passed-run_open (step r drains) cs h k ∙ ap (λ l. l ++ accepted cs) (append-nil (passed r))
passed-run_open r (stores text ∷ cs) h k =
    unfold set_full_result in passed-run_open (step r (stores text)) cs h k

-- After any sequence of calls on a new buffer, what was pulled and what still waits are together,
-- in order, exactly the pieces pushed before the stream was finished or cancelled.
pub run-accepted :
    (cs : List Call) → (run start cs).delivered ++ (run start cs).buffer.pieces ≡ accepted cs
run-accepted cs = passed-run_open start cs refl refl

-- A stream that is done and empty delivers nothing more.
closed_step :
    (r : Run) (c : Call)
    → r.buffer.done ≡ true
    → r.buffer.pieces ≡ []
    → ((step r c).buffer.pieces ≡ []) × ((step r c).delivered ≡ r.delivered)
unfolding step
closed_step r (pushes piece) h e = (ground arith, refl)
closed_step r finishes h e = (e, refl)
closed_step r cancels h e = (e, refl)
closed_step r pulls h e = unfold wait_pull after_wait pull_front in ground arith
closed_step r drains h e = (refl, rw e (append-nil r.delivered))
closed_step r (stores text) h e = (e, refl)

closed_run :
    (r : Run) (cs : List Call)
    → r.buffer.done ≡ true
    → r.buffer.pieces ≡ []
    → (run r cs).delivered ≡ r.delivered
unfolding run
closed_run r [] h e = refl
closed_run r (c ∷ cs) h e =
    let s = closed_step r c h e in closed_run (step r c) cs (step-done r c h) s.0 ∙ s.1

-- `cancel` finishes the stream too, so whatever the calls a cancelled buffer is done.
cancelled_is_done :
    (r : Run) (cs : List Call)
    → (r.buffer.cancelled ≡ false) ⊎ (r.buffer.done ≡ true)
    → ((run r cs).buffer.cancelled ≡ false) ⊎ ((run r cs).buffer.done ≡ true)
unfolding run
cancelled_is_done r [] h = h
cancelled_is_done r (c ∷ cs) h = cancelled_is_done (step r c) cs (keep c)
  where
    keep : (c : Call) → ((step r c).buffer.cancelled ≡ false) ⊎ ((step r c).buffer.done ≡ true)
    keep (pushes piece) = unfold push in ground arith
    keep finishes = inr refl
    keep cancels = inr refl
    keep pulls = ground (arith, flags-pulls r)
    keep drains = h
    keep (stores text) = h

run-append : (r : Run) (cs ds : List Call) → run r (cs ++ ds) ≡ run (run r cs) ds
unfolding run
run-append r [] ds = refl
run-append r (c ∷ cs) ds = run-append (step r c) cs ds

eof_means :
    (b : TokenBuffer)
    → wait_pull b ≡ eof
    → (b.pieces ≡ []) × ((b.done ≡ true) ⊎ (b.cancelled ≡ true))
unfolding wait_pull pull_front
eof_means b h = ground arith

-- When `wait_pull` reports the end, everything accepted has been delivered, and no later call,
-- whatever it is, makes anything more arrive.
pub eof_final :
    (cs later : List Call)
    → wait_pull (run start cs).buffer ≡ eof
    → ((run start cs).delivered ≡ accepted cs) × ((run start (cs ++ later)).delivered ≡ accepted cs)
eof_final cs later h =
    let r = run start cs in
    let e = eof_means r.buffer h in
    let finished : r.buffer.done ≡ true =
      ground (arith, e.1, cancelled_is_done start cs (inl refl)) in
    let all : r.delivered ≡ accepted cs =
      sym (ap (λ l. r.delivered ++ l) e.0 ∙ append-nil r.delivered) ∙ run-accepted cs in
    (all, ap (λ s. s.delivered) (run-append start cs later) ∙ closed_run r later finished e.0 ∙ all)

-- After any calls, `is_done` is what `wait_pull` reports: it is true exactly when the next
-- `wait_pull` gives the end.
pub is_done-eof_iff :
    (cs : List Call)
    → (is_done (run start cs).buffer ≡ true) ↔ (wait_pull (run start cs).buffer ≡ eof)
is_done-eof_iff cs =
    let closing = cancelled_is_done start cs (inl refl) in
    (
      λ h. unfold is_done wait_pull pull_front in ground arith,
      λ h. unfold is_done in ground (arith, eof_means (run start cs).buffer h, closing),
    )

pull_piece :
    (r : Run) (x : Bytes) (xs : List Bytes)
    → r.buffer.pieces ≡ x ∷ xs
    → ((step r pulls).buffer.pieces ≡ xs) × ((step r pulls).delivered ≡ r.delivered ++ (x ∷ []))
unfolding step wait_pull after_wait pull_front
pull_piece r x xs e = rw e (refl, refl)

-- Once the stream is done, as many `wait_pull` calls as pieces wait deliver them all, none of them
-- blocking, and the next one reports the end.
pub pulls_reach_eof :
    (xs : List Bytes) (r : Run)
    → r.buffer.done ≡ true
    → r.buffer.pieces ≡ xs
    → ((run r (replicate (length xs) pulls)).delivered ≡ r.delivered ++ xs)
      × (wait_pull (run r (replicate (length xs) pulls)).buffer ≡ eof)
unfolding run
pulls_reach_eof [] r h e = (sym (append-nil r.delivered), unfold wait_pull pull_front in rw (e, h))
pulls_reach_eof (x ∷ xs) r h e =
    let p = pull_piece r x xs e in
    let rest = pulls_reach_eof xs (step r pulls) ((flags-pulls r).0 ∙ h) p.0 in
    (rest.0 ∙ ap (λ l. l ++ xs) p.1 ∙ append_assoc r.delivered (x ∷ []) xs, rest.1)
