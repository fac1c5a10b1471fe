-- ===== src/Tests/Jobs.antt =====
-- Tests of Jobs: a token buffer whose stream is finished while a piece waits.
use llama_onprem_server.Prelude.{List, [], ◌∷◌, ◌++◌, ◌≡◌, false, refl, codes, length, replicate}
use llama_onprem_server.Jobs.TokenBuffer.Delivery.{
  accepted, run-accepted, eof_final, pulls_reach_eof,
}
use llama_onprem_server.Jobs.TokenBuffer.{
  is_done, is_cancelled, Call, pushes, finishes, pulls, eof, wait_pull, run, start,
}

abbrev calls : List Call
calls = pushes (codes "a") ∷ pulls ∷ pushes (codes "b") ∷ finishes ∷ pushes (codes "late") ∷ []

run-accepted_example :
    (run start calls).delivered ++ (run start calls).buffer.pieces ≡ accepted calls
run-accepted_example = run-accepted calls

eof_final_example :
    ((run start (calls ++ pulls ∷ [])).delivered ≡ codes "a" ∷ codes "b" ∷ [])
    × ((run start ((calls ++ pulls ∷ []) ++ pushes (codes "c") ∷ [])).delivered
        ≡ codes "a" ∷ codes "b" ∷ [])
unfolding run
eof_final_example = eof_final (calls ++ pulls ∷ []) (pushes (codes "c") ∷ []) refl

pulls_reach_eof_example :
    ((run (run start calls) (replicate (length (codes "b" ∷ [])) pulls)).delivered
      ≡ (run start calls).delivered ++ codes "b" ∷ [])
    × (wait_pull (run (run start calls) (replicate (length (codes "b" ∷ [])) pulls)).buffer ≡ eof)
unfolding run
pulls_reach_eof_example = pulls_reach_eof (codes "b" ∷ []) (run start calls) refl refl

not_done_yet :
    (is_done (run start calls).buffer ≡ false) × (is_cancelled (run start calls).buffer ≡ false)
unfolding run is_done is_cancelled
not_done_yet = (refl, refl)
