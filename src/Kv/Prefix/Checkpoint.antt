-- ===== src/Kv/Prefix/Checkpoint.antt =====
-- Theorems about `checkpoint_from_offsets` (src/server/llm/token_offset.hpp).
use llama_onprem_server.Prelude.{
  ℕ, zero, suc, ◌+◌, ◌-◌, ◌≤◌, true, false, ◌||◌, List, [], ◌∷◌, min, ◌≡◌, inl, inr, arith, ltb,
  Bool-cases, length,
}
use llama_onprem_server.Kv.Prefix.{
  same_at, common_prefix_length, equal_range, offsets_loop, tail_loop, checkpoint_from_offsets,
}
use llama_onprem_server.Kv.Prefix.Common.{
  Agree, Agree-suc, IsEnd, IsEnd-unique, common_prefix_length-IsEnd,
}

equal_range-Agree :
    (a b : List ℕ) (rounds from : ℕ)
    → Agree a b from
    → equal_range a b rounds from ≡ true
    → Agree a b (from + rounds)
unfolding equal_range
equal_range-Agree a b zero from h e i lt = h i (omega arith)
equal_range-Agree a b (suc rounds) from h e i lt =
    equal_range-Agree a b rounds (from + 1) (Agree-suc a b from h (ground arith)) (ground arith) i
      (omega arith)

-- What the loop over the message ends keeps: the matched part is common to both.
record IsCommon (a b : List ℕ) (k : ℕ) : Type 0 where
  le_left : k ≤ length a
  le_right : k ≤ length b
  agrees : Agree a b k

offsets_step :
    (a b : List ℕ) (stop matched : ℕ)
    → IsCommon a b matched
    → (ltb stop matched || ltb (length a) stop || ltb (length b) stop) ≡ false
    → equal_range a b (stop - matched) matched ≡ true
    → IsCommon a b stop
offsets_step a b stop matched h fits same = record {
  le_left = ground arith;
  le_right = ground arith;
  agrees = λ i lt. equal_range-Agree a b (stop - matched) matched h.agrees same i (ground arith);
}

offsets_loop-IsCommon :
    (a b ends : List ℕ) (matched : ℕ)
    → IsCommon a b matched
    → IsCommon a b (offsets_loop a b ends matched)
unfolding offsets_loop
offsets_loop-IsCommon a b [] matched h = h
offsets_loop-IsCommon a b (stop ∷ ends) matched h =
    elim (Bool-cases (ltb stop matched || ltb (length a) stop || ltb (length b) stop)) [
      | inl out ↦ rw out h
      | inr fits ↦ elim (Bool-cases (equal_range a b (stop - matched) matched)) [
        | inl same ↦
            rw (fits, same)
              (offsets_loop-IsCommon a b ends stop (offsets_step a b stop matched h fits same))
        | inr differs ↦ rw (fits, differs) h
      ]
    ]

tail_loop-IsEnd :
    (a b : List ℕ) (rounds i : ℕ)
    → i + rounds ≡ min (length a) (length b)
    → Agree a b i
    → IsEnd a b (tail_loop a b rounds i i)
unfolding tail_loop
tail_loop-IsEnd a b zero i e h = record {
  le_left = omega arith;
  le_right = omega arith;
  agrees = h;
  stops = inl (omega arith);
}
tail_loop-IsEnd a b (suc rounds) i e h = elim (Bool-cases (same_at a b i)) [
  | inl same ↦ rw same (tail_loop-IsEnd a b rounds (i + 1) (omega arith) (Agree-suc a b i h same))
  | inr differs ↦
      rw differs
        (record { le_left = omega arith; le_right = omega arith; agrees = h; stops = inr differs })
]

-- Whatever message ends are given, in any order and in or out of range, the checkpoint is the
-- length of the longest common prefix of the live sequence and the prompt.
pub checkpoint_from_offsets-eq-common_prefix_length :
    (active prompt message_ends : List ℕ)
    → checkpoint_from_offsets active prompt message_ends ≡ common_prefix_length active prompt
unfolding checkpoint_from_offsets
checkpoint_from_offsets-eq-common_prefix_length a b ends =
    let h = offsets_loop-IsCommon a b ends 0 (record {
      le_left = omega arith;
      le_right = omega arith;
      agrees = λ i lt. absurd (omega arith);
    }) in
    let m = offsets_loop a b ends 0 in
    IsEnd-unique a b _ _
      (tail_loop-IsEnd a b (min (length a) (length b) - m) m (omega (arith, h.le_left, h.le_right))
        h.agrees)
      (common_prefix_length-IsEnd a b)
