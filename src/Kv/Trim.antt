-- ===== src/Kv/Trim.antt =====
-- Dropping the tail of the live sequence: src/server/llm/kv_match.hpp and kv_trim.cpp.
-- llama.cpp's memory is a parameter: a type of states with the three calls that are made of it
-- for sequence 0. `false` of `seq_rm` means that the call refused.
pub mod Outcome
use llama_onprem_server.Prelude.{
  ℕ, zero, suc, ◌+◌, Bool, true, false, not, ◌&&◌, List, [], ltb, ◌==◌, if◌then◌else◌, length, take,
  ℤ, pos, negsuc, is_neg, to_int32,
}

-- `static_cast<size_t>(pos_max) + 1 == n_tokens`, behind the test `pos_max >= 0`.
abbrev pub last_is : ℤ → ℕ → Bool
last_is (pos p) n = p + 1 == n
last_is (negsuc p) n = false

unfoldable pub kv_tail_matches : ℕ → ℤ → Bool
kv_tail_matches n_tokens pos_max =
    if n_tokens == 0 then is_neg pos_max else not (is_neg pos_max) && last_is pos_max n_tokens

-- llama_memory_seq_rm(memory, 0, p0, p1), llama_memory_clear(memory, true) and
-- llama_memory_seq_pos_max(memory, 0).
pub record LlamaMemory : Type 1 where
  pub Memory : Type 0
  pub seq_rm : Memory → ℤ → ℤ → Bool × Memory
  pub clear : Memory → Memory
  pub seq_pos_max : Memory → ℤ

module _ (llama : LlamaMemory) where
  open llama use {Memory, seq_rm, clear, seq_pos_max}

  -- What a trim reads and writes: the context's memory and the token ids beside it.
  pub record Sequence : Type 0 where
    pub memory : Memory
    pub tokens : List ℕ

  -- Whether the requested prefix was kept, and the sequence afterwards.
  pub record Trimmed : Type 0 where
    pub kept : Bool
    pub sequence : Sequence

  tail_matches : Memory → ℕ → Bool
  unfolding kv_tail_matches
  tail_matches memory n_tokens = kv_tail_matches n_tokens (seq_pos_max memory)

  pub clear_sequence : Sequence → Sequence
  clear_sequence s =
      let (removed, memory) = seq_rm s.memory (pos 0) (negsuc 0) in
      record { memory = if not removed then clear memory else memory; tokens = [] }

  -- `tokens.resize(n_tokens)` for a count that is no larger than the size.
  pub drop_suffix : Sequence → ℕ → Trimmed
  unfolding tail_matches
  drop_suffix s n_tokens =
      let (removed, memory) = seq_rm s.memory (to_int32 n_tokens) (negsuc 0) in
      if not removed
      then record { kept = false; sequence = record { memory = memory; tokens = s.tokens } }
      else record {
        kept = tail_matches memory n_tokens;
        sequence = record { memory = memory; tokens = take n_tokens s.tokens };
      }

  abbrev recompute : Sequence → Trimmed
  recompute s = record { kept = false; sequence = clear_sequence s }

  -- The two classes have the same body, and differ in the name that goes to the log.
  pub qwen_trim : Sequence → ℕ → Trimmed
  unfolding tail_matches drop_suffix clear_sequence
  qwen_trim s n_tokens =
      let dropped = drop_suffix s n_tokens in
      if n_tokens == length s.tokens && tail_matches s.memory n_tokens
      then record { kept = true; sequence = s }
      else if ltb n_tokens (length s.tokens)
      then if dropped.kept then dropped else recompute dropped.sequence
      else recompute s

  suffix_trim : Sequence → ℕ → Trimmed
  unfolding tail_matches drop_suffix clear_sequence
  suffix_trim s n_tokens =
      let dropped = drop_suffix s n_tokens in
      if n_tokens == length s.tokens && tail_matches s.memory n_tokens
      then record { kept = true; sequence = s }
      else if ltb n_tokens (length s.tokens)
      then if dropped.kept then dropped else recompute dropped.sequence
      else recompute s

  -- `make_kv_trim(bool)`.
  unfoldable pub make_kv_trim : Bool → Sequence → ℕ → Trimmed
  unfolding qwen_trim suffix_trim
  make_kv_trim hybrid_or_recurrent = if hybrid_or_recurrent then qwen_trim else suffix_trim
