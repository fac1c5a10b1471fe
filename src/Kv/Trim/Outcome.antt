-- ===== src/Kv/Trim/Outcome.antt =====
-- Theorems about `make_kv_trim` (src/server/llm/kv_trim.cpp).
use llama_onprem_server.Prelude.{
  ℕ, ◌≤◌, Bool, true, false, [], ◌≡◌, ◌⊎◌, arith, length, take, length-take_of_le, take_all, pos,
  negsuc, is_neg,
}
use llama_onprem_server.Kv.Trim.{
  kv_tail_matches, LlamaMemory, Sequence, Trimmed, clear_sequence, drop_suffix, qwen_trim,
  make_kv_trim,
}

-- The token ids beside the memory are what the memory holds: as many, up to its last position.
abbrev pub InStep : (llama : LlamaMemory) → Sequence llama → Type 0
InStep llama s = kv_tail_matches (length s.tokens) (llama.seq_pos_max s.memory) ≡ true

-- The documented behaviour of a full removal: once the whole sequence was removed, or the memory
-- cleared, no position is stored.
pub record ClearsAll (llama : LlamaMemory) : Type 0 where
  pub removed :
      (m : llama.Memory)
      → (llama.seq_rm m (pos 0) (negsuc 0)).0 ≡ true
      → is_neg (llama.seq_pos_max (llama.seq_rm m (pos 0) (negsuc 0)).1) ≡ true
  pub cleared : (m : llama.Memory) → is_neg (llama.seq_pos_max (llama.clear m)) ≡ true

abbrev pub Outcome : (llama : LlamaMemory) → Sequence llama → ℕ → Trimmed llama → Type 0
Outcome llama s n r =
    InStep llama r.sequence
    × (((r.kept ≡ true) × (r.sequence.tokens ≡ take n s.tokens))
        ⊎ ((r.kept ≡ false) × (r.sequence.tokens ≡ [])))

module _ (llama : LlamaMemory) (c : ClearsAll llama) where
  clear_sequence-InStep : (s : Sequence llama) → InStep llama (clear_sequence llama s)
  unfolding clear_sequence kv_tail_matches
  clear_sequence-InStep s =
      ground (arith, c.removed s.memory, c.cleared (llama.seq_rm s.memory (pos 0) (negsuc 0)).1)

  drop_suffix_kept :
      (s : Sequence llama) (n : ℕ)
      → n ≤ length s.tokens
      → (drop_suffix llama s n).kept ≡ true
      → InStep llama (drop_suffix llama s n).sequence
        × ((drop_suffix llama s n).sequence.tokens ≡ take n s.tokens)
  unfolding drop_suffix
  drop_suffix_kept s n h k = ground (arith, length-take_of_le n s.tokens h)

  qwen_trim-Outcome : (s : Sequence llama) (n : ℕ) → Outcome llama s n (qwen_trim llama s n)
  unfolding qwen_trim
  qwen_trim-Outcome s n = ground (
    arith,
    drop_suffix_kept s n,
    clear_sequence-InStep s,
    clear_sequence-InStep (drop_suffix llama s n).sequence,
    take_all n s.tokens,
  )

  -- For every memory that obeys `ClearsAll`, every sequence and every count, `make_kv_trim`'s trim
  -- either reports that the prefix was kept, and the tokens are the first `n_tokens` ones, or that
  -- it was not, and no token is left. Either way the memory's last position afterwards confirms the
  -- number of tokens.
  pub make_kv_trim-Outcome :
      (hybrid : Bool) (s : Sequence llama) (n_tokens : ℕ)
      → Outcome llama s n_tokens (make_kv_trim llama hybrid s n_tokens)
  unfolding make_kv_trim
  make_kv_trim-Outcome true s n = qwen_trim-Outcome s n
  make_kv_trim-Outcome false s n = qwen_trim-Outcome s n
