-- ===== src/Tests/Kv.antt =====
-- Tests of Kv: prefixes of token sequences, and a trim over a memory that counts its cells.
use llama_onprem_server.Prelude.{
  ℕ, ◌-◌, true, false, List, [], ◌∷◌, ◌≡◌, refl, arith, ◌==◌, if◌then◌else◌, min, ℤ, pos, negsuc,
}
use llama_onprem_server.Kv.Prefix.Checkpoint.{checkpoint_from_offsets-eq-common_prefix_length}
use llama_onprem_server.Kv.Prefix.{common_prefix_length, checkpoint_from_offsets}
use llama_onprem_server.Kv.Trim.Outcome.{ClearsAll, Outcome, make_kv_trim-Outcome}
use llama_onprem_server.Kv.Trim.{LlamaMemory, Sequence, make_kv_trim}

abbrev live : List ℕ
live = 5 ∷ 6 ∷ 7 ∷ 8 ∷ []

abbrev prompt : List ℕ
prompt = 5 ∷ 6 ∷ 9 ∷ []

checkpoint_runs : checkpoint_from_offsets live prompt (1 ∷ 4 ∷ 2 ∷ []) ≡ 2
unfolding checkpoint_from_offsets
checkpoint_runs = refl

checkpoint_example :
    checkpoint_from_offsets live prompt (1 ∷ 4 ∷ 2 ∷ []) ≡ common_prefix_length live prompt
checkpoint_example = checkpoint_from_offsets-eq-common_prefix_length live prompt (1 ∷ 4 ∷ 2 ∷ [])

-- The number of cells is the memory; a removal from position 0 or above always succeeds.
abbrev kept_cells : ℕ → ℤ → ℕ
kept_cells cells (pos p) = min p cells
kept_cells cells (negsuc _) = cells

abbrev last_cell : ℕ → ℤ
last_cell cells = if cells == 0 then negsuc 0 else pos (cells - 1)

abbrev pub counting : LlamaMemory
counting = record {
  Memory = ℕ;
  seq_rm = λ cells p0 p1. (true, kept_cells cells p0);
  clear = λ cells. 0;
  seq_pos_max = last_cell;
}

pub counting-ClearsAll : ClearsAll counting
counting-ClearsAll = record { removed = λ m e. ground arith; cleared = λ m. refl }

abbrev four_tokens : Sequence counting
four_tokens = record { memory = 4; tokens = live }

make_kv_trim_example : Outcome counting four_tokens 2 (make_kv_trim counting true four_tokens 2)
make_kv_trim_example = make_kv_trim-Outcome counting counting-ClearsAll true four_tokens 2

make_kv_trim_runs : (make_kv_trim counting false four_tokens 2).sequence.tokens ≡ 5 ∷ 6 ∷ []
unfolding make_kv_trim
make_kv_trim_runs = refl
