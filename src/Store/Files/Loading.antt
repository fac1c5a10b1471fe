-- ===== src/Store/Files/Loading.antt =====
-- `SessionKvStore::load` (src/server/llm/session_kv_store.cpp) in terms of the call of llama.cpp.
use llama_onprem_server.Prelude.{
  ℕ, ◌≤◌, ◌≡◌, refl, inl, inr, arith, Bool, true, false, not, ◌||◌, List, Option, none, some, ltb,
  ◌==◌, take, Bytes, Bool-cases,
}
use llama_onprem_server.Store.Files.{SessionKvStore, SeqLoaded, load_counted, load, token_count}
use llama_onprem_server.Store.Names.{valid_id}

-- The call for the number of tokens in the header read something, and the tokens are what it read.
pub record IsRead (stored : Option ℕ) (seq : ℕ → SeqLoaded) (tokens : List ℕ) : Type 0 where
  pub count : ℕ
  pub counted : stored ≡ some count
  pub positive : (count == 0) ≡ false
  pub read : ((seq count).bytes == 0) ≡ false
  pub within : (seq count).loaded_count ≤ count
  pub same : tokens ≡ take (seq count).loaded_count (seq count).ids

load_counted-IsRead :
    (seq : ℕ → SeqLoaded) (stored : Option ℕ)
    → (load_counted seq stored).loaded ≡ true
    → IsRead stored seq (load_counted seq stored).tokens
unfolding load_counted
load_counted-IsRead seq none h = cc
load_counted-IsRead seq (some count) h =
    let r = seq count in
    elim (Bool-cases (count == 0)) [
      | inl nothing ↦ cc
      | inr positive ↦
          elim (Bool-cases (r.bytes == 0 || r.loaded_count == 0 || ltb count r.loaded_count)) [
            | inl bad ↦ cc
            | inr good ↦
                rw (positive, good)
                  (record {
                    count = count;
                    counted = refl;
                    positive = positive;
                    read = ground arith;
                    within = ground arith;
                    same = refl;
                  })
          ]
    ]

pub load-IsRead :
    (seq_magic seq_version : ℕ) (has_ctx : Bool) (seq : ℕ → SeqLoaded) (id : Bytes)
    (s : SessionKvStore)
    → (load seq_magic seq_version has_ctx seq id s).loaded ≡ true
    → (has_ctx ≡ true)
      × IsRead
          (token_count seq_magic seq_version id s)
          seq
          (load seq_magic seq_version has_ctx seq id s).tokens
unfolding load token_count
load-IsRead seq_magic seq_version false seq id s h = cc
load-IsRead seq_magic seq_version true seq id s h = elim (Bool-cases (not (valid_id s.opened id))) [
  | inl bad ↦ cc
  | inr good ↦ rw good (refl, load_counted-IsRead seq _ (rw good at h))
]
