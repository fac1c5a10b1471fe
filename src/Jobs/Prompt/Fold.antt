-- ===== src/Jobs/Prompt/Fold.antt =====
-- Theorems about the folding of system messages in `Jobs::worker_loop` (src/server/jobs/jobs.cpp).
use llama_onprem_server.Prelude.{
  List, [], ◌∷◌, ◌++◌, if◌then◌else◌, Bytes, ◌≡◌, refl, sym, ap, ◌∙◌, Bool-cases, inl, inr,
}
use mathlib.Core.List.{append-nil, append_assoc}
use llama_onprem_server.Jobs.TokenBuffer.{is_empty}
use llama_onprem_server.Jobs.Prompt.{
  ChatMessage, newline, is_system, system_message, add_system, fold_loop, fold_system,
}

-- The texts with a line break between two of them.
pub join_lines : List Bytes → Bytes
join_lines [] = []
join_lines (t ∷ []) = t
join_lines (t ∷ u ∷ ts) = t ++ newline ++ join_lines (u ∷ ts)

-- A text in front, unless it is empty.
abbrev pub with_text : Bytes → List Bytes → List Bytes
with_text [] ts = ts
with_text (b ∷ bs) ts = (b ∷ bs) ∷ ts

module _ (Call : Type 0) where
  -- The texts of the system messages, without empty ones.
  pub system_texts : List (ChatMessage Call) → List Bytes
  system_texts [] = []
  system_texts (m ∷ ms) =
      let rest = system_texts ms in if is_system Call m then with_text m.content rest else rest

  -- The other messages.
  pub conversation : List (ChatMessage Call) → List (ChatMessage Call)
  conversation [] = []
  conversation (m ∷ ms) = let rest = conversation ms in if is_system Call m then rest else m ∷ rest

  -- A system message, unless its text is empty.
  abbrev pub leading : Bytes → List (ChatMessage Call)
  leading [] = []
  leading (b ∷ bs) = system_message Call (b ∷ bs) ∷ []

  join_added :
      (s c : Bytes) (ts : List Bytes)
      → join_lines (with_text (add_system Call s c) ts) ≡ join_lines (with_text s (with_text c ts))
  unfolding add_system join_lines
  join_added [] [] ts = refl
  join_added [] (c ∷ cs) ts = refl
  join_added (b ∷ s) [] ts = refl
  join_added (b ∷ s) (c ∷ cs) [] = refl
  join_added (b ∷ s) (c ∷ cs) (t ∷ ts) =
      let front = (b ∷ s) ++ newline in
      let back = join_lines (t ∷ ts) in
      ap (λ l. l ++ back) (append_assoc front (c ∷ cs) newline)
      ∙ append_assoc front ((c ∷ cs) ++ newline) back

  fold_loop_text :
      (s : Bytes) (msgs ms : List (ChatMessage Call))
      → (fold_loop Call s msgs ms).0 ≡ join_lines (with_text s (system_texts ms))
  unfolding fold_loop system_texts join_lines
  fold_loop_text [] msgs [] = refl
  fold_loop_text (b ∷ s) msgs [] = refl
  fold_loop_text s msgs (m ∷ ms) =
      let folded =
        fold_loop_text (add_system Call s m.content) msgs ms
        ∙ join_added s m.content (system_texts ms) in
      let kept = fold_loop_text s (msgs ++ m ∷ []) ms in
      elim (Bool-cases (is_system Call m)) [
        | inl system ↦ rw system folded
        | inr other ↦ rw other kept
      ]

  fold_loop_messages :
      (s : Bytes) (msgs ms : List (ChatMessage Call))
      → (fold_loop Call s msgs ms).1 ≡ msgs ++ conversation ms
  unfolding fold_loop conversation
  fold_loop_messages s msgs [] = sym (append-nil msgs)
  fold_loop_messages s msgs (m ∷ ms) =
      let folded = fold_loop_messages (add_system Call s m.content) msgs ms in
      let kept =
        fold_loop_messages s (msgs ++ m ∷ []) ms ∙ append_assoc msgs (m ∷ []) (conversation ms) in
      elim (Bool-cases (is_system Call m)) [
        | inl system ↦ rw system folded
        | inr other ↦ rw other kept
      ]

  leading_lem :
      (text : Bytes) (ms : List (ChatMessage Call))
      → (if is_empty text then ms else system_message Call text ∷ ms) ≡ leading text ++ ms
  leading_lem [] ms = refl
  leading_lem (b ∷ bs) ms = refl

  -- For every request, what the engine gets is one system message with the request's own system
  -- text and those of its system messages, one to a line and without empty ones, unless all are
  -- empty; and behind it the other messages in their order.
  pub fold_system-eq-leading :
      (system : Bytes) (messages : List (ChatMessage Call))
      → fold_system Call system messages
        ≡ leading (join_lines (with_text system (system_texts messages))) ++ conversation messages
  unfolding fold_system
  fold_system-eq-leading system messages =
      leading_lem (fold_loop Call system [] messages).0 (fold_loop Call system [] messages).1
      ∙ ap (λ t. leading t ++ (fold_loop Call system [] messages).1)
          (fold_loop_text system [] messages)
      ∙ ap (λ ms. leading (join_lines (with_text system (system_texts messages))) ++ ms)
          (fold_loop_messages system [] messages)
