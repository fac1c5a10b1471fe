-- ===== src/Agent/Actions/Complete.antt =====
-- Theorems about `parse_assistant_actions` (src/server/agent/response_parse.cpp).
use llama_onprem_server.Prelude.{
  ℕ, zero, suc, ◌+◌, ◌-◌, ◌≤◌, Bool, true, false, ◌||◌, List, [], ◌∷◌, ◌++◌, none, some,
  if◌then◌else◌, length, length-append, take, drop, drop_one, Bytes, codes, find_byte, back_is, ◌≡◌,
  refl, sym, ap, ◌∙◌, arith, All, Bool-cases, Option-cases, inl, inr, ◌⊎◌, ◌==◌,
}
use llama_onprem_server.Jobs.TokenBuffer.{is_empty}
use llama_onprem_server.Agent.Tags.{
  strip_special_blocks, trim_sv, ieq, tag_name, is_closing, extract_tag_body,
}
use llama_onprem_server.Agent.Tags.Inside.{
  IsRaw, tag_of, IsInside, IsCloser, extract_tag_body-IsInside, tag_start, tag_end, between,
  behind_tag, find_byte-other, find_byte-missing, length-tag_of,
}
use llama_onprem_server.Agent.Actions.{
  Json, ParsedToolCall, Actions, bare_calls, assign_ids, kept_question, parse_assistant_actions,
  add_block, actions_loop, block_calls, add_text, add_answer, question_of,
}

abbrev pub acts : Bytes → Bool
acts name =
    (ieq name (codes "tool_call") || ieq name (codes "tool_calls"))
    || (ieq name (codes "question") || ieq name (codes "answer"))

-- A byte, a tag that does nothing, and a block of calls, a question or an answer.
pub data Piece : Type 0 where
  byte : ℕ → Piece
  tag : Bytes → Piece
  block : Bytes → Bytes → Bytes → Piece

abbrev pub IsPiece : Piece → Type 0
IsPiece (byte c) = (c == b'<') ≡ false
IsPiece (tag raw) =
    IsRaw raw × ((is_closing raw || back_is b'/' raw ≡ true) ⊎ (acts (tag_name raw) ≡ false))
IsPiece (block raw body raw') =
    IsRaw raw
    × (is_closing raw || back_is b'/' raw ≡ false)
    × (acts (tag_name raw) ≡ true)
    × IsInside (tag_name raw) body
    × IsCloser (tag_name raw) raw'

abbrev pub text_of : List Piece → Bytes
text_of [] = []
text_of (byte c ∷ pieces) = c ∷ text_of pieces
text_of (tag raw ∷ pieces) = tag_of raw (text_of pieces)
text_of (block raw body raw' ∷ pieces) = tag_of raw (body ++ tag_of raw' (text_of pieces))

module _ {J : Type 0} (json : Json J)
    (parse_tool_calls : Bytes → List (ParsedToolCall J) → List (ParsedToolCall J)) where
  -- The blocks of an answer, one after the other.
  abbrev pub acted : Bytes → Bytes → Actions J → Actions J
  acted name body s = elim (add_block json parse_tool_calls name body s) [ none ↦ s | some s' ↦ s' ]

  abbrev pub actions_of : List Piece → Actions J → Actions J
  actions_of [] s = s
  actions_of (byte c ∷ pieces) s = actions_of pieces s
  actions_of (tag raw ∷ pieces) s = actions_of pieces s
  actions_of (block raw body raw' ∷ pieces) s = actions_of pieces (acted (tag_name raw) body s)

  add_block-some :
      (name body : Bytes) (s : Actions J)
      → acts name ≡ true
      → (s' : Actions J) × (add_block json parse_tool_calls name body s ≡ some s')
  unfolding add_block
  add_block-some name body s h =
      elim (Bool-cases (ieq name (codes "tool_call") || ieq name (codes "tool_calls"))) [
        | inl e ↦ (
          record s { tool_calls = block_calls json parse_tool_calls body s.tool_calls },
          rw (add_block, e) refl,
        )
        | inr e ↦ elim (Bool-cases (ieq name (codes "question"))) [
          | inl q ↦ (
            record s { question = some (add_text (trim_sv body) (question_of s.question)) },
            rw (add_block, e, q) refl,
          )
          | inr q ↦
              let a : ieq name (codes "answer") ≡ true = rw (e, q) at h in
              (
                record s { question = some (add_answer (trim_sv body) (question_of s.question)) },
                rw (add_block, e, q, a) refl,
              )
        ]
      ]

  acted-some :
      (name body : Bytes) (s s' : Actions J)
      → add_block json parse_tool_calls name body s ≡ some s'
      → acted name body s ≡ s'
  acted-some name body s s' q = rw (acted, q) refl

  add_block-acts :
      (name body : Bytes) (s : Actions J)
      → acts name ≡ true
      → add_block json parse_tool_calls name body s ≡ some (acted name body s)
  add_block-acts name body s h =
      let (s', q) = add_block-some name body s h in q ∙ ap some (sym (acted-some name body s s' q))

  add_block-other :
      (name body : Bytes) (s : Actions J)
      → acts name ≡ false
      → add_block json parse_tool_calls name body s ≡ none
  unfolding add_block
  add_block-other name body s h =
      let c : ieq name (codes "tool_call") || ieq name (codes "tool_calls") ≡ false =
        ground arith in
      let q : ieq name (codes "question") ≡ false = ground arith in
      let a : ieq name (codes "answer") ≡ false = ground arith in rw (add_block, c, q, a) refl

  -- What a round does with a tag.
  abbrev at_raw : ℕ → Actions J → Bytes → Bytes → Actions J
  at_raw fuel s raw behind =
      let skipped = actions_loop json parse_tool_calls fuel behind s in
      let found = extract_tag_body behind (tag_name raw) in
      if is_closing raw || back_is b'/' raw
      then skipped
      else elim (add_block json parse_tool_calls (tag_name raw) found.body s) [
        | none ↦ skipped
        | some s' ↦ actions_loop json parse_tool_calls fuel found.after s'
      ]

  abbrev at_tag : ℕ → Bytes → Actions J → Actions J
  at_tag fuel text s = elim (find_byte b'>' text) [
    | none ↦ s
    | some gt ↦ at_raw fuel s (take (gt - 1) (drop 1 text)) (drop (gt + 1) text)
  ]

  at_tag-tag_of :
      (fuel : ℕ) (raw rest : Bytes) (s : Actions J)
      → IsRaw raw
      → at_tag fuel (tag_of raw rest) s ≡ at_raw fuel s raw rest
  unfolding find_byte
  at_tag-tag_of fuel raw rest s h =
      rw (tag_end raw rest h) (λ i. at_raw fuel s (between raw rest i) (behind_tag raw rest i))

  round_at :
      (fuel lt : ℕ) (text : Bytes) (s : Actions J)
      → find_byte b'<' text ≡ some lt
      → actions_loop json parse_tool_calls (suc fuel) text s ≡ at_tag fuel (drop lt text) s
  unfolding actions_loop
  round_at fuel lt text s f = rw (actions_loop, f) refl

  round_none :
      (fuel : ℕ) (text : Bytes) (s : Actions J)
      → find_byte b'<' text ≡ none
      → actions_loop json parse_tool_calls (suc fuel) text s ≡ s
  unfolding actions_loop
  round_none fuel text s f = rw (actions_loop, f) refl

  ended : (fuel : ℕ) (s : Actions J) → actions_loop json parse_tool_calls fuel [] s ≡ s
  unfolding actions_loop find_byte
  ended zero s = refl
  ended (suc fuel) s = refl

  actions_loop-byte :
      (fuel c : ℕ) (text : Bytes) (s : Actions J)
      → (c == b'<') ≡ false
      → actions_loop json parse_tool_calls (suc fuel) (c ∷ text) s
        ≡ actions_loop json parse_tool_calls (suc fuel) text s
  actions_loop-byte fuel c text s h = elim (Option-cases (find_byte b'<' text)) [
    | inl f ↦
        round_none fuel (c ∷ text) s (find_byte-missing b'<' c text h f)
        ∙ sym (round_none fuel text s f)
    | inr (lt, f) ↦
        round_at fuel (lt + 1) (c ∷ text) s (find_byte-other b'<' c text lt h f)
        ∙ ap (λ t. at_tag fuel t s) (drop_one (lt + 1) lt c text refl)
        ∙ sym (round_at fuel lt text s f)
  ]

  actions_loop-tag :
      (fuel : ℕ) (raw rest : Bytes) (s : Actions J)
      → IsPiece (tag raw)
      → actions_loop json parse_tool_calls (suc fuel) (tag_of raw rest) s
        ≡ actions_loop json parse_tool_calls fuel rest s
  actions_loop-tag fuel raw rest s (h, k) =
      round_at fuel 0 (tag_of raw rest) s (tag_start raw rest)
      ∙ at_tag-tag_of fuel raw rest s h
      ∙ skips k
    where
      skips :
          ((is_closing raw || back_is b'/' raw ≡ true) ⊎ (acts (tag_name raw) ≡ false))
          → at_raw fuel s raw rest ≡ actions_loop json parse_tool_calls fuel rest s
      skips (inl a) = rw a refl
      skips (inr a) =
          rw (add_block-other (tag_name raw) (extract_tag_body rest (tag_name raw)).body s a)
            (elim (Bool-cases (is_closing raw || back_is b'/' raw)) [
              | inl c ↦ rw c refl
              | inr c ↦ rw c refl
            ])

  actions_loop-block :
      (fuel : ℕ) (raw body raw' rest : Bytes) (s : Actions J)
      → IsPiece (block raw body raw')
      → actions_loop json parse_tool_calls (suc fuel) (tag_of raw (body ++ tag_of raw' rest)) s
        ≡ actions_loop json parse_tool_calls fuel rest (acted (tag_name raw) body s)
  actions_loop-block fuel raw body raw' rest s (h, c, a, inside, closer) =
      let found = extract_tag_body-IsInside (tag_name raw) raw' rest inside closer in
      round_at fuel 0 (tag_of raw (body ++ tag_of raw' rest)) s
        (tag_start raw (body ++ tag_of raw' rest))
      ∙ at_tag-tag_of fuel raw (body ++ tag_of raw' rest) s h
      ∙ rw (c, found, add_block-acts (tag_name raw) body s a, found) refl

  -- An answer of bytes, tags that do nothing and closed blocks of tool calls, questions and answers
  -- is read as its blocks, one after the other, with what nests in them, and all of it is read.
  pub actions_loop-text_of :
      (pieces : List Piece) (fuel : ℕ) (s : Actions J)
      → All IsPiece pieces
      → length (text_of pieces) ≤ fuel
      → actions_loop json parse_tool_calls fuel (text_of pieces) s ≡ actions_of pieces s
  actions_loop-text_of [] fuel s h l = ended fuel s
  actions_loop-text_of (byte c ∷ pieces) zero s h l = absurd (omega arith)
  actions_loop-text_of (byte c ∷ pieces) (suc fuel) s h l =
      actions_loop-byte fuel c (text_of pieces) s h.0
      ∙ actions_loop-text_of pieces (suc fuel) s h.1 (omega arith)
  actions_loop-text_of (tag raw ∷ pieces) zero s h l = absurd (omega arith)
  actions_loop-text_of (tag raw ∷ pieces) (suc fuel) s h l =
      actions_loop-tag fuel raw (text_of pieces) s h.0
      ∙ actions_loop-text_of pieces fuel s h.1 (omega (arith, length-tag_of raw (text_of pieces)))
  actions_loop-text_of (block raw body raw' ∷ pieces) zero s h l = absurd (omega arith)
  actions_loop-text_of (block raw body raw' ∷ pieces) (suc fuel) s h l =
      let rest = text_of pieces in
      actions_loop-block fuel raw body raw' rest s h.0
      ∙ actions_loop-text_of pieces fuel (acted (tag_name raw) body s) h.1 (
          omega (
            arith,
            length-tag_of raw (body ++ tag_of raw' rest),
            length-append body (tag_of raw' rest),
            length-tag_of raw' rest,
          ))

  abbrev pub no_actions : Actions J
  no_actions = record { tool_calls = []; question = none }

  -- With the calls of the whole text where no block has one.
  abbrev pub called : Bytes → Actions J → List (ParsedToolCall J)
  called text s =
      if is_empty s.tool_calls
      then bare_calls json parse_tool_calls text s.tool_calls
      else s.tool_calls

  -- An answer of bytes, tags that do nothing and closed blocks of tool calls, questions and answers,
  -- which is not empty, is read as its blocks one after the other, to its end and with what nests in
  -- them: the calls that they add get their ids, and the question is theirs unless it is empty. Where
  -- no block has a call, those of the whole text are taken.
  pub parse_assistant_actions-actions_of :
      (pieces : List Piece)
      → All IsPiece pieces
      → is_empty (text_of pieces) ≡ false
      → parse_assistant_actions json parse_tool_calls (text_of pieces) ≡ record {
        tool_calls =
            assign_ids json parse_tool_calls 0
              (called (text_of pieces) (actions_of pieces no_actions));
        question = kept_question (actions_of pieces no_actions).question;
        visible_text = strip_special_blocks (text_of pieces);
      }
  unfolding parse_assistant_actions
  parse_assistant_actions-actions_of pieces h n =
      let all = actions_loop-text_of pieces (length (text_of pieces)) no_actions h (omega arith) in
      rw (n, all) refl
