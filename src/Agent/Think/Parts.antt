-- ===== src/Agent/Think/Parts.antt =====
-- Theorems about `split_thinking_channel` (src/server/agent/response_parse.cpp), on answers as
-- models write them.
use mathlib.Core.List.{append_assoc, append-nil}
use llama_onprem_server.Prelude.{
  ℕ, zero, suc, ◌+◌, ◌≤◌, Bool, true, false, List, [], ◌∷◌, ◌++◌, none, some, ◌==◌, length,
  length-append, take, drop, take-append_length, drop-append_both, Bytes, codes, starts_with,
  find_byte, ◌≡◌, refl, sym, ap, ◌∙◌, arith, All,
}
use llama_onprem_server.Agent.Think.{
  lower, same_ieq, starts_ieq, find_ieq, OpenTag, ends_name, match_names, match_open_think,
  ThinkingSplit, add_reasoning, closer_of, closes_itself, think_loop, think_close,
  split_thinking_channel,
}
use llama_onprem_server.Agent.Think.Find.{NoOpen, find_ieq-append}

pub data IsThinkName : Bytes → Type 0 where
  think : IsThinkName (codes "think")
  thinking : IsThinkName (codes "thinking")
  thought : IsThinkName (codes "thought")
  reason : IsThinkName (codes "reasoning")

abbrev pub opener_of : Bytes → Bytes
opener_of name = b'<' ∷ name ++ b'>' ∷ []

-- A byte that is shown, or a block of reasoning.
pub data Part : Type 0 where
  byte : ℕ → Part
  block : Bytes → Bytes → Part

-- No byte that is shown is '<', and no block has its closing tag in it.
abbrev pub IsPart : Part → Type 0
IsPart (byte c) = (c == b'<') ≡ false
IsPart (block name body) = IsThinkName name × (find_ieq (closer_of name) body ≡ none)

-- The text of `parts`, in front of `rest`.
abbrev pub text_of : List Part → Bytes → Bytes
text_of [] rest = rest
text_of (byte c ∷ parts) rest = c ∷ text_of parts rest
text_of (block name body ∷ parts) rest =
    opener_of name ++ (body ++ (closer_of name ++ text_of parts rest))

abbrev pub shown : List Part → Bytes
shown [] = []
shown (byte c ∷ parts) = c ∷ shown parts
shown (block name body ∷ parts) = shown parts

abbrev pub reasoned : Bytes → List Part → Bytes
reasoned reasoning [] = reasoning
reasoned reasoning (byte c ∷ parts) = reasoned reasoning parts
reasoned reasoning (block name body ∷ parts) = reasoned (add_reasoning reasoning body) parts

opened :
    {name : Bytes} (text : Bytes)
    → IsThinkName name
    → match_open_think (opener_of name ++ text)
      ≡ some (record { name = name; open_end = length name + 2 })
unfolding match_open_think match_names starts_ieq same_ieq lower ends_name find_byte
opened text think = refl
opened text thinking = refl
opened text thought = refl
opened text reason = refl

behind_opener :
    {name : Bytes} (text : Bytes)
    → IsThinkName name
    → drop (length name + 2) (opener_of name ++ text) ≡ text
behind_opener text think = refl
behind_opener text thinking = refl
behind_opener text thought = refl
behind_opener text reason = refl

not_closed_itself :
    {name : Bytes} (text : Bytes)
    → IsThinkName name
    → closes_itself (opener_of name ++ text) (length name + 2) ≡ false
unfolding closes_itself starts_with
not_closed_itself text think = refl
not_closed_itself text thinking = refl
not_closed_itself text thought = refl
not_closed_itself text reason = refl

closer-NoOpen : {name : Bytes} → IsThinkName name → NoOpen (b'/' ∷ name ++ b'>' ∷ [])
unfolding lower
closer-NoOpen think = (refl, (refl, (refl, (refl, (refl, (refl, (refl, tt)))))))
closer-NoOpen thinking =
    (refl, (refl, (refl, (refl, (refl, (refl, (refl, (refl, (refl, (refl, tt))))))))))
closer-NoOpen thought = (refl, (refl, (refl, (refl, (refl, (refl, (refl, (refl, (refl, tt)))))))))
closer-NoOpen reason =
    (refl, (refl, (refl, (refl, (refl, (refl, (refl, (refl, (refl, (refl, (refl, tt)))))))))))

other_byte : (c : ℕ) (text : Bytes) → (c == b'<') ≡ false → match_open_think (c ∷ text) ≡ none
unfolding match_open_think
other_byte c text h = rw h refl

think_loop-byte :
    (fuel c : ℕ) (r v text : Bytes)
    → (c == b'<') ≡ false
    → think_loop (suc fuel) r v (c ∷ text) ≡ think_loop fuel r (v ++ c ∷ []) text
unfolding think_loop
think_loop-byte fuel c r v text h = rw (think_loop, other_byte c text h) refl

-- A round at an opening tag, with `body` behind the tag.
module _ (fuel c : ℕ) (cs r v : Bytes) (tag : OpenTag) (body : Bytes)
    (m : match_open_think (c ∷ cs) ≡ some tag) (k : closes_itself (c ∷ cs) tag.open_end ≡ false)
    (d : drop tag.open_end (c ∷ cs) ≡ body) where
  round_unclosed :
      find_ieq (closer_of tag.name) body ≡ none
      → think_loop (suc fuel) r v (c ∷ cs)
        ≡ record { reasoning = add_reasoning r body; visible = v; closed = false }
  unfolding think_loop
  round_unclosed f = rw (think_loop, m, k, d, f, d) refl

  round_closed :
      (at : ℕ)
      → find_ieq (closer_of tag.name) body ≡ some at
      → think_loop (suc fuel) r v (c ∷ cs)
        ≡ think_loop fuel
            (add_reasoning r (take at body))
            v
            (drop (at + length (closer_of tag.name)) body)
  unfolding think_loop
  round_closed at f = rw (think_loop, m, k, d, f, d) refl

think_loop-open :
    (fuel : ℕ) {name : Bytes} (r v body : Bytes)
    → IsThinkName name
    → find_ieq (closer_of name) body ≡ none
    → think_loop (suc fuel) r v (opener_of name ++ body)
      ≡ record { reasoning = add_reasoning r body; visible = v; closed = false }
think_loop-open fuel r v body n f =
    round_unclosed fuel b'<' _ r v _ body (opened body n) (not_closed_itself body n)
      (behind_opener body n) f

think_loop-block :
    (fuel : ℕ) {name : Bytes} (r v body text : Bytes)
    → IsThinkName name
    → find_ieq (closer_of name) body ≡ none
    → think_loop (suc fuel) r v (opener_of name ++ (body ++ (closer_of name ++ text)))
      ≡ think_loop fuel (add_reasoning r body) v text
think_loop-block fuel {name} r v body text n f =
    let more = body ++ (closer_of name ++ text) in
    let round =
      round_closed fuel b'<' _ r v _ more (opened more n) (not_closed_itself more n)
        (behind_opener more n) (length body)
        (find_ieq-append body (b'/' ∷ name ++ b'>' ∷ []) text (closer-NoOpen n) f) in
    round ∙ parts
  where
    parts :
        think_loop fuel
          (add_reasoning r (take (length body) (body ++ (closer_of name ++ text))))
          v
          (drop (length body + length (closer_of name)) (body ++ (closer_of name ++ text)))
        ≡ think_loop fuel (add_reasoning r body) v text
    parts =
        rw
          (
            take-append_length body (closer_of name ++ text),
            drop-append_both body (closer_of name) text,
          )
          refl

-- How an answer ends: behind its parts, or in a block that is not closed.
pub data End : Type 0 where
  whole : End
  broken : Bytes → Bytes → End

abbrev pub IsEnd : End → Type 0
IsEnd whole = Unit
IsEnd (broken name body) = IsThinkName name × (find_ieq (closer_of name) body ≡ none)

abbrev pub end_text : End → Bytes
end_text whole = []
end_text (broken name body) = opener_of name ++ body

abbrev pub ended : End → Bytes → Bytes → ThinkingSplit
ended whole r v = record { reasoning = r; visible = v; closed = true }
ended (broken name body) r v = record {
  reasoning = add_reasoning r body;
  visible = v;
  closed = false;
}

think_loop-end :
    (fuel : ℕ) (end : End) (r v : Bytes)
    → IsEnd end
    → length (end_text end) ≤ fuel
    → think_loop fuel r v (end_text end) ≡ ended end r v
unfolding think_loop
think_loop-end zero whole r v h l = refl
think_loop-end (suc fuel) whole r v h l = refl
think_loop-end zero (broken name body) r v h l = absurd (omega arith)
think_loop-end (suc fuel) (broken name body) r v h l = think_loop-open fuel r v body h.0 h.1

think_loop-text_of :
    (parts : List Part) (fuel : ℕ) (end : End) (r v : Bytes)
    → All IsPart parts
    → IsEnd end
    → length (text_of parts (end_text end)) ≤ fuel
    → think_loop fuel r v (text_of parts (end_text end))
      ≡ ended end (reasoned r parts) (v ++ shown parts)
think_loop-text_of [] fuel end r v h e l =
    think_loop-end fuel end r v e l ∙ ap (ended end r) (sym (append-nil v))
think_loop-text_of (byte c ∷ parts) zero end r v h e l = absurd (omega arith)
think_loop-text_of (block name body ∷ parts) zero end r v h e l = absurd (omega arith)
think_loop-text_of (byte c ∷ parts) (suc fuel) end r v h e l =
    think_loop-byte fuel c r v (text_of parts (end_text end)) h.0
    ∙ think_loop-text_of parts fuel end r (v ++ c ∷ []) h.1 e (omega arith)
    ∙ ap (ended end (reasoned r parts)) (append_assoc v (c ∷ []) (shown parts))
think_loop-text_of (block name body ∷ parts) (suc fuel) end r v h e l =
    let more = text_of parts (end_text end) in
    think_loop-block fuel r v body more h.0.0 h.0.1
    ∙ think_loop-text_of parts fuel end (add_reasoning r body) v h.1 e (
        omega (
          arith,
          length-append (opener_of name) (body ++ (closer_of name ++ more)),
          length-append body (closer_of name ++ more),
          length-append (closer_of name) more,
        ))

-- An answer: it starts outside of any block, or inside of the one that the prompt opened, which it
-- may not close.
pub data Answer : Type 0 where
  outside : List Part → End → Answer
  inside : Bytes → List Part → End → Answer
  unclosed : Bytes → Answer

abbrev pub IsAnswer : Answer → Type 0
IsAnswer (outside parts end) = All IsPart parts × IsEnd end
IsAnswer (inside body parts end) =
    (find_ieq think_close body ≡ none) × (All IsPart parts × IsEnd end)
IsAnswer (unclosed body) = find_ieq think_close body ≡ none

abbrev pub answer_text : Answer → Bytes
answer_text (outside parts end) = text_of parts (end_text end)
answer_text (inside body parts end) = body ++ (think_close ++ text_of parts (end_text end))
answer_text (unclosed body) = body

abbrev pub prompt_opened : Answer → Bool
prompt_opened (outside parts end) = false
prompt_opened (inside body parts end) = true
prompt_opened (unclosed body) = true

abbrev pub split_of : Answer → ThinkingSplit
split_of (outside parts end) = ended end (reasoned [] parts) (shown parts)
split_of (inside body parts end) = ended end (reasoned body parts) (shown parts)
split_of (unclosed body) = record { reasoning = body; visible = []; closed = false }

split_at :
    (text : Bytes) (at : ℕ) (first rest : Bytes)
    → find_ieq think_close text ≡ some at
    → take at text ≡ first
    → drop (at + length think_close) text ≡ rest
    → split_thinking_channel text true ≡ think_loop (length rest) first [] rest
unfolding split_thinking_channel
split_at text at first rest f t d = rw (split_thinking_channel, f, t, d) refl

-- An answer is split into its parts: the reasoning is what stands in the blocks, in order and with
-- line breaks between, the visible text is every other byte but the tags, and `closed` says whether
-- the last block ends. In a block there may be any text but its own closing tag; outside of blocks
-- no '<' stands but that of an opening tag.
pub split_thinking_channel-answer_text :
    (answer : Answer)
    → IsAnswer answer
    → split_thinking_channel (answer_text answer) (prompt_opened answer) ≡ split_of answer
unfolding split_thinking_channel
split_thinking_channel-answer_text (outside parts end) h =
    think_loop-text_of parts _ end [] [] h.0 h.1 (omega arith)
split_thinking_channel-answer_text (inside body parts end) h =
    let rest = text_of parts (end_text end) in
    split_at (body ++ (think_close ++ rest)) (length body) body rest
      (find_ieq-append body (codes "/think>") rest (closer-NoOpen think) h.0)
      (take-append_length body (think_close ++ rest)) (drop-append_both body think_close rest)
    ∙ think_loop-text_of parts (length rest) end body [] h.1.0 h.1.1 (omega arith)
split_thinking_channel-answer_text (unclosed body) h = rw h refl
