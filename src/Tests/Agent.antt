-- ===== src/Tests/Agent.antt =====
-- Answers of a model (src/server/agent/response_parse.cpp).
use llama_onprem_server.Prelude.{◌≡◌, refl, true, false, [], ◌∷◌, codes, starts_with, find_byte}
use llama_onprem_server.Agent.Think.{
  lower, same_ieq, starts_ieq, find_ieq, ends_name, match_names, match_open_think, add_reasoning,
  closes_itself, think_loop, split_thinking_channel,
}
use llama_onprem_server.Agent.Think.Parts.{
  Answer, inside, IsAnswer, split_of, byte, block, broken, think, thinking,
  split_thinking_channel-answer_text,
}

-- A block that the prompt opened, a shown byte, a whole block and one that is cut off.
abbrev answer : Answer
answer =
    inside (codes "a<b") (byte b'x' ∷ block (codes "thinking") (codes "c</think>") ∷ byte b'y' ∷ [])
      (broken (codes "think") (codes "d"))

answer-IsAnswer : IsAnswer answer
unfolding find_ieq starts_ieq same_ieq lower
answer-IsAnswer = (refl, ((refl, ((thinking, refl), (refl, tt))), (think, refl)))

split_thinking_channel-answer_text_example :
    split_thinking_channel (codes "a<b</think>x<thinking>c</think></thinking>y<think>d") true
    ≡ split_of answer
split_thinking_channel-answer_text_example =
    split_thinking_channel-answer_text answer answer-IsAnswer

-- In any case, with spaces in the tag, and with a block that is empty.
mixed_case :
    split_thinking_channel (codes "x<Think >a</THINK>y<think/>z") false
    ≡ record { reasoning = codes "a"; visible = codes "xyz"; closed = true }
unfolding split_thinking_channel think_loop match_open_think match_names ends_name find_ieq
    starts_ieq same_ieq lower add_reasoning closes_itself starts_with find_byte
mixed_case = refl
