-- ===== src/Tests/Prompt.antt =====
-- Tests of Jobs/Prompt: a request with a system text and two system messages, one of them empty.
use Prim.Native.String.{String}
use llama_onprem_server.Prelude.{◌≡◌, refl, List, [], ◌∷◌, ◌++◌, Bytes, bytes_eq, codes}
use llama_onprem_server.Jobs.Prompt.Fold.{
  join_lines, with_text, system_texts, conversation, leading, fold_system-eq-leading,
}
use llama_onprem_server.Jobs.Prompt.{ChatMessage, fold_system}

abbrev message : String → String → ChatMessage Bytes
message role content = record {
  role = codes role;
  content = codes content;
  reasoning_content = [];
  tool_call_id = [];
  tool_name = [];
  tool_calls = [];
}

abbrev messages : List (ChatMessage Bytes)
messages =
    message "user" "hi" ∷ message "system" "" ∷ message "system" "b" ∷ message "assistant" "yo" ∷ []

fold_runs :
    fold_system Bytes (codes "a") messages
    ≡ message "system" "a\nb" ∷ message "user" "hi" ∷ message "assistant" "yo" ∷ []
unfolding fold_system bytes_eq
fold_runs = refl

fold_system_example :
    fold_system Bytes (codes "a") messages
    ≡ leading Bytes (join_lines (with_text (codes "a") (system_texts Bytes messages)))
      ++ conversation Bytes messages
fold_system_example = fold_system-eq-leading Bytes (codes "a") messages
