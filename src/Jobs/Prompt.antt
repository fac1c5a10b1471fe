-- ===== src/Jobs/Prompt.antt =====
-- The messages that the worker hands to the engine (`Jobs::worker_loop`, src/server/jobs/jobs.cpp):
-- one leading system message, into which later ones are folded. The type of a tool call is a
-- parameter.
pub mod Fold
use llama_onprem_server.Prelude.{Bool, List, [], ◌∷◌, ◌++◌, if◌then◌else◌, Bytes, bytes_eq, codes}
use llama_onprem_server.Jobs.TokenBuffer.{is_empty}

pub record ChatMessage (Call : Type 0) : Type 0 where
  pub role : Bytes
  pub content : Bytes
  pub reasoning_content : Bytes
  pub tool_call_id : Bytes
  pub tool_name : Bytes
  pub tool_calls : List Call

abbrev pub newline : Bytes
newline = 10 ∷ []

module _ (Call : Type 0) where
  abbrev pub is_system : ChatMessage Call → Bool
  is_system message = bytes_eq message.role (codes "system")

  abbrev pub system_message : Bytes → ChatMessage Call
  system_message content = record {
    role = codes "system";
    content = content;
    reasoning_content = [];
    tool_call_id = [];
    tool_name = [];
    tool_calls = [];
  }

  -- The text of a system message behind what was collected.
  pub add_system : Bytes → Bytes → Bytes
  add_system system content =
      if is_empty content
      then system
      else if is_empty system
      then content
      else (system ++ newline) ++ content

  -- The loop over the request's messages, with `system` and `msgs` as it carries them.
  pub fold_loop :
      Bytes → List (ChatMessage Call) → List (ChatMessage Call) → Bytes × List (ChatMessage Call)
  unfolding add_system
  fold_loop system msgs [] = (system, msgs)
  fold_loop system msgs (message ∷ messages) =
      let folded = fold_loop (add_system system message.content) msgs messages in
      let kept = fold_loop system (msgs ++ message ∷ []) messages in
      if is_system message then folded else kept

  unfoldable pub fold_system : Bytes → List (ChatMessage Call) → List (ChatMessage Call)
  unfolding fold_loop
  fold_system system messages =
      let (system', msgs) = fold_loop system [] messages in
      if is_empty system' then msgs else system_message system' ∷ msgs
