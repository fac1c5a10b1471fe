-- ===== src/Agent/Actions.antt =====
-- The tool calls and the question in an answer (parse_assistant_actions and parse_tool_json_segment of
-- src/server/agent/response_parse.cpp). JSON values are those of a library, and the syntax of tool
-- calls is the model adapter's: both are parameters.
pub mod Complete
use llama_onprem_server.Prelude.{
  ℕ, zero, suc, ◌+◌, ◌-◌, Bool, true, false, not, ◌&&◌, ◌||◌, List, [], ◌∷◌, ◌++◌, Option, none,
  some, ◌==◌, if◌then◌else◌, length, take, drop, Bytes, bytes_eq, codes, starts_with, find_byte,
  back_is,
}
use llama_onprem_server.Prelude.Decimal.{to_string}
use llama_onprem_server.Jobs.TokenBuffer.{is_empty}
use llama_onprem_server.Agent.Tags.{
  trim_sv, ieq, tag_name, is_closing, extract_tag_body, strip_special_blocks,
}

-- What the code uses of nlohmann::json: a value that is an array has elements, one that is an object
-- has members.
pub record Json (J : Type 0) : Type 0 where
  pub parse : Bytes → Option J
  pub elements : J → Option (List J)
  pub members : J → Option (List (Bytes × J))
  pub as_string : J → Option Bytes
  pub object : List (Bytes × J) → J

pub record ParsedToolCall (J : Type 0) : Type 0 where
  pub id : Bytes
  pub name : Bytes
  pub arguments : J

pub record ParsedQuestion : Type 0 where
  pub text : Bytes
  pub answers : List Bytes

pub record Actions (J : Type 0) : Type 0 where
  pub tool_calls : List (ParsedToolCall J)
  pub question : Option ParsedQuestion

pub record ParsedAssistantActions (J : Type 0) : Type 0 where
  pub tool_calls : List (ParsedToolCall J)
  pub question : Option ParsedQuestion
  pub visible_text : Bytes

unfoldable pub is_leftover : Bytes → Bool
is_leftover key =
    not (bytes_eq key (codes "name") || (bytes_eq key (codes "tool") || bytes_eq key (codes "id")))

module _ {J : Type 0} (json : Json J) where
  unfoldable pub member : Bytes → List (Bytes × J) → Option J
  member key [] = none
  member key ((k, value) ∷ ms) =
      let rest = member key ms in if bytes_eq k key then some value else rest

  -- `j.contains(key) && j[key].is_string()`, and the string.
  unfoldable pub string_at : Bytes → List (Bytes × J) → Option Bytes
  string_at key ms = elim (member key ms) [ none ↦ none | some value ↦ json.as_string value ]

  unfoldable pub leftover : List (Bytes × J) → List (Bytes × J)
  leftover [] = []
  leftover ((key, value) ∷ ms) =
      let rest = leftover ms in if is_leftover key then (key, value) ∷ rest else rest

  unfoldable pub arguments_of : List (Bytes × J) → J
  arguments_of ms = elim (member (codes "arguments") ms) [
    | some value ↦ value
    | none ↦ elim (member (codes "args") ms) [
      | some value ↦ value
      | none ↦ elim (member (codes "parameters") ms) [
        | some value ↦ value
        | none ↦ json.object (leftover ms)
      ]
    ]
  ]

  unfoldable pub is_object : J → Bool
  is_object value = elim (json.members value) [ none ↦ false | some ms ↦ true ]

  -- The object that a string of arguments holds.
  unfoldable pub parsed_arguments : J → J
  parsed_arguments value = elim (json.as_string value) [
    | none ↦ value
    | some text ↦ elim (json.parse text) [
      | none ↦ value
      | some parsed ↦ if is_object parsed then parsed else value
    ]
  ]

  unfoldable pub object_arguments : J → J
  object_arguments value = if not (is_object value) then json.object [] else value

  unfoldable pub call_named : Bytes → List (Bytes × J) → Option (ParsedToolCall J)
  call_named name ms =
      let call : ParsedToolCall J = record {
        id = elim (string_at (codes "id") ms) [ none ↦ [] | some id ↦ id ];
        name = name;
        arguments = object_arguments (parsed_arguments (arguments_of ms));
      } in
      if not (is_empty name) then some call else none

  -- No call is the result `false`.
  unfoldable pub extract_single_tool : J → Option (ParsedToolCall J)
  extract_single_tool j = elim (json.members j) [
    | none ↦ none
    | some ms ↦ elim (string_at (codes "name") ms) [
      | some name ↦ call_named name ms
      | none ↦ elim (string_at (codes "tool") ms) [ some name ↦ call_named name ms | none ↦ none ]
    ]
  ]

  unfoldable pub extract_tools : List J → List (ParsedToolCall J)
  extract_tools [] = []
  extract_tools (j ∷ js) =
      let rest = extract_tools js in
      elim (extract_single_tool j) [ none ↦ rest | some call ↦ call ∷ rest ]

  abbrev pub fence : Bytes
  fence = codes "```"

  unfoldable pub behind_line : Bytes → Bytes
  behind_line text = elim (find_byte b'\n' text) [ none ↦ text | some nl ↦ drop (nl + 1) text ]

  -- `ends_with` the fence, and `remove_suffix`.
  unfoldable pub without_fence : Bytes → Bytes
  without_fence text =
      let at = length text - 3 in if bytes_eq (drop at text) fence then take at text else text

  unfoldable pub without_fences : Bytes → Bytes
  without_fences text =
      if starts_with text fence then trim_sv (without_fence (behind_line text)) else text

  unfoldable pub parse_tool_json_segment : Bytes → List (ParsedToolCall J)
  parse_tool_json_segment segment =
      let trimmed = trim_sv segment in
      if is_empty trimmed then [] else elim (json.parse (without_fences trimmed)) [
        | none ↦ []
        | some j ↦ elim (json.elements j) [
          | some js ↦ extract_tools js
          | none ↦ elim (extract_single_tool j) [ none ↦ [] | some call ↦ call ∷ [] ]
        ]
      ]

unfoldable pub question_of : Option ParsedQuestion → ParsedQuestion
question_of none = record { text = []; answers = [] }
question_of (some q) = q

unfoldable pub add_text : Bytes → ParsedQuestion → ParsedQuestion
add_text t q =
    if is_empty t
    then q
    else if not (is_empty q.text)
    then record q { text = q.text ++ b'\n' ∷ t }
    else record q { text = q.text ++ t }

unfoldable pub add_answer : Bytes → ParsedQuestion → ParsedQuestion
add_answer t q = if not (is_empty t) then record q { answers = q.answers ++ t ∷ [] } else q

-- The question, unless it has no text and no answers.
unfoldable pub kept_question : Option ParsedQuestion → Option ParsedQuestion
kept_question none = none
kept_question (some q) = if is_empty q.text && is_empty q.answers then none else some q

module _ {J : Type 0} (json : Json J)
    (parse_tool_calls : Bytes → List (ParsedToolCall J) → List (ParsedToolCall J)) where
  -- The calls with those of a block.
  unfoldable pub block_calls : Bytes → List (ParsedToolCall J) → List (ParsedToolCall J)
  block_calls body calls =
      let adapted = parse_tool_calls body calls in
      if length adapted == length calls
      then adapted ++ parse_tool_json_segment json body
      else adapted

  -- What a block adds, by its name; none is a name that adds nothing.
  pub add_block : Bytes → Bytes → Actions J → Option (Actions J)
  add_block name body s =
      if ieq name (codes "tool_call") || ieq name (codes "tool_calls")
      then some (record s { tool_calls = block_calls body s.tool_calls })
      else if ieq name (codes "question")
      then some (record s { question = some (add_text (trim_sv body) (question_of s.question)) })
      else if ieq name (codes "answer")
      then some (record s { question = some (add_answer (trim_sv body) (question_of s.question)) })
      else none

  pub actions_loop : ℕ → Bytes → Actions J → Actions J
  actions_loop zero text s = s
  actions_loop (suc fuel) text s = elim (find_byte b'<' text) [
    | none ↦ s
    | some lt ↦
        let tag = drop lt text in
        elim (find_byte b'>' tag) [
          | none ↦ s
          | some gt ↦
              let raw = take (gt - 1) (drop 1 tag) in
              let behind = drop (gt + 1) tag in
              let skipped = actions_loop fuel behind s in
              let found = extract_tag_body behind (tag_name raw) in
              if is_closing raw || back_is b'/' raw
              then skipped
              else elim (add_block (tag_name raw) found.body s) [
                | none ↦ skipped
                | some s' ↦ actions_loop fuel found.after s'
              ]
        ]
  ]

  -- The calls of an answer in which no block had one.
  unfoldable pub bare_calls : Bytes → List (ParsedToolCall J) → List (ParsedToolCall J)
  bare_calls text calls =
      let adapted = parse_tool_calls text calls in
      let trimmed = trim_sv text in
      if is_empty adapted && (starts_with trimmed (b'{' ∷ []) || starts_with trimmed (b'[' ∷ []))
      then adapted ++ parse_tool_json_segment json trimmed
      else adapted

  -- A call without an id gets its place, from 1; `i` is the index of the first call.
  unfoldable pub assign_ids : ℕ → List (ParsedToolCall J) → List (ParsedToolCall J)
  assign_ids i [] = []
  assign_ids i (call ∷ calls) =
      let rest = assign_ids (i + 1) calls in
      if is_empty call.id then record call { id = to_string (i + 1) } ∷ rest else call ∷ rest

  pub parse_assistant_actions : Bytes → ParsedAssistantActions J
  parse_assistant_actions text =
      let s = actions_loop (length text) text (record { tool_calls = []; question = none }) in
      let calls = if is_empty s.tool_calls then bare_calls text s.tool_calls else s.tool_calls in
      if is_empty text
      then record { tool_calls = []; question = none; visible_text = [] }
      else record {
        tool_calls = assign_ids 0 calls;
        question = kept_question s.question;
        visible_text = strip_special_blocks text;
      }
