-- ===== src/Agent/Tags.antt =====
-- The tags of an answer: the body of a block, and the text without the blocks that are not shown
-- (extract_tag_body and strip_special_blocks of src/server/agent/response_parse.cpp). An index counts
-- from where the search starts.
pub mod Inside
pub mod Shown
use llama_onprem_server.Prelude.{
  ℕ, zero, suc, ◌+◌, ◌-◌, Bool, true, false, not, ◌&&◌, ◌||◌, List, [], ◌∷◌, ◌++◌, Option, none,
  some, ltb, ◌==◌, if◌then◌else◌, length, take, drop, Bytes, codes, starts_with, find_byte, back_is,
}
use llama_onprem_server.Agent.Think.{lower}
use llama_onprem_server.History.{trim_edges}

-- It cuts the same bytes as `trim_edges` of the session's history.
abbrev pub trim_sv : Bytes → Bytes
trim_sv text = trim_edges text

unfoldable pub ieq : Bytes → Bytes → Bool
ieq [] [] = true
ieq [] (y ∷ b) = false
ieq (x ∷ a) [] = false
ieq (x ∷ a) (y ∷ b) = lower x == lower y && ieq a b

-- The part in front of the first space or tab.
unfoldable pub before_space : Bytes → Bytes
before_space [] = []
before_space (c ∷ text) =
    let rest = before_space text in if c == b' ' || c == b'\t' then [] else c ∷ rest

unfoldable pub without_slash : Bytes → Bytes
without_slash raw = if back_is b'/' raw then take (length raw - 1) raw else raw

-- The name in an opening tag, without attributes.
unfoldable pub tag_name : Bytes → Bytes
tag_name raw = before_space (trim_sv (without_slash raw))

unfoldable pub is_closing : Bytes → Bool
is_closing raw = starts_with raw (b'/' ∷ [])

-- The depth behind a tag, of which `raw` stands between the brackets.
unfoldable pub depth_behind : Bytes → ℕ → Bytes → ℕ
depth_behind name depth raw =
    if is_closing raw
    then if ieq (trim_sv (drop 1 raw)) name then depth - 1 else depth
    else if ieq (tag_name raw) name
    then depth + 1
    else depth

pub record Closing : Type 0 where
  pub body_end : ℕ
  pub after_close : ℕ

-- The loop over `pos`, with its index `i` in the body and the text from there on; a round reads at
-- least one byte. No result is a block that is not closed.
unfoldable pub extract_loop : ℕ → Bytes → ℕ → ℕ → Bytes → Option Closing
extract_loop zero name depth i text = none
extract_loop (suc fuel) name depth i [] = none
extract_loop (suc fuel) name depth i (c ∷ cs) = elim (find_byte b'<' (c ∷ cs)) [
  | none ↦ none
  | some lt ↦
      let tag = drop lt (c ∷ cs) in
      elim (find_byte b'>' tag) [
        | none ↦ none
        | some gt ↦
            let next = depth_behind name depth (take (gt - 1) (drop 1 tag)) in
            let after = i + lt + (gt + 1) in
            let more = extract_loop fuel name next after (drop (gt + 1) tag) in
            if next == 0 then some (record { body_end = i + lt; after_close = after }) else more
      ]
]

pub record TagBody : Type 0 where
  pub body : Bytes
  pub after : Bytes
  pub closed : Bool

-- With the text behind the opening tag, and the text from `after_close` on.
unfoldable pub extract_tag_body : Bytes → Bytes → TagBody
extract_tag_body text name = elim (extract_loop (length text) name 1 0 text) [
  | none ↦ record { body = text; after = []; closed = false }
  | some close ↦ record {
    body = take close.body_end text;
    after = drop close.after_close text;
    closed = true;
  }
]

abbrev pub special_names : List Bytes
special_names =
    codes "think"
    ∷ codes "thinking"
    ∷ codes "thought"
    ∷ codes "reasoning"
    ∷ codes "tool_call"
    ∷ codes "tool_calls"
    ∷ codes "question"
    ∷ codes "answer"
    ∷ codes "tool_response"
    ∷ []

unfoldable pub any_ieq : List Bytes → Bytes → Bool
any_ieq [] name = false
any_ieq (n ∷ names) name = ieq name n || any_ieq names name

unfoldable pub is_special : Bytes → Bool
is_special name = any_ieq special_names name

-- The name in an opening or a closing tag.
unfoldable pub either_name : Bytes → Bytes
either_name raw = tag_name (if is_closing raw then drop 1 raw else raw)

-- Whether a special tag is left out alone, without a body.
unfoldable pub stands_alone : Bytes → Bool
stands_alone raw = is_closing raw || back_is b'/' raw

unfoldable pub strip_loop : ℕ → Bytes → Bytes → Bytes
strip_loop zero out text = out
strip_loop (suc fuel) out [] = out
strip_loop (suc fuel) out (c ∷ cs) = elim (find_byte b'<' (c ∷ cs)) [
  | none ↦ out ++ (c ∷ cs)
  | some lt ↦
      let tag = drop lt (c ∷ cs) in
      let out' = out ++ take lt (c ∷ cs) in
      elim (find_byte b'>' tag) [
        | none ↦ out' ++ tag
        | some gt ↦
            let raw = take (gt - 1) (drop 1 tag) in
            let behind = drop (gt + 1) tag in
            let shown = strip_loop fuel (out' ++ take (gt + 1) tag) behind in
            let alone = strip_loop fuel out' behind in
            let block = strip_loop fuel out' (extract_tag_body behind (either_name raw)).after in
            if not (is_special (either_name raw))
            then shown
            else if stands_alone raw
            then alone
            else block
      ]
]

unfoldable pub strip_special_blocks : Bytes → Bytes
strip_special_blocks text = trim_sv (strip_loop (length text) [] text)
