-- ===== src/Tests/Actions.antt =====
-- An answer with a tool call and a question (src/server/agent/response_parse.cpp).
use llama_onprem_server.Prelude.{
  ℕ, ◌≡◌, refl, List, [], ◌∷◌, ◌++◌, none, codes, starts_with, back_is, Bytes, All, inl,
}
use llama_onprem_server.Prelude.Decimal.{to_string, digits_of}
use llama_onprem_server.Agent.Think.{lower}
use llama_onprem_server.Agent.Tags.{
  ieq, before_space, without_slash, tag_name, is_closing, strip_special_blocks,
}
use llama_onprem_server.Agent.Tags.Inside
use llama_onprem_server.Agent.Actions.{
  Json, ParsedToolCall, assign_ids, kept_question, parse_assistant_actions,
}
use llama_onprem_server.Agent.Actions.Complete.{
  Piece, byte, tag, block, IsPiece, text_of, actions_of, no_actions, called,
  parse_assistant_actions-actions_of,
}
use llama_onprem_server.History.{is_edge, trim_front, trim_back, trim_edges}

-- A library whose values are numbers, none of them an object.
abbrev numbers : Json ℕ
numbers = record {
  parse = λ text. none;
  elements = λ j. none;
  members = λ j. none;
  as_string = λ j. none;
  object = λ ms. 0;
}

-- An adapter that takes a body for the name of a call.
abbrev named : Bytes → List (ParsedToolCall ℕ) → List (ParsedToolCall ℕ)
named body calls = calls ++ record { id = []; name = body; arguments = 0 } ∷ []

abbrev pieces : List Piece
pieces =
    tag (codes "br/")
    ∷ block (codes "tool_call") (codes "f") (codes "/tool_call")
    ∷ byte b'x'
    ∷ block (codes "Question") (codes "Q") (codes "/question")
    ∷ []

pieces-IsPiece : All IsPiece pieces
unfolding is_closing starts_with ieq tag_name before_space without_slash back_is trim_edges
    trim_back trim_front is_edge lower
pieces-IsPiece = (
  ((refl, (refl, (refl, tt))), inl refl),
  (
    (
      (refl, (refl, (refl, (refl, (refl, (refl, (refl, (refl, (refl, tt))))))))),
      refl,
      refl,
      Inside.byte refl Inside.nil,
      record {
        raw_ok = (refl, (refl, (refl, (refl, (refl, (refl, (refl, (refl, (refl, (refl, tt))))))))));
        closing = refl;
        same = refl;
      },
    ),
    (
      refl,
      (
        (
          (refl, (refl, (refl, (refl, (refl, (refl, (refl, (refl, tt)))))))),
          refl,
          refl,
          Inside.byte refl Inside.nil,
          record {
            raw_ok = (refl, (refl, (refl, (refl, (refl, (refl, (refl, (refl, (refl, tt)))))))));
            closing = refl;
            same = refl;
          },
        ),
        tt,
      ),
    ),
  ),
)

parse_assistant_actions-actions_of_example :
    parse_assistant_actions numbers named
      (codes "<br/><tool_call>f</tool_call>x<Question>Q</question>")
    ≡ record {
      tool_calls = assign_ids numbers named 0 (
          called numbers named
            (text_of pieces)
            (actions_of numbers named pieces (no_actions numbers named)));
      question =
          kept_question (actions_of numbers named pieces (no_actions numbers named)).question;
      visible_text = strip_special_blocks (text_of pieces);
    }
parse_assistant_actions-actions_of_example =
    parse_assistant_actions-actions_of numbers named pieces pieces-IsPiece refl

-- A call without an id gets the id that another one has.
same_id :
    assign_ids numbers named 0 (
      record { id = codes "2"; name = codes "f"; arguments = 0 }
      ∷ record { id = []; name = codes "g"; arguments = 0 }
      ∷ [])
    ≡ record { id = codes "2"; name = codes "f"; arguments = 0 }
      ∷ record { id = codes "2"; name = codes "g"; arguments = 0 }
      ∷ []
unfolding assign_ids to_string digits_of
same_id = refl
