-- ===== src/Tests/Tags.antt =====
-- Answers of a model with tags (src/server/agent/response_parse.cpp).
use llama_onprem_server.Prelude.{
  ◌≡◌, refl, List, [], ◌∷◌, codes, starts_with, find_byte, back_is, All,
}
use llama_onprem_server.Agent.Think.{lower}
use llama_onprem_server.Agent.Tags.Inside
use llama_onprem_server.Agent.Tags.Shown
use llama_onprem_server.Agent.Tags.{
  ieq, before_space, without_slash, tag_name, is_closing, depth_behind, extract_loop,
  extract_tag_body, any_ieq, is_special, either_name, stands_alone, strip_loop,
  strip_special_blocks, trim_sv,
}
use llama_onprem_server.Agent.Tags.Inside.{IsInside, nil, nested}
use llama_onprem_server.Agent.Tags.Shown.{
  Segment, shown_tag, lone_tag, IsSegment, shown, text_of, strip_special_blocks-shown,
}
use llama_onprem_server.History.{is_edge, trim_front, trim_back, trim_edges}

-- A tag that is shown, a block with one of its name in it, and a closing tag without a block.
abbrev segments : List Segment
segments =
    shown_tag (codes "b")
    ∷ Shown.block (codes "tool_call") (codes "1<TOOL_CALL x>2</tool_call>3") (codes "/ Tool_call")
    ∷ lone_tag (codes "/think")
    ∷ Shown.byte b'!'
    ∷ []

nested_body : IsInside (codes "tool_call") (codes "1<TOOL_CALL x>2</tool_call>3")
unfolding is_closing starts_with ieq tag_name before_space without_slash back_is trim_edges
    trim_back trim_front is_edge lower
nested_body = Inside.byte refl (
    nested {raw = codes "TOOL_CALL x"} {inner = codes "2"} {raw' = codes "/tool_call"}
      {text = codes "3"}
      (record {
        raw_ok = (
          refl,
          (refl, (refl, (refl, (refl, (refl, (refl, (refl, (refl, (refl, (refl, tt)))))))))),
        );
        opening = refl;
        same = refl;
      })
      (Inside.byte refl nil)
      (record {
        raw_ok = (refl, (refl, (refl, (refl, (refl, (refl, (refl, (refl, (refl, (refl, tt))))))))));
        closing = refl;
        same = refl;
      })
      (Inside.byte refl nil))

segments-IsSegment : All IsSegment segments
unfolding is_special any_ieq either_name stands_alone is_closing starts_with ieq tag_name
    before_space without_slash back_is trim_edges trim_back trim_front is_edge lower
segments-IsSegment = (
  ((refl, tt), refl),
  (
    (
      (refl, (refl, (refl, (refl, (refl, (refl, (refl, (refl, (refl, tt))))))))),
      refl,
      refl,
      nested_body,
      record {
        raw_ok = (
          refl,
          (refl, (refl, (refl, (refl, (refl, (refl, (refl, (refl, (refl, (refl, tt)))))))))),
        );
        closing = refl;
        same = refl;
      },
    ),
    (((refl, (refl, (refl, (refl, (refl, (refl, tt)))))), refl, refl), (refl, tt)),
  ),
)

strip_special_blocks-shown_example :
    strip_special_blocks (codes "<b><tool_call>1<TOOL_CALL x>2</tool_call>3</ Tool_call></think>!")
    ≡ trim_sv (codes "<b>!")
strip_special_blocks-shown_example = strip_special_blocks-shown segments segments-IsSegment

-- A block that is not closed is left out to the end, and an empty one alone.
not_closed : strip_special_blocks (codes " a<question/>b <answer>c</b>") ≡ codes "ab"
unfolding strip_special_blocks strip_loop extract_tag_body extract_loop depth_behind is_special
    any_ieq either_name stands_alone is_closing starts_with find_byte ieq tag_name before_space
    without_slash back_is trim_edges trim_back trim_front is_edge lower
not_closed = refl
