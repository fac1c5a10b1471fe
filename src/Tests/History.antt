-- ===== src/Tests/History.antt =====
-- Stored results of tools (src/server/sessions/tool_history.cpp).
use llama_onprem_server.Prelude.{
  ◌≡◌, refl, true, Bytes, codes, starts_with, find_byte, find_text, bytes_eq, has_byte, back_is,
}
use llama_onprem_server.Prelude.Decimal.{to_string, digits_of}
use llama_onprem_server.Jobs.TokenBuffer.{is_empty}
use llama_onprem_server.History.{
  is_edge, trim_front, trim_back, trim_edges, newlines, line_count, detail_byte, sanitize_loop,
  drop_spaces, pop_spaces, sanitize_detail, attribute, contains_text, first_line, line_window,
  already_record, record_line, tool_response_open, known_in, is_subagent_name, is_kept, shrunk,
  shrink_loop, shrink_tool_responses,
}
use llama_onprem_server.History.Tag.{attribute-detail}
use llama_onprem_server.History.Record.{already_record-record_line}
use llama_onprem_server.History.Shrink.{IsShrunk, shrink_tool_responses-IsShrunk}

abbrev long_result : Bytes
long_result =
    codes "Hi <tool_response name=\"read\" detail=\"a.c\">\n1\n2\n3\n4\n</tool_response> ok"

long_result_shrunk :
    shrink_tool_responses long_result
    ≡ codes
        "Hi <tool_response name=\"read\" detail=\"a.c\">\nread a.c, 4 lines\n</tool_response> ok"
unfolding shrink_tool_responses shrink_loop shrunk is_kept is_subagent_name known_in bytes_eq
    already_record record_line line_window first_line contains_text attribute line_count newlines
    trim_edges trim_back trim_front is_edge is_empty to_string digits_of starts_with find_byte
    find_text has_byte back_is
long_result_shrunk = refl

shrink_tool_responses-IsShrunk_example : IsShrunk long_result (shrink_tool_responses long_result)
shrink_tool_responses-IsShrunk_example = shrink_tool_responses-IsShrunk long_result

attribute-detail_example :
    attribute (tool_response_open (codes "read") (codes "<a.c>\nb")) (codes "detail")
    ≡ sanitize_detail (codes "<a.c>\nb")
attribute-detail_example = attribute-detail (codes "read") (codes "<a.c>\nb")

clean_detail : sanitize_detail (codes "<a.c>\nb") ≡ codes "a.c"
unfolding sanitize_detail sanitize_loop detail_byte drop_spaces pop_spaces is_empty
clean_detail = refl

already_record-record_line_example :
    already_record (record_line (codes "read") (codes "a.c") (codes "1\n2\n3\n4")) (codes "read")
    ≡ true
already_record-record_line_example =
    already_record-record_line (codes "read") (codes "a.c") (codes "1\n2\n3\n4")
      (refl, (refl, (refl, (refl, tt)))) (refl, (refl, (refl, tt)))
