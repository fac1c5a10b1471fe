-- ===== src/Edit/File/NoChange.antt =====
-- Lemmas about patches that change nothing (`edit_file`, src/common/tools/tool_edit_file.cpp).
use llama_onprem_server.Prelude.{List, [], ◌∷◌, Bytes, bytes_eq_refl, ◌≡◌}
use llama_onprem_server.Edit.{Hunk, no_change, ok, failed}
use llama_onprem_server.Edit.Lines.{split_lines, split_loop}
use llama_onprem_server.Edit.Lines.RoundTrip.{join_lines-split_lines}
use llama_onprem_server.Edit.Spans.{place_loop, apply_spans, sort_spans, apply_loop}
use llama_onprem_server.Edit.File.{
  Files, Failures, change_file, write_placed, write_spans, updated_body,
}

updated_body-nil : (original : Bytes) → updated_body original [] ≡ original
unfolding updated_body apply_spans sort_spans apply_loop split_lines split_loop
updated_body-nil [] = join_lines-split_lines []
updated_body-nil (c ∷ original) = join_lines-split_lines (c ∷ original)

-- Where no hunk changes a line, the answer is that the patch does not change the file, and no file is
-- written.
change_file-no_change :
    (f : Failures) (path original : Bytes) (hunks : List Hunk) (files : Files)
    → place_loop path (split_lines original).lines [] hunks ≡ ok []
    → change_file f path original hunks files ≡ record { result = failed no_change; files = files }
unfolding change_file write_placed write_spans
change_file-no_change f path original hunks files h =
    rw (h, updated_body-nil original, bytes_eq_refl original)
