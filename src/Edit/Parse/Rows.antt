-- ===== src/Edit/Parse/Rows.antt =====
-- Hunks as lines of a patch, and the loop of `parse_patch` (src/common/tools/tool_edit_file.cpp) over
-- them.
use mathlib.Core.List.{append_assoc, append-nil}
use llama_onprem_server.Prelude.{
  ℕ, ◌+◌, ◌^◌, ◌<◌, true, false, List, [], ◌∷◌, ◌++◌, map, Bytes, codes, starts_with, ◌==◌, length,
  length-append, ◌≡◌, refl, sym, subst, ◌∙◌, arith, All,
}
use llama_onprem_server.Jobs.TokenBuffer.{is_empty}
use llama_onprem_server.Edit.{PatchLine, Hunk, Result, ok, failed, ◌>>=◌}
use llama_onprem_server.Edit.Parse.{
  Parser, no_hunk, close_hunk, open_hunk, is_kind, hunk_line, is_file_header, parse_line,
  parse_loop,
}
use llama_onprem_server.Edit.Parse.Header.{header_line, parse_hunk_header-header_line}

abbrev pub row : PatchLine → Bytes
row line = line.kind ∷ line.text

-- A line of a hunk that is not read as a header of a file.
abbrev pub IsPlain : PatchLine → Type 0
IsPlain line = (is_kind line.kind ≡ true) × (is_file_header (row line) ≡ false)

-- A hunk with the range of its new side.
pub record Printed : Type 0 where
  pub hunk : Hunk
  pub new_start : ℕ
  pub new_count : ℕ

unfoldable pub hunk_rows : Printed → List Bytes
hunk_rows p =
    header_line p.hunk.old_start p.hunk.old_count p.new_start p.new_count ∷ map row p.hunk.lines

unfoldable pub all_rows : List Printed → List Bytes
all_rows [] = []
all_rows (p ∷ ps) = hunk_rows p ++ all_rows ps

unfoldable pub hunks_of : List Printed → List Hunk
hunks_of [] = []
hunks_of (p ∷ ps) = p.hunk ∷ hunks_of ps

>>=-regroup :
    {A B C : Type 0} (m : Result A) (f : A → Result C) (g : A → Result B) (k : B → Result C)
    → ((a : A) → f a ≡ (g a >>= k))
    → (m >>= f) ≡ ((m >>= g) >>= k)
>>=-regroup (ok a) f g k h = h a
>>=-regroup (failed e) f g k h = refl

pub parse_loop-append :
    (p : Parser) (xs ys : List Bytes)
    → parse_loop p (xs ++ ys) ≡ (parse_loop p xs >>= λ q. parse_loop q ys)
unfolding parse_loop
parse_loop-append p [] ys = refl
parse_loop-append p (x ∷ xs) ys =
    >>=-regroup (parse_line p x) _ _ _ (λ q. parse_loop-append q xs ys)

-- The parser with more lines in its hunk.
abbrev with_lines : Parser → List PatchLine → Parser
with_lines p lines = record p { current = record p.current { lines = p.current.lines ++ lines } }

starts_with_at :
    (k : ℕ) (text : Bytes) → is_kind k ≡ true → starts_with (k ∷ text) (codes "@@") ≡ false
unfolding starts_with
starts_with_at k text h = ground arith

not_backslash : (k : ℕ) → is_kind k ≡ true → (k == b'\\') ≡ false
not_backslash k h = ground arith

parse_line-row :
    (p : Parser) (line : PatchLine)
    → p.in_hunk ≡ true
    → IsPlain line
    → parse_line p (row line) ≡ ok (with_lines p (line ∷ []))
unfolding parse_line hunk_line
parse_line-row p line h plain = simp (
  starts_with_at line.kind line.text plain.0,
  plain.1,
  h,
  not_backslash line.kind plain.0,
  plain.0,
)

parse_loop-rows :
    (p : Parser) (lines : List PatchLine)
    → p.in_hunk ≡ true
    → All IsPlain lines
    → parse_loop p (map row lines) ≡ ok (with_lines p lines)
unfolding parse_loop
parse_loop-rows p [] h a = rw append-nil
parse_loop-rows p (line ∷ lines) h a = rw (parse_line-row p line h a.0) (
    parse_loop-rows (with_lines p (line ∷ [])) lines h a.1
    ∙ rw (append_assoc p.current.lines (line ∷ []) lines))

-- The numbers of the header are of 32 bits.
abbrev pub IsInt32 : Printed → Type 0
IsInt32 p =
    (p.hunk.old_start < 2 ^ 32)
    × (p.hunk.old_count < 2 ^ 32)
    × (p.new_start < 2 ^ 32)
    × (p.new_count < 2 ^ 32)

-- What a hunk needs to be read back as the one numbered `n`.
abbrev pub IsPrintable : ℕ → Printed → Type 0
IsPrintable n p =
    (p.hunk.number ≡ n)
    × (p.hunk.pure_insert ≡ (p.hunk.old_count == 0))
    × (is_empty p.hunk.lines ≡ false)
    × All IsPlain p.hunk.lines
    × IsInt32 p

abbrev pub AllPrintable : ℕ → List Printed → Type 0
AllPrintable n [] = Unit
AllPrintable n (p ∷ ps) = IsPrintable n p × AllPrintable (n + 1) ps

-- The parser outside of a hunk, and inside of one.
abbrev pub between : Parser → List Hunk → Parser
between r hunks = record r { in_hunk = false; current = no_hunk; hunks = hunks }

abbrev inside : Parser → List Hunk → Hunk → Parser
inside r hunks h = record r { in_hunk = true; current = h; hunks = hunks }

starts_with-header_line : (a b c d : ℕ) → starts_with (header_line a b c d) (codes "@@") ≡ true
unfolding starts_with header_line
starts_with-header_line a b c d = refl

parse_line-header_line :
    (p r : Parser) (hunks : List Hunk) (x : Printed)
    → close_hunk p ≡ ok (between r hunks)
    → IsInt32 x
    → parse_line p (header_line x.hunk.old_start x.hunk.old_count x.new_start x.new_count)
      ≡ ok (
          inside r hunks (record {
            number = length hunks + 1;
            old_start = x.hunk.old_start;
            old_count = x.hunk.old_count;
            pure_insert = x.hunk.old_count == 0;
            lines = [];
          }))
unfolding parse_line open_hunk
parse_line-header_line p r hunks x h w = rw (
  starts_with-header_line x.hunk.old_start x.hunk.old_count x.new_start x.new_count,
  h,
  open_hunk,
  parse_hunk_header-header_line x.hunk.old_start x.hunk.old_count x.new_start x.new_count w.0 w.1
      w.2 w.3,
)

parse_loop-hunk_rows :
    (p r : Parser) (hunks : List Hunk) (x : Printed)
    → close_hunk p ≡ ok (between r hunks)
    → IsPrintable (length hunks + 1) x
    → parse_loop p (hunk_rows x) ≡ ok (inside r hunks x.hunk)
unfolding parse_loop hunk_rows
parse_loop-hunk_rows p r hunks x h (number, pure, some_lines, plain, small) =
    rw (parse_line-header_line p r hunks x h small) (
      parse_loop-rows
        (inside r hunks (record x.hunk {
          number = length hunks + 1;
          pure_insert = x.hunk.old_count == 0;
          lines = [];
        }))
        x.hunk.lines refl plain
      ∙ λ i.
          ok (inside r hunks (record x.hunk { number = sym number i; pure_insert = sym pure i })))

close_hunk-inside :
    (r : Parser) (hunks : List Hunk) (h : Hunk)
    → is_empty h.lines ≡ false
    → close_hunk (inside r hunks h) ≡ ok (between r (hunks ++ h ∷ []))
unfolding close_hunk
close_hunk-inside r hunks h e = rw e

-- The hunks are read back behind those that were read before.
pub parse_loop-all_rows :
    (p r : Parser) (hunks : List Hunk) (ps : List Printed)
    → close_hunk p ≡ ok (between r hunks)
    → AllPrintable (length hunks + 1) ps
    → (parse_loop p (all_rows ps) >>= close_hunk) ≡ ok (between r (hunks ++ hunks_of ps))
unfolding all_rows hunks_of parse_loop
parse_loop-all_rows p r hunks [] h a = rw (append-nil hunks) h
parse_loop-all_rows p r hunks (x ∷ ps) h a =
    rw (parse_loop-append p (hunk_rows x) (all_rows ps), parse_loop-hunk_rows p r hunks x h a.0)
      (parse_loop-all_rows (inside r hunks x.hunk) r (hunks ++ x.hunk ∷ []) ps
          (close_hunk-inside r hunks x.hunk a.0.2)
          (subst (λ n. AllPrintable n ps) (omega (arith, length-append hunks (x.hunk ∷ []))) a.1)
        ∙ rw (append_assoc hunks (x.hunk ∷ []) (hunks_of ps)))
