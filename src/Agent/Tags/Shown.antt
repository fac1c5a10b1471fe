-- ===== src/Agent/Tags/Shown.antt =====
-- Theorems about `strip_special_blocks` (src/server/agent/response_parse.cpp).
use mathlib.Core.List.{append_assoc, append-nil}
use llama_onprem_server.Prelude.{
  ℕ, zero, suc, ◌+◌, ◌-◌, ◌≤◌, true, false, not, List, [], ◌∷◌, ◌++◌, none, some, ◌==◌,
  if◌then◌else◌, length, length-append, take, drop, take-append_length, drop_one, Bytes, find_byte,
  ◌≡◌, refl, sym, ap, ◌∙◌, arith, All, Option-cases, inl, inr,
}
use llama_onprem_server.Agent.Tags.{
  trim_sv, extract_tag_body, is_special, either_name, stands_alone, strip_loop,
  strip_special_blocks,
}
use llama_onprem_server.Agent.Tags.Inside.{
  IsRaw, tag_of, IsInside, IsCloser, extract_tag_body-IsInside, tag_start, tag_end, between,
  behind_tag, find_byte-other, find_byte-missing, no_bytes, length-tag_of,
}

-- A byte, a tag that is shown, a special tag that stands alone, and a special block.
pub data Segment : Type 0 where
  byte : ℕ → Segment
  shown_tag : Bytes → Segment
  lone_tag : Bytes → Segment
  block : Bytes → Bytes → Bytes → Segment

abbrev pub IsSegment : Segment → Type 0
IsSegment (byte c) = (c == b'<') ≡ false
IsSegment (shown_tag raw) = IsRaw raw × (is_special (either_name raw) ≡ false)
IsSegment (lone_tag raw) =
    IsRaw raw × (is_special (either_name raw) ≡ true) × (stands_alone raw ≡ true)
IsSegment (block raw body raw') =
    IsRaw raw
    × (is_special (either_name raw) ≡ true)
    × (stands_alone raw ≡ false)
    × IsInside (either_name raw) body
    × IsCloser (either_name raw) raw'

abbrev pub text_of : List Segment → Bytes
text_of [] = []
text_of (byte c ∷ segments) = c ∷ text_of segments
text_of (shown_tag raw ∷ segments) = tag_of raw (text_of segments)
text_of (lone_tag raw ∷ segments) = tag_of raw (text_of segments)
text_of (block raw body raw' ∷ segments) = tag_of raw (body ++ tag_of raw' (text_of segments))

abbrev pub shown : List Segment → Bytes
shown [] = []
shown (byte c ∷ segments) = c ∷ shown segments
shown (shown_tag raw ∷ segments) = tag_of raw (shown segments)
shown (lone_tag raw ∷ segments) = shown segments
shown (block raw body raw' ∷ segments) = shown segments

module _ (fuel : ℕ) where
  -- What a round does from '<' on.
  abbrev at_mark : Bytes → Bytes → Bytes
  at_mark out tag = elim (find_byte b'>' tag) [
    | none ↦ out ++ tag
    | some gt ↦
        let raw = take (gt - 1) (drop 1 tag) in
        let behind = drop (gt + 1) tag in
        let shown = strip_loop fuel (out ++ take (gt + 1) tag) behind in
        let alone = strip_loop fuel out behind in
        let block = strip_loop fuel out (extract_tag_body behind (either_name raw)).after in
        if not (is_special (either_name raw))
        then shown
        else if stands_alone raw
        then alone
        else block
  ]

  round_at :
      (out : Bytes) (c lt : ℕ) (cs : Bytes)
      → find_byte b'<' (c ∷ cs) ≡ some lt
      → strip_loop (suc fuel) out (c ∷ cs) ≡ at_mark (out ++ take lt (c ∷ cs)) (drop lt (c ∷ cs))
  unfolding strip_loop
  round_at out c lt cs f = rw (strip_loop, f) refl

  round_none :
      (out : Bytes) (c : ℕ) (cs : Bytes)
      → find_byte b'<' (c ∷ cs) ≡ none
      → strip_loop (suc fuel) out (c ∷ cs) ≡ out ++ (c ∷ cs)
  unfolding strip_loop
  round_none out c cs f = rw (strip_loop, f) refl

  at_mark-tag_of :
      (out raw rest : Bytes)
      → IsRaw raw
      → at_mark out (tag_of raw rest) ≡ (
          if not (is_special (either_name raw))
          then strip_loop fuel (out ++ take (length raw + 1 + 1) (tag_of raw rest)) rest
          else if stands_alone raw
          then strip_loop fuel out rest
          else strip_loop fuel out (extract_tag_body rest (either_name raw)).after)
  unfolding find_byte
  at_mark-tag_of out raw rest h =
      rw (tag_end raw rest h, between raw rest, behind_tag raw rest) refl

take_one : (n c : ℕ) (text : Bytes) → take (n + 1) (c ∷ text) ≡ c ∷ take n text
take_one n c text = let place : n + 1 ≡ suc n = omega arith in ap (λ m. take m (c ∷ text)) place

take-tag_of : (raw rest : Bytes) → take (length raw + 1 + 1) (tag_of raw rest) ≡ tag_of raw []
take-tag_of raw rest =
    let more = b'>' ∷ rest in
    take_one (length raw + 1) b'<' (raw ++ more)
    ∙ ap (λ n. b'<' ∷ take n (raw ++ more)) (sym (length-append raw (b'>' ∷ [])))
    ∙ ap (λ t. b'<' ∷ take (length (raw ++ b'>' ∷ [])) t) (sym (append_assoc raw (b'>' ∷ []) rest))
    ∙ ap (λ t. b'<' ∷ t) (take-append_length (raw ++ b'>' ∷ []) rest)

ended : (fuel : ℕ) (out : Bytes) → strip_loop fuel out [] ≡ out
unfolding strip_loop
ended zero out = refl
ended (suc fuel) out = refl

-- A byte that begins no tag is shown.
strip_loop-byte :
    (fuel : ℕ) (out : Bytes) (c : ℕ) (text : Bytes)
    → (c == b'<') ≡ false
    → strip_loop (suc fuel) out (c ∷ text) ≡ strip_loop (suc fuel) (out ++ c ∷ []) text
strip_loop-byte fuel out c [] h =
    round_none fuel out c [] (find_byte-missing b'<' c [] h no_bytes)
    ∙ sym (ended (suc fuel) (out ++ c ∷ []))
strip_loop-byte fuel out c (d ∷ text) h = elim (Option-cases (find_byte b'<' (d ∷ text))) [
  | inl f ↦
      round_none fuel out c (d ∷ text) (find_byte-missing b'<' c (d ∷ text) h f)
      ∙ sym (append_assoc out (c ∷ []) (d ∷ text))
      ∙ sym (round_none fuel (out ++ c ∷ []) d text f)
  | inr (lt, f) ↦
      round_at fuel out c (lt + 1) (d ∷ text) (find_byte-other b'<' c (d ∷ text) lt h f)
      ∙ ap (λ t. at_mark fuel (out ++ t) (drop (lt + 1) (c ∷ d ∷ text))) (take_one lt c (d ∷ text))
      ∙ ap (at_mark fuel (out ++ c ∷ take lt (d ∷ text))) (drop_one (lt + 1) lt c (d ∷ text) refl)
      ∙ ap (λ t. at_mark fuel t (drop lt (d ∷ text)))
          (sym (append_assoc out (c ∷ []) (take lt (d ∷ text))))
      ∙ sym (round_at fuel (out ++ c ∷ []) d lt text f)
]

-- A round at a tag.
round_tag :
    (fuel : ℕ) (out raw rest : Bytes)
    → IsRaw raw
    → strip_loop (suc fuel) out (tag_of raw rest) ≡ at_mark fuel out (tag_of raw rest)
round_tag fuel out raw rest h =
    round_at fuel out b'<' 0 (raw ++ b'>' ∷ rest) (tag_start raw rest)
    ∙ ap (λ t. at_mark fuel t (tag_of raw rest)) (append-nil out)

round-shown_tag :
    (fuel : ℕ) (out raw rest : Bytes)
    → IsSegment (shown_tag raw)
    → strip_loop (suc fuel) out (tag_of raw rest) ≡ strip_loop fuel (out ++ tag_of raw []) rest
round-shown_tag fuel out raw rest h =
    round_tag fuel out raw rest h.0
    ∙ at_mark-tag_of fuel out raw rest h.0
    ∙ rw h.1 (ap (λ t. strip_loop fuel (out ++ t) rest) (take-tag_of raw rest))

round-lone_tag :
    (fuel : ℕ) (out raw rest : Bytes)
    → IsSegment (lone_tag raw)
    → strip_loop (suc fuel) out (tag_of raw rest) ≡ strip_loop fuel out rest
round-lone_tag fuel out raw rest h =
    round_tag fuel out raw rest h.0 ∙ at_mark-tag_of fuel out raw rest h.0 ∙ rw (h.1, h.2) refl

round-block :
    (fuel : ℕ) (out raw body raw' rest : Bytes)
    → IsSegment (block raw body raw')
    → strip_loop (suc fuel) out (tag_of raw (body ++ tag_of raw' rest)) ≡ strip_loop fuel out rest
round-block fuel out raw body raw' rest (h, s, a, inside, closer) =
    round_tag fuel out raw (body ++ tag_of raw' rest) h
    ∙ at_mark-tag_of fuel out raw (body ++ tag_of raw' rest) h
    ∙ rw (s, a)
        (ap (λ b. strip_loop fuel out b.after)
          (extract_tag_body-IsInside (either_name raw) raw' rest inside closer))

strip_loop-text_of :
    (segments : List Segment) (fuel : ℕ) (out : Bytes)
    → All IsSegment segments
    → length (text_of segments) ≤ fuel
    → strip_loop fuel out (text_of segments) ≡ out ++ shown segments
strip_loop-text_of [] fuel out h l = ended fuel out ∙ sym (append-nil out)
strip_loop-text_of (byte c ∷ segments) zero out h l = absurd (omega arith)
strip_loop-text_of (byte c ∷ segments) (suc fuel) out h l =
    strip_loop-byte fuel out c (text_of segments) h.0
    ∙ strip_loop-text_of segments (suc fuel) (out ++ c ∷ []) h.1 (omega arith)
    ∙ append_assoc out (c ∷ []) (shown segments)
strip_loop-text_of (shown_tag raw ∷ segments) zero out h l = absurd (omega arith)
strip_loop-text_of (shown_tag raw ∷ segments) (suc fuel) out h l =
    round-shown_tag fuel out raw (text_of segments) h.0
    ∙ strip_loop-text_of segments fuel (out ++ tag_of raw []) h.1
        (omega (arith, length-tag_of raw (text_of segments)))
    ∙ append_assoc out (tag_of raw []) (shown segments)
    ∙ ap (λ t. out ++ b'<' ∷ t) (append_assoc raw (b'>' ∷ []) (shown segments))
strip_loop-text_of (lone_tag raw ∷ segments) zero out h l = absurd (omega arith)
strip_loop-text_of (lone_tag raw ∷ segments) (suc fuel) out h l =
    round-lone_tag fuel out raw (text_of segments) h.0
    ∙ strip_loop-text_of segments fuel out h.1 (omega (arith, length-tag_of raw (text_of segments)))
strip_loop-text_of (block raw body raw' ∷ segments) zero out h l = absurd (omega arith)
strip_loop-text_of (block raw body raw' ∷ segments) (suc fuel) out h l =
    let rest = text_of segments in
    round-block fuel out raw body raw' rest h.0
    ∙ strip_loop-text_of segments fuel out h.1 (
        omega (
          arith,
          length-tag_of raw (body ++ tag_of raw' rest),
          length-append body (tag_of raw' rest),
          length-tag_of raw' rest,
        ))

-- Of an answer of shown bytes, other tags, special tags and closed special blocks, all is left but
-- the special tags and the blocks with what is in them, blocks of the same name included; then the
-- spaces and line breaks at both ends go.
pub strip_special_blocks-shown :
    (segments : List Segment)
    → All IsSegment segments
    → strip_special_blocks (text_of segments) ≡ trim_sv (shown segments)
unfolding strip_special_blocks
strip_special_blocks-shown segments h =
    ap trim_sv (strip_loop-text_of segments (length (text_of segments)) [] h (omega arith))
