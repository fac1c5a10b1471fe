-- ===== src/Agent/Tags/Inside.antt =====
-- Theorems about `extract_tag_body` (src/server/agent/response_parse.cpp).
use mathlib.Core.List.{append_assoc}
use llama_onprem_server.Prelude.{
  ℕ, zero, suc, ◌+◌, ◌-◌, ◌≤◌, true, false, [], ◌∷◌, ◌++◌, Option, none, some, ◌==◌, if◌then◌else◌,
  length, length-append, take, drop, take-append_length, drop_one, drop_add, drop-append_length,
  drop-append_both, Bytes, find_byte, ◌≡◌, refl, sym, ap, ◌∙◌, arith, All, Option-cases, inl, inr,
}
use llama_onprem_server.Agent.Tags.{
  trim_sv, ieq, tag_name, is_closing, depth_behind, Closing, extract_loop, extract_tag_body,
}

-- What stands between the brackets of a tag.
abbrev pub IsRaw : Bytes → Type 0
IsRaw = All (λ c. (c == b'>') ≡ false)

abbrev pub tag_of : Bytes → Bytes → Bytes
tag_of raw rest = b'<' ∷ raw ++ b'>' ∷ rest

-- A tag that closes a block, that opens one of the same name, and one that does neither.
pub record IsCloser (name raw : Bytes) : Type 0 where
  pub raw_ok : IsRaw raw
  pub closing : is_closing raw ≡ true
  pub same : ieq (trim_sv (drop 1 raw)) name ≡ true

pub record IsOpener (name raw : Bytes) : Type 0 where
  pub raw_ok : IsRaw raw
  pub opening : is_closing raw ≡ false
  pub same : ieq (tag_name raw) name ≡ true

pub data IsOther (name raw : Bytes) : Type 0 where
  open_other : is_closing raw ≡ false → ieq (tag_name raw) name ≡ false → IsOther name raw
  close_other : is_closing raw ≡ true → ieq (trim_sv (drop 1 raw)) name ≡ false → IsOther name raw

-- The body of a block: blocks of the same name nest in it.
pub data IsInside (name : Bytes) : Bytes → Type 0 where
  nil : IsInside name []
  byte :
      {c : ℕ} {text : Bytes} → (c == b'<') ≡ false → IsInside name text → IsInside name (c ∷ text)
  other :
      {raw text : Bytes}
      → IsRaw raw
      → IsOther name raw
      → IsInside name text
      → IsInside name (tag_of raw text)
  nested :
      {raw inner raw' text : Bytes}
      → IsOpener name raw
      → IsInside name inner
      → IsCloser name raw'
      → IsInside name text
      → IsInside name (tag_of raw (inner ++ tag_of raw' text))

find_byte-All :
    (b : ℕ) (s r : Bytes)
    → All (λ c. (c == b) ≡ false) s
    → find_byte b (s ++ b ∷ r) ≡ some (length s)
unfolding find_byte
find_byte-All b [] r h = ground arith
find_byte-All b (c ∷ s) r h = rw (h.0, find_byte-All b s r h.1) (ap some (omega arith))

pub tag_end :
    (raw rest : Bytes) → IsRaw raw → find_byte b'>' (tag_of raw rest) ≡ some (length raw + 1)
unfolding find_byte
tag_end raw rest h = rw (find_byte-All b'>' raw rest h) refl

pub tag_start : (raw rest : Bytes) → find_byte b'<' (tag_of raw rest) ≡ some 0
unfolding find_byte
tag_start raw rest = refl

pub behind_tag : (raw rest : Bytes) → drop (length raw + 1 + 1) (tag_of raw rest) ≡ rest
behind_tag raw rest =
    drop_one (length raw + 1 + 1) (length raw + 1) b'<' (raw ++ b'>' ∷ rest) (omega arith)
    ∙ drop-append_both raw (b'>' ∷ []) rest

pub between : (raw rest : Bytes) → take (length raw + 1 - 1) (raw ++ b'>' ∷ rest) ≡ raw
between raw rest =
    let place : length raw + 1 - 1 ≡ length raw = omega arith in
    ap (λ n. take n (raw ++ b'>' ∷ rest)) place ∙ take-append_length raw (b'>' ∷ rest)

module _ (fuel : ℕ) (name : Bytes) (depth : ℕ) where
  -- What a round does from '<' on.
  abbrev at_tag : ℕ → Bytes → Option Closing
  at_tag place tag = elim (find_byte b'>' tag) [
    | none ↦ none
    | some gt ↦
        let next = depth_behind name depth (take (gt - 1) (drop 1 tag)) in
        let more = extract_loop fuel name next (place + (gt + 1)) (drop (gt + 1) tag) in
        if next == 0
        then some (record { body_end = place; after_close = place + (gt + 1) })
        else more
  ]

  round_at :
      (i c lt : ℕ) (cs : Bytes)
      → find_byte b'<' (c ∷ cs) ≡ some lt
      → extract_loop (suc fuel) name depth i (c ∷ cs) ≡ at_tag (i + lt) (drop lt (c ∷ cs))
  unfolding extract_loop
  round_at i c lt cs f = rw (extract_loop, f) refl

  round_none :
      (i c : ℕ) (cs : Bytes)
      → find_byte b'<' (c ∷ cs) ≡ none
      → extract_loop (suc fuel) name depth i (c ∷ cs) ≡ none
  unfolding extract_loop
  round_none i c cs f = rw (extract_loop, f) refl

  at_tag-tag_of :
      (place : ℕ) (raw rest : Bytes)
      → IsRaw raw
      → at_tag place (tag_of raw rest) ≡ (
          if depth_behind name depth raw == 0
          then some (record { body_end = place; after_close = place + (length raw + 1 + 1) })
          else extract_loop fuel name
              (depth_behind name depth raw)
              (place + (length raw + 1 + 1))
              rest)
  unfolding find_byte depth_behind
  at_tag-tag_of place raw rest h =
      rw (tag_end raw rest h, between raw rest, behind_tag raw rest) refl

pub find_byte-other :
    (b c : ℕ) (text : Bytes) (i : ℕ)
    → (c == b) ≡ false
    → find_byte b text ≡ some i
    → find_byte b (c ∷ text) ≡ some (i + 1)
unfolding find_byte
find_byte-other b c text i h f = rw (h, f) refl

pub find_byte-missing :
    (b c : ℕ) (text : Bytes)
    → (c == b) ≡ false
    → find_byte b text ≡ none
    → find_byte b (c ∷ text) ≡ none
unfolding find_byte
find_byte-missing b c text h f = rw (h, f) refl

pub no_bytes : find_byte b'<' [] ≡ none
unfolding find_byte
no_bytes = refl

-- A byte that begins no tag is passed over.
extract_loop-byte :
    (fuel : ℕ) (name : Bytes) (depth i c : ℕ) (text : Bytes)
    → (c == b'<') ≡ false
    → extract_loop (suc fuel) name depth i (c ∷ text)
      ≡ extract_loop (suc fuel) name depth (i + 1) text
unfolding extract_loop
extract_loop-byte fuel name depth i c [] h =
    round_none fuel name depth i c [] (find_byte-missing b'<' c [] h no_bytes)
extract_loop-byte fuel name depth i c (d ∷ text) h =
    elim (Option-cases (find_byte b'<' (d ∷ text))) [
      | inl f ↦
          round_none fuel name depth i c (d ∷ text) (find_byte-missing b'<' c (d ∷ text) h f)
          ∙ sym (round_none fuel name depth (i + 1) d text f)
      | inr (lt, f) ↦
          let place : i + (lt + 1) ≡ i + 1 + lt = omega arith in
          round_at fuel name depth i c (lt + 1) (d ∷ text)
            (find_byte-other b'<' c (d ∷ text) lt h f)
          ∙ ap (λ n. at_tag fuel name depth n (drop (lt + 1) (c ∷ d ∷ text))) place
          ∙ ap (at_tag fuel name depth (i + 1 + lt)) (drop_one (lt + 1) lt c (d ∷ text) refl)
          ∙ sym (round_at fuel name depth (i + 1) d lt text f)
    ]

depth-IsOther : (name raw : Bytes) (d : ℕ) → IsOther name raw → depth_behind name d raw ≡ d
unfolding depth_behind
depth-IsOther name raw d (open_other h k) = rw (h, k) refl
depth-IsOther name raw d (close_other h k) = rw (h, k) refl

depth-IsOpener : (name raw : Bytes) (d : ℕ) → IsOpener name raw → depth_behind name d raw ≡ d + 1
unfolding depth_behind
depth-IsOpener name raw d o = rw (o.opening, o.same) refl

depth-IsCloser : (name raw : Bytes) (d : ℕ) → IsCloser name raw → depth_behind name d raw ≡ d - 1
unfolding depth_behind
depth-IsCloser name raw d c = rw (c.closing, c.same) refl

-- A round at a tag that does not end the block.
round_on :
    (fuel : ℕ) (name : Bytes) (d e i : ℕ) (raw rest : Bytes)
    → IsRaw raw
    → depth_behind name d raw ≡ e + 1
    → extract_loop (suc fuel) name d i (tag_of raw rest)
      ≡ extract_loop fuel name (e + 1) (i + (length raw + 2)) rest
round_on fuel name d e i raw rest h q =
    let test : (e + 1 == 0) ≡ false = ground arith in
    let place : i + 0 + (length raw + 1 + 1) ≡ i + (length raw + 2) = omega arith in
    round_at fuel name d i b'<' 0 (raw ++ b'>' ∷ rest) (tag_start raw rest)
    ∙ at_tag-tag_of fuel name d (i + 0) raw rest h
    ∙ (rw (q, test) (ap (λ n. extract_loop fuel name (e + 1) n rest) place))

-- A round at the tag that ends the block.
round_end :
    (fuel : ℕ) (name : Bytes) (i : ℕ) (raw rest : Bytes)
    → IsCloser name raw
    → extract_loop (suc fuel) name 1 i (tag_of raw rest)
      ≡ some (record { body_end = i + 0; after_close = i + 0 + (length raw + 1 + 1) })
round_end fuel name i raw rest c =
    round_at fuel name 1 i b'<' 0 (raw ++ b'>' ∷ rest) (tag_start raw rest)
    ∙ at_tag-tag_of fuel name 1 (i + 0) raw rest c.raw_ok
    ∙ (rw (depth-IsCloser name raw 1 c) refl)

pub length-tag_of : (raw rest : Bytes) → length (tag_of raw rest) ≡ length raw + 2 + length rest
length-tag_of raw rest = omega (arith, length-append raw (b'>' ∷ rest))

tag_of-append : (raw text rest : Bytes) → tag_of raw text ++ rest ≡ tag_of raw (text ++ rest)
tag_of-append raw text rest = ap (λ t. b'<' ∷ t) (append_assoc raw (b'>' ∷ text) rest)

-- What the loop finds at a depth, wherever `text` stands and with enough rounds.
abbrev Finds : Bytes → ℕ → Bytes → (ℕ → Option Closing) → Type 0
Finds name depth text result =
    (fuel i : ℕ) → length text ≤ fuel → extract_loop fuel name depth i text ≡ result i

same-Finds :
    (name : Bytes) (d : ℕ) {text text' : Bytes} {r r' : ℕ → Option Closing}
    → text ≡ text'
    → ((i : ℕ) → r i ≡ r' i)
    → Finds name d text r
    → Finds name d text' r'
same-Finds name d {text} {text'} q e k fuel i l =
    ap (extract_loop fuel name d i) (sym q) ∙ k fuel i (omega (arith, ap length q)) ∙ e i

byte-Finds :
    (name : Bytes) (d c : ℕ) (text : Bytes) (result : ℕ → Option Closing)
    → (c == b'<') ≡ false
    → Finds name d text result
    → Finds name d (c ∷ text) (λ i. result (i + 1))
byte-Finds name d c text result h k zero i l = absurd (omega arith)
byte-Finds name d c text result h k (suc fuel) i l =
    extract_loop-byte fuel name d i c text h ∙ k (suc fuel) (i + 1) (omega arith)

tag_of-Finds :
    (name : Bytes) (d e : ℕ) (raw rest : Bytes) (result : ℕ → Option Closing)
    → IsRaw raw
    → depth_behind name d raw ≡ e + 1
    → Finds name (e + 1) rest result
    → Finds name d (tag_of raw rest) (λ i. result (i + (length raw + 2)))
tag_of-Finds name d e raw rest result h q k zero i l = absurd (omega arith)
tag_of-Finds name d e raw rest result h q k (suc fuel) i l =
    round_on fuel name d e i raw rest h q
    ∙ k fuel (i + (length raw + 2)) (omega (arith, length-tag_of raw rest))

-- It passes over the inside of a block.
IsInside-Finds :
    (name : Bytes) {body : Bytes} (d : ℕ) (rest : Bytes) (result : ℕ → Option Closing)
    → IsInside name body
    → Finds name (d + 1) rest result
    → Finds name (d + 1) (body ++ rest) (λ i. result (i + length body))
IsInside-Finds name d rest result nil k =
    same-Finds name (d + 1) refl (λ i. ap result (omega arith)) k
IsInside-Finds name d rest result (byte {c} {text} h t) k =
    same-Finds name (d + 1) refl (λ i. ap result (omega arith))
      (byte-Finds name (d + 1) c (text ++ rest) _ h (IsInside-Finds name d rest result t k))
IsInside-Finds name d rest result (other {raw} {text} h o t) k =
    same-Finds name (d + 1) (sym (tag_of-append raw text rest))
      (λ i. ap result (omega (arith, length-tag_of raw text)))
      (tag_of-Finds name (d + 1) d raw (text ++ rest) _ h (depth-IsOther name raw (d + 1) o)
        (IsInside-Finds name d rest result t k))
IsInside-Finds name d rest result (nested {raw} {inner} {raw'} {text} o n c t) k =
    let deeper : d + 1 + 1 - 1 ≡ d + 1 = omega arith in
    same-Finds name (d + 1)
      (ap (λ t'. tag_of raw (inner ++ t')) (sym (tag_of-append raw' text rest))
        ∙ ap (tag_of raw) (sym (append_assoc inner (tag_of raw' text) rest))
        ∙ sym (tag_of-append raw (inner ++ tag_of raw' text) rest))
      (λ i. ap result (
        omega (
          arith,
          length-tag_of raw (inner ++ tag_of raw' text),
          length-append inner (tag_of raw' text),
          length-tag_of raw' text,
        )))
      (tag_of-Finds name (d + 1) (d + 1) raw (inner ++ tag_of raw' (text ++ rest)) _ o.raw_ok
        (depth-IsOpener name raw (d + 1) o)
        (IsInside-Finds name (d + 1) (tag_of raw' (text ++ rest)) _ n (
          tag_of-Finds name (d + 1 + 1) d raw' (text ++ rest) _ c.raw_ok
            (depth-IsCloser name raw' (d + 1 + 1) c ∙ deeper)
            (IsInside-Finds name d rest result t k))))

closer-Finds :
    (name raw rest : Bytes)
    → IsCloser name raw
    → Finds name
        (0 + 1)
        (tag_of raw rest)
        (λ i. some (record { body_end = i; after_close = i + (length raw + 2) }))
closer-Finds name raw rest c zero i l = absurd (omega arith)
closer-Finds name raw rest c (suc fuel) i l =
    let place : i + 0 ≡ i = omega arith in
    let after : i + 0 + (length raw + 1 + 1) ≡ i + (length raw + 2) = omega arith in
    round_end fuel name i raw rest c
    ∙ (λ j. some (record { body_end = place j; after_close = after j }))

-- The body of a block is found up to the closing tag that belongs to it, whatever stands behind that:
-- tags of other names, blocks of the same name, and any case, spaces and attributes in the tags.
pub extract_tag_body-IsInside :
    (name : Bytes) {body : Bytes} (raw rest : Bytes)
    → IsInside name body
    → IsCloser name raw
    → extract_tag_body (body ++ tag_of raw rest) name
      ≡ record { body = body; after = rest; closed = true }
unfolding extract_tag_body
extract_tag_body-IsInside name {body} raw rest h c =
    let found =
      IsInside-Finds name 0 (tag_of raw rest) _ h (closer-Finds name raw rest c)
        (length (body ++ tag_of raw rest)) 0 (omega arith) in
    let place : 0 + length body ≡ length body = omega arith in
    let end : 0 + length body + (length raw + 2) ≡ length body + (length raw + 1 + 1) =
      omega arith in
    let text = body ++ tag_of raw rest in
    let first = ap (λ n. take n text) place ∙ take-append_length body (tag_of raw rest) in
    let last =
      ap (λ n. drop n text) end
      ∙ drop_add (length body) (length raw + 1 + 1) text
      ∙ ap (drop (length raw + 1 + 1)) (drop-append_length body (tag_of raw rest))
      ∙ behind_tag raw rest in
    rw (extract_tag_body, found) (λ j. record { body = first j; after = last j; closed = true })
