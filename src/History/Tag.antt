-- ===== src/History/Tag.antt =====
-- Theorems about `attribute` and `tool_response_open` (src/server/sessions/tool_history.cpp).
use mathlib.Core.List.{append_assoc}
use llama_onprem_server.Prelude.{
  ℕ, zero, suc, ◌+◌, Bool, true, false, ◌&&◌, ◌||◌, [], ◌∷◌, ◌++◌, none, some, ltb, ◌==◌, length,
  drop, take-append_length, drop_add, drop-append_length, Bytes, codes, starts_with, find_byte,
  find_text, ◌≡◌, refl, ap, ◌∙◌, arith, All, Bool-cases, inl, inr,
}
use llama_onprem_server.Jobs.TokenBuffer.{is_empty}
use llama_onprem_server.History.{
  open_mark, is_name_byte, all_name_bytes, safe_name, detail_byte, sanitize_loop, drop_spaces,
  pop_spaces, sanitize_detail, detail_chars, needle_of, attribute, tool_response_open,
}

-- No quote in the text.
abbrev pub NoQuote : Bytes → Type 0
NoQuote = All (λ c. (c == b'"') ≡ false)

abbrev pub NoEquals : Bytes → Type 0
NoEquals = All (λ c. (c == b'=') ≡ false)

and_false : {b : Bool} (a : Bool) → b ≡ false → a && b ≡ false
and_false false h = refl
and_false true h = h

-- A key and "=\"" do not begin in a text without '=' that a quote ends.
starts_with_key :
    (s r key q : Bytes)
    → NoEquals s
    → NoQuote key
    → starts_with (s ++ b'"' ∷ r) (key ++ b'=' ∷ q) ≡ false
unfolding starts_with
starts_with_key [] r [] q h k = refl
starts_with_key [] r (x ∷ key) q h k = ground arith
starts_with_key (c ∷ s) r [] q h k = rw h.0
starts_with_key (c ∷ s) r (x ∷ key) q h k = and_false _ (starts_with_key s r key q h.1 k.1)

-- So the search goes on behind it.
find_text_key :
    (s r key q : Bytes) (i : ℕ)
    → NoEquals s
    → NoQuote key
    → find_text (key ++ b'=' ∷ q) r ≡ some i
    → find_text (key ++ b'=' ∷ q) (s ++ b'"' ∷ r) ≡ some (length s + 1 + i)
unfolding find_text
find_text_key [] r key q i h k e = rw (starts_with_key [] r key q tt k, e) (ap some (omega arith))
find_text_key (c ∷ s) r key q i h k e =
    rw (starts_with_key (c ∷ s) r key q h k, find_text_key s r key q i h.1 k e)
      (ap some (omega arith))

find_text_no_key :
    (s r key q : Bytes)
    → NoEquals s
    → NoQuote key
    → find_text (key ++ b'=' ∷ q) r ≡ none
    → find_text (key ++ b'=' ∷ q) (s ++ b'"' ∷ r) ≡ none
unfolding find_text
find_text_no_key [] r key q h k e = rw (starts_with_key [] r key q tt k, e)
find_text_no_key (c ∷ s) r key q h k e =
    rw (starts_with_key (c ∷ s) r key q h k, find_text_no_key s r key q h.1 k e)

find_byte-NoQuote : (s r : Bytes) → NoQuote s → find_byte b'"' (s ++ b'"' ∷ r) ≡ some (length s)
unfolding find_byte
find_byte-NoQuote [] r h = refl
find_byte-NoQuote (c ∷ s) r h = rw (h.0, find_byte-NoQuote s r h.1) (ap some (omega arith))

-- A tag that has a value for a key at a known place.
attribute-at :
    (tag key value r : Bytes) (i : ℕ)
    → find_text (needle_of key) tag ≡ some i
    → drop (i + length (needle_of key)) tag ≡ value ++ b'"' ∷ r
    → NoQuote value
    → attribute tag key ≡ value
unfolding attribute
attribute-at tag key value r i f d h =
    rw (attribute, f, d, find_byte-NoQuote value r h, d) (take-append_length value (b'"' ∷ r))

-- A tag without the key.
attribute-missing :
    (tag key : Bytes) → find_text (needle_of key) tag ≡ none → attribute tag key ≡ []
unfolding attribute
attribute-missing tag key f = rw (attribute, f) refl

is_name_byte_quote : (c : ℕ) → is_name_byte c ≡ true → (c == b'"') ≡ false
unfolding is_name_byte
is_name_byte_quote c h = ground arith

is_name_byte_equals : (c : ℕ) → is_name_byte c ≡ true → (c == b'=') ≡ false
unfolding is_name_byte
is_name_byte_equals c h = ground arith

name_bytes : (name : Bytes) → all_name_bytes name ≡ true → NoQuote name × NoEquals name
unfolding all_name_bytes
name_bytes [] h = (tt, tt)
name_bytes (c ∷ name) h = elim (Bool-cases (is_name_byte c)) [
  | inl e ↦
      let (quotes, equals) = name_bytes name (rw e at h) in
      ((is_name_byte_quote c e, quotes), (is_name_byte_equals c e, equals))
  | inr e ↦ cc
]

safe_name-bytes : (name : Bytes) → safe_name name ≡ true → NoQuote name × NoEquals name
unfolding safe_name
safe_name-bytes name h = elim (Bool-cases (is_empty name || ltb 64 (length name))) [
  | inl e ↦ cc
  | inr e ↦ name_bytes name (rw e at h)
]

sanitize_loop-NoQuote : (room : ℕ) (text : Bytes) → NoQuote (sanitize_loop room text)
unfolding sanitize_loop detail_byte
sanitize_loop-NoQuote room [] = tt
sanitize_loop-NoQuote zero (c ∷ text) = tt
sanitize_loop-NoQuote (suc room) (c ∷ text) = elim (Bool-cases (c == b'\n' || c == b'\r')) [
  | inl e ↦ rw e tt
  | inr e ↦ rw e (ground arith, sanitize_loop-NoQuote room text)
]

pop_spaces-NoQuote : (text : Bytes) → NoQuote text → NoQuote (pop_spaces text)
unfolding pop_spaces
pop_spaces-NoQuote [] h = tt
pop_spaces-NoQuote (c ∷ text) h = elim (Bool-cases (c == b' ' && is_empty (pop_spaces text))) [
  | inl e ↦ rw e tt
  | inr e ↦ rw e (h.0, pop_spaces-NoQuote text h.1)
]

drop_spaces-NoQuote : (text : Bytes) → NoQuote text → NoQuote (drop_spaces text)
unfolding drop_spaces
drop_spaces-NoQuote [] h = tt
drop_spaces-NoQuote (c ∷ text) h = elim (Bool-cases (c == b' ')) [
  | inl e ↦ rw e (drop_spaces-NoQuote text h.1)
  | inr e ↦ rw e h
]

sanitize_detail-NoQuote : (text : Bytes) → NoQuote (sanitize_detail text)
unfolding sanitize_detail
sanitize_detail-NoQuote text =
    drop_spaces-NoQuote _ (pop_spaces-NoQuote _ (sanitize_loop-NoQuote detail_chars text))

-- The name that stands first in a tag.
name-at :
    (name rest : Bytes)
    → NoQuote name
    → attribute (open_mark ++ (codes " name=\"" ++ ((name ++ b'"' ∷ []) ++ rest))) (codes "name")
      ≡ name
unfolding find_text starts_with
name-at name rest h =
    attribute-at _ (codes "name") name rest 15 refl (append_assoc name (b'"' ∷ []) rest) h

-- A safe name is read back from the tag, whatever the detail is.
attribute-name :
    (name detail : Bytes)
    → safe_name name ≡ true
    → attribute (tool_response_open name detail) (codes "name") ≡ name
unfolding tool_response_open
attribute-name name detail h = rw h (name-at name _ (safe_name-bytes name h).0)

-- Behind the start of a named tag, the search for a key with another first byte goes on.
find_text-prefix :
    (r : Bytes) (i : ℕ)
    → find_text (needle_of (codes "detail")) r ≡ some i
    → find_text (needle_of (codes "detail")) (open_mark ++ (codes " name=\"" ++ r)) ≡ some (21 + i)
unfolding find_text starts_with
find_text-prefix r i e = rw e (ap some (omega arith))

find_text-prefix_none :
    (r : Bytes)
    → find_text (needle_of (codes "detail")) r ≡ none
    → find_text (needle_of (codes "detail")) (open_mark ++ (codes " name=\"" ++ r)) ≡ none
unfolding find_text starts_with
find_text-prefix_none r e = rw e

detail_NoQuote : NoQuote (codes "detail")
detail_NoQuote = (refl, (refl, (refl, (refl, (refl, (refl, tt))))))

drop-named :
    (name r : Bytes)
    → drop (21 + (length name + 1 + 1) + 8) (open_mark ++ (codes " name=\"" ++ (name ++ b'"' ∷ r)))
      ≡ drop 9 r
drop-named name r =
    let tag = open_mark ++ (codes " name=\"" ++ (name ++ b'"' ∷ r)) in
    let place : (21 + (length name + 1 + 1) + 8) ≡ 21 + (length name + 10) = omega arith in
    ap (λ k. drop k tag) place
    ∙ drop_add 21 (length name + 10) tag
    ∙ drop_add (length name) 10 (name ++ b'"' ∷ r)
    ∙ ap (drop 10) (drop-append_length name (b'"' ∷ r))

find_text-spaced :
    (clean : Bytes)
    → find_text
        (needle_of (codes "detail"))
        ((codes " detail=\"" ++ (clean ++ b'"' ∷ [])) ++ b'>' ∷ [])
      ≡ some 1
unfolding find_text starts_with
find_text-spaced clean = refl

find_text-closing : find_text (needle_of (codes "detail")) (b'>' ∷ []) ≡ none
unfolding find_text starts_with
find_text-closing = refl

-- The detail behind a name.
detail-at :
    (name clean : Bytes)
    → safe_name name ≡ true
    → NoQuote clean
    → attribute
        (open_mark
          ++ (codes " name=\""
              ++ ((name ++ b'"' ∷ [])
                  ++ ((codes " detail=\"" ++ (clean ++ b'"' ∷ [])) ++ b'>' ∷ []))))
        (codes "detail")
      ≡ clean
detail-at name clean h c =
    let r = (codes " detail=\"" ++ (clean ++ b'"' ∷ [])) ++ b'>' ∷ [] in
    rw (append_assoc name (b'"' ∷ []) r) (
      attribute-at _ (codes "detail") clean (b'>' ∷ []) (21 + (length name + 1 + 1))
        (find_text-prefix _ _ (
          find_text_key name r (codes "detail") (b'"' ∷ []) 1 (safe_name-bytes name h).1
            detail_NoQuote (find_text-spaced clean)))
        (drop-named name r ∙ append_assoc clean (b'"' ∷ []) (b'>' ∷ [])) c)

no_detail-at :
    (name : Bytes)
    → safe_name name ≡ true
    → attribute
        (open_mark ++ (codes " name=\"" ++ ((name ++ b'"' ∷ []) ++ b'>' ∷ [])))
        (codes "detail")
      ≡ []
no_detail-at name h = rw (append_assoc name (b'"' ∷ []) (b'>' ∷ [])) (
    attribute-missing _ (codes "detail") (
      find_text-prefix_none _ (
        find_text_no_key name (b'>' ∷ []) (codes "detail") (b'"' ∷ []) (safe_name-bytes name h).1
          detail_NoQuote find_text-closing)))

only_detail-at :
    (clean : Bytes)
    → NoQuote clean
    → attribute
        (open_mark ++ ((codes " detail=\"" ++ (clean ++ b'"' ∷ [])) ++ b'>' ∷ []))
        (codes "detail")
      ≡ clean
unfolding find_text starts_with
only_detail-at clean h =
    attribute-at _ (codes "detail") clean (b'>' ∷ []) 15 refl
      (append_assoc clean (b'"' ∷ []) (b'>' ∷ [])) h

plain_tag : attribute (codes "<tool_response>") (codes "detail") ≡ []
unfolding attribute find_text starts_with
plain_tag = refl

is_empty-eq : (xs : Bytes) → is_empty xs ≡ true → [] ≡ xs
is_empty-eq [] h = refl
is_empty-eq (x ∷ xs) h = cc

-- The detail is read back from the tag as `sanitize_detail` leaves it, whatever the name is.
pub attribute-detail :
    (name detail : Bytes)
    → attribute (tool_response_open name detail) (codes "detail") ≡ sanitize_detail detail
unfolding tool_response_open
attribute-detail name detail =
    let quotes = sanitize_detail-NoQuote detail in
    elim (Bool-cases (safe_name name)) [
      | inl n ↦ elim (Bool-cases (is_empty (sanitize_detail detail))) [
        | inl e ↦ rw (n, e) (no_detail-at name n ∙ is_empty-eq (sanitize_detail detail) e)
        | inr e ↦ rw (n, e) (detail-at name (sanitize_detail detail) n quotes)
      ]
      | inr n ↦ elim (Bool-cases (is_empty (sanitize_detail detail))) [
        | inl e ↦ rw (n, e) (plain_tag ∙ is_empty-eq (sanitize_detail detail) e)
        | inr e ↦ rw (n, e) (only_detail-at (sanitize_detail detail) quotes)
      ]
    ]
