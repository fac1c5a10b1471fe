-- ===== src/History/Record.antt =====
-- Theorems about the line that a long result is cut down to
-- (src/server/sessions/tool_history.cpp).
use mathlib.Core.List.{append_assoc}
use llama_onprem_server.Prelude.{
  ℕ, zero, suc, ◌+◌, true, false, not, ◌||◌, [], ◌∷◌, ◌++◌, none, some, ltb, ◌==◌, if◌then◌else◌,
  length, take, Bytes, codes, starts_with, starts_with-append, find_byte, has_byte, find_text, ◌≡◌,
  refl, sym, ap, ◌∙◌, arith, All, All-append, Bool-cases, inl, inr, ◌⊎◌, Option-cases, ◌%◌, ◌/◌,
}
use llama_onprem_server.Prelude.Decimal.{digits_of, to_string}
use llama_onprem_server.Jobs.TokenBuffer.{is_empty}
use llama_onprem_server.History.Find.{starts_with-parts}
use llama_onprem_server.History.{
  contains_text, first_line, line_window, label_of, already_record, subject_of, record_line,
  line_count,
}

-- No line break in the text.
abbrev NotBreak : ℕ → Type 0
NotBreak c = (c == b'\n') ≡ false

abbrev pub OneLine : Bytes → Type 0
OneLine = All NotBreak

has_byte-OneLine : (s : Bytes) → OneLine s → has_byte b'\n' s ≡ false
unfolding has_byte
has_byte-OneLine [] h = refl
has_byte-OneLine (c ∷ s) h = rw (h.0, has_byte-OneLine s h.1) refl

contains_text-missing :
    (needle text : Bytes) → find_text needle text ≡ none → contains_text needle text ≡ false
unfolding contains_text
contains_text-missing needle text f = rw (contains_text, f) refl

contains_text-cons :
    (c : ℕ) (needle text : Bytes)
    → contains_text needle text ≡ true
    → contains_text needle (c ∷ text) ≡ true
unfolding contains_text find_text
contains_text-cons c needle text h = elim (Bool-cases (starts_with (c ∷ text) needle)) [
  | inl e ↦ rw (contains_text, e) refl
  | inr e ↦ elim (Option-cases (find_text needle text)) [
    | inl f ↦ let missing = contains_text-missing needle text f in cc
    | inr (i, f) ↦ rw (contains_text, e, f) refl
  ]
]

contains_text-start :
    (needle text : Bytes) → starts_with text needle ≡ true → contains_text needle text ≡ true
unfolding contains_text find_text
contains_text-start needle [] h = rw (contains_text, h) refl
contains_text-start needle (c ∷ text) h = rw (contains_text, h) refl

-- A text is found where it stands.
contains_text-append :
    (front needle back : Bytes) → contains_text needle (front ++ (needle ++ back)) ≡ true
contains_text-append [] needle back =
    contains_text-start needle (needle ++ back) (starts_with-append needle back)
contains_text-append (c ∷ front) needle back =
    contains_text-cons c needle _ (contains_text-append front needle back)

-- The bytes in front of the first line break.
abbrev line_front : Bytes → Bytes
line_front [] = []
line_front (c ∷ body) = let rest = line_front body in if c == b'\n' then [] else c ∷ rest

first_line-whole : (body : Bytes) → find_byte b'\n' body ≡ none → first_line body ≡ body
unfolding first_line
first_line-whole body f = rw (first_line, f) refl

first_line-cut :
    (body : Bytes) (i : ℕ) → find_byte b'\n' body ≡ some i → first_line body ≡ take i body
unfolding first_line
first_line-cut body i f = rw (first_line, f) refl

first_line-front : (body : Bytes) → first_line body ≡ line_front body
unfolding first_line find_byte
first_line-front [] = refl
first_line-front (c ∷ body) = elim (Bool-cases (c == b'\n')) [
  | inl e ↦ rw (first_line, e) refl
  | inr e ↦ elim (Option-cases (find_byte b'\n' body)) [
    | inl f ↦
        rw (first_line, e, f)
          (ap (λ t. c ∷ t) (sym (first_line-whole body f) ∙ first_line-front body))
    | inr (i, f) ↦
        let next : i + 1 ≡ suc i = omega arith in
        rw (first_line, e, f)
          (ap (λ n. take n (c ∷ body)) next
            ∙ ap (λ t. c ∷ t) (sym (first_line-cut body i f) ∙ first_line-front body))
  ]
]

line_front-OneLine : (body : Bytes) → OneLine (line_front body)
line_front-OneLine [] = tt
line_front-OneLine (c ∷ body) = elim (Bool-cases (c == b'\n')) [
  | inl e ↦ rw e tt
  | inr e ↦ rw e (e, line_front-OneLine body)
]

first_line-OneLine : (body : Bytes) → OneLine (first_line body)
first_line-OneLine body = rw (first_line-front body) (line_front-OneLine body)

-- The window is empty, or a line that starts with "lines ".
line_window-cases :
    (body : Bytes)
    → (is_empty (line_window body) ≡ true)
      ⊎ (OneLine (line_window body) × (starts_with (line_window body) (codes "lines ") ≡ true))
unfolding line_window
line_window-cases body =
    let first = first_line body in
    elim (Bool-cases (
      ltb 80 (length first)
      || (not (starts_with first (codes "lines ")) || not (contains_text (codes " of ") first)))) [
        | inl e ↦ inl (rw e refl)
        | inr e ↦ inr (rw e (first_line-OneLine body, ground arith))
      ]

digits_of-OneLine : (fuel n : ℕ) (text : Bytes) → OneLine text → OneLine (digits_of fuel n text)
unfolding digits_of
digits_of-OneLine zero n text h = h
digits_of-OneLine (suc fuel) n text h =
    let d : (b'0' + n % 10 == b'\n') ≡ false = ground arith in
    elim (Bool-cases (n / 10 == 0)) [
      | inl e ↦ rw e (d, h)
      | inr e ↦ rw e (digits_of-OneLine fuel (n / 10) _ (d, h))
    ]

to_string-OneLine : (n : ℕ) → OneLine (to_string n)
unfolding to_string
to_string-OneLine n = digits_of-OneLine (n + 1) n [] tt

subject_of-OneLine :
    (name detail : Bytes) → OneLine name → OneLine detail → OneLine (subject_of name detail)
subject_of-OneLine [] [] h k = (refl, (refl, (refl, (refl, tt))))
subject_of-OneLine [] (d ∷ detail) h k = (refl, (refl, (refl, (refl, (refl, k)))))
subject_of-OneLine (c ∷ name) [] h k = h
subject_of-OneLine (c ∷ name) (d ∷ detail) h k =
    All-append NotBreak (c ∷ name) (b' ' ∷ d ∷ detail) h (refl, k)

-- What a record is behind its label.
subject_of-label :
    (name detail r : Bytes) → starts_with (subject_of name detail ++ r) (label_of name) ≡ true
subject_of-label name [] r = starts_with-append (label_of name) r
subject_of-label name (d ∷ detail) r =
    rw (append_assoc (label_of name) (b' ' ∷ d ∷ detail) r) (starts_with-append (label_of name) _)

-- A line that starts with the label and names lines is a record.
already_record-line :
    (body name : Bytes)
    → OneLine body
    → starts_with body (label_of name) ≡ true
    → contains_text (codes ", lines ") body || contains_text (codes " lines") body ≡ true
    → already_record body name ≡ true
unfolding already_record
already_record-line body name h k c = let line = has_byte-OneLine body h in ground arith

starts_with-filled : (w : Bytes) → starts_with w (codes "lines ") ≡ true → is_empty w ≡ false
unfolding starts_with
starts_with-filled [] s = cc
starts_with-filled (c ∷ w) s = refl

window-named :
    (subject w : Bytes)
    → starts_with w (codes "lines ") ≡ true
    → contains_text (codes ", lines ") (subject ++ (codes ", " ++ w)) ≡ true
window-named subject w s =
    ap (λ v. contains_text (codes ", lines ") (subject ++ (codes ", " ++ v)))
      (starts_with-parts w (codes "lines ") s)
    ∙ contains_text-append subject (codes ", lines ") _

count-named :
    (subject digits : Bytes)
    → contains_text (codes " lines") (subject ++ (codes ", " ++ (digits ++ codes " lines"))) ≡ true
count-named subject digits =
    ap (contains_text (codes " lines")) (
      sym (append_assoc subject (codes ", ") _)
      ∙ sym (append_assoc (subject ++ codes ", ") digits (codes " lines")))
    ∙ contains_text-append ((subject ++ codes ", ") ++ digits) (codes " lines") []

count-OneLine : (n : ℕ) → OneLine (codes ", " ++ (to_string n ++ codes " lines"))
count-OneLine n = (
  refl,
  (
    refl,
    All-append NotBreak (to_string n) (codes " lines") (to_string-OneLine n)
        (refl, (refl, (refl, (refl, (refl, (refl, tt)))))),
  ),
)

-- What `record_line` writes is a record for `already_record`, for a name and a detail without a line
-- break, whatever the text is that it stands for.
pub already_record-record_line :
    (name detail body : Bytes)
    → OneLine name
    → OneLine detail
    → already_record (record_line name detail body) name ≡ true
unfolding record_line
already_record-record_line name detail body h k =
    let subject = subject_of-OneLine name detail h k in
    elim (line_window-cases body) [
      | inl e ↦
          let named = count-named (subject_of name detail) (to_string (line_count body)) in
          rw e (
            already_record-line _ name
              (All-append NotBreak _ _ subject (count-OneLine (line_count body)))
              (subject_of-label name detail _) (ground arith))
      | inr (w, s) ↦
          let named = window-named (subject_of name detail) (line_window body) s in
          rw (starts_with-filled (line_window body) s) (
            already_record-line _ name (All-append NotBreak _ _ subject (refl, (refl, w)))
              (subject_of-label name detail _) (ground arith))
    ]
