-- ===== src/History/Shrink.antt =====
-- Theorems about `shrink_tool_responses` (src/server/sessions/tool_history.cpp).
use mathlib.Core.List.{append_assoc}
use llama_onprem_server.Prelude.{
  ℕ, zero, suc, ◌+◌, ◌-◌, ◌<◌, ◌≤◌, Bool, true, false, [], ◌∷◌, ◌++◌, none, some, ltb, length, take,
  drop, Bytes, codes, starts_with, find_byte, find_text, ◌≡◌, refl, sym, ap, subst, ◌∙◌, arith,
  Bool-cases, Option-cases, inl, inr, ◌⊎◌, take-append-drop, length-take, length-drop, drop_add,
}
use llama_onprem_server.History.Find.{
  find_text-drop, find_text-bound, find_byte-drop, find_byte-bound, take-next,
}
use llama_onprem_server.History.{
  close_tag, open_mark, trim_edges, attribute, record_line, is_kept, shrunk, shrink_loop,
  shrink_tool_responses,
}

-- A mark without a result behind it: no '>', no closing tag, or one in front of the other.
pub data Unfinished (tail : Bytes) : Type 0 where
  no_end : find_byte b'>' tail ≡ none → Unfinished tail
  no_close : find_text close_tag tail ≡ none → Unfinished tail
  crossed :
      (end tag_end : ℕ)
      → find_byte b'>' tail ≡ some tag_end
      → find_text close_tag tail ≡ some end
      → end < tag_end
      → Unfinished tail

-- A result, as its tag, what is between the tags, and the text behind it.
abbrev pub result_text : Bytes → Bytes → Bytes → Bytes
result_text tag raw rest = tag ++ (raw ++ (close_tag ++ rest))

-- The first mark stands behind `before`, the first '>' behind it ends the tag, and the first closing
-- tag behind it stands behind `raw`.
pub record IsFirst (before tag raw rest : Bytes) : Type 0 where
  pub mark : find_text open_mark (before ++ result_text tag raw rest) ≡ some (length before)
  pub front : Bytes
  pub tag_end : tag ≡ front ++ b'>' ∷ []
  pub tag_first : find_byte b'>' (result_text tag raw rest) ≡ some (length front)
  pub close_first : find_text close_tag (result_text tag raw rest) ≡ some (length tag + length raw)

abbrev pub kept_by : Bytes → Bytes → Bool
kept_by tag raw = is_kept (attribute tag (codes "name")) (trim_edges raw)

abbrev pub line_of_result : Bytes → Bytes → Bytes
line_of_result tag raw =
    b'\n'
      ∷ record_line (attribute tag (codes "name")) (attribute tag (codes "detail")) (trim_edges raw)
    ++ b'\n' ∷ []

-- A text and the same with its long results cut: up to the first mark, then a result, and so on.
pub data IsShrunk : Bytes → Bytes → Type 0 where
  plain : (text : Bytes) → find_text open_mark text ≡ none → IsShrunk text text
  unfinished :
      (before tail : Bytes)
      → find_text open_mark (before ++ tail) ≡ some (length before)
      → Unfinished tail
      → IsShrunk (before ++ tail) (before ++ tail)
  kept :
      (before tag raw rest out : Bytes)
      → IsFirst before tag raw rest
      → kept_by tag raw ≡ true
      → IsShrunk rest out
      → IsShrunk (before ++ result_text tag raw rest) (before ++ result_text tag raw out)
  cut :
      (before tag raw rest out : Bytes)
      → IsFirst before tag raw rest
      → kept_by tag raw ≡ false
      → IsShrunk rest out
      → IsShrunk
          (before ++ result_text tag raw rest)
          (before ++ result_text tag (line_of_result tag raw) out)

shrunk-kept :
    (tag raw out : Bytes) → kept_by tag raw ≡ true → shrunk tag raw ++ out ≡ result_text tag raw out
unfolding shrunk
shrunk-kept tag raw out h =
    rw h (
      append_assoc tag (raw ++ close_tag) out ∙ ap (λ t. tag ++ t) (append_assoc raw close_tag out))

shrunk-cut :
    (tag raw out : Bytes)
    → kept_by tag raw ≡ false
    → shrunk tag raw ++ out ≡ result_text tag (line_of_result tag raw) out
unfolding shrunk
shrunk-cut tag raw out h =
    let line =
      record_line (attribute tag (codes "name")) (attribute tag (codes "detail"))
        (trim_edges raw) in
    rw h (
      append_assoc tag (b'\n' ∷ line ++ b'\n' ∷ close_tag) out
      ∙ ap (λ t. tag ++ b'\n' ∷ t)
          (append_assoc line (b'\n' ∷ close_tag) out
            ∙ sym (append_assoc line (b'\n' ∷ []) (close_tag ++ out))))

-- The parts of a tail that a closing tag ends, behind the tag.
tail-parts :
    (tail : Bytes) (tag_end end : ℕ)
    → find_byte b'>' tail ≡ some tag_end
    → find_text close_tag tail ≡ some end
    → tag_end < end
    → result_text
        (take (tag_end + 1) tail)
        (take (end - (tag_end + 1)) (drop (tag_end + 1) tail))
        (drop (end + length close_tag) tail)
      ≡ tail
tail-parts tail tag_end end f g lt =
    let after = drop (tag_end + 1) tail in
    let k = end - (tag_end + 1) in
    let place : tag_end + 1 + k ≡ end = omega arith in
    ap (λ t. take (tag_end + 1) tail ++ (take k after ++ t))
      (sym (find_text-drop close_tag tail end g)
        ∙ ap (λ n. drop n tail) (sym place)
        ∙ drop_add (tag_end + 1) k tail)
    ∙ ap (λ t. take (tag_end + 1) tail ++ t) (take-append-drop k after)
    ∙ take-append-drop (tag_end + 1) tail

same_head : (x y : ℕ) (xs ys : Bytes) → x ∷ xs ≡ y ∷ ys → x ≡ y
same_head x y xs ys h = cc

-- No byte ends a tag and begins a closing tag.
apart :
    (tail : Bytes) (i : ℕ) → find_byte b'>' tail ≡ some i → ¬ (find_text close_tag tail ≡ some i)
apart tail i f g =
    let same =
      same_head b'>' b'<' _ _
        (sym (find_byte-drop b'>' tail i f) ∙ find_text-drop close_tag tail i g) in
    omega arith

-- The rounds of the loop that find no whole result.
round_plain :
    (fuel c : ℕ) (cs : Bytes)
    → find_text open_mark (c ∷ cs) ≡ none
    → shrink_loop (suc fuel) (c ∷ cs) ≡ c ∷ cs
unfolding shrink_loop
round_plain fuel c cs f = rw (shrink_loop, f) refl

round-Unfinished :
    (fuel c start : ℕ) (cs : Bytes)
    → find_text open_mark (c ∷ cs) ≡ some start
    → Unfinished (drop start (c ∷ cs))
    → shrink_loop (suc fuel) (c ∷ cs) ≡ take start (c ∷ cs) ++ drop start (c ∷ cs)
unfolding shrink_loop
round-Unfinished fuel c start cs f (no_end g) = rw (shrink_loop, f, g) refl
round-Unfinished fuel c start cs f (no_close g) =
    elim (Option-cases (find_byte b'>' (drop start (c ∷ cs)))) [
      | inl e ↦ rw (shrink_loop, f, e) refl
      | inr (i, e) ↦ rw (shrink_loop, f, e, g) refl
    ]
round-Unfinished fuel c start cs f (crossed end tag_end e g l) =
    let test : ltb end tag_end ≡ true = ground arith in rw (shrink_loop, f, e, g, test) refl

round_result :
    (fuel c start tag_end end : ℕ) (cs : Bytes)
    → find_text open_mark (c ∷ cs) ≡ some start
    → find_byte b'>' (drop start (c ∷ cs)) ≡ some tag_end
    → find_text close_tag (drop start (c ∷ cs)) ≡ some end
    → tag_end < end
    → shrink_loop (suc fuel) (c ∷ cs)
      ≡ take start (c ∷ cs)
        ++ (shrunk
              (take (tag_end + 1) (drop start (c ∷ cs)))
              (take (end - (tag_end + 1)) (drop (tag_end + 1) (drop start (c ∷ cs))))
            ++ shrink_loop fuel (drop (end + length close_tag) (drop start (c ∷ cs))))
unfolding shrink_loop
round_result fuel c start tag_end end cs f e g l =
    let test : ltb end tag_end ≡ false = ground arith in rw (shrink_loop, f, e, g, test) refl

-- Before, tag, body and rest of a text with a result.
parts-IsFirst :
    (text : Bytes) (start tag_end end : ℕ)
    → find_text open_mark text ≡ some start
    → find_byte b'>' (drop start text) ≡ some tag_end
    → find_text close_tag (drop start text) ≡ some end
    → tag_end < end
    → IsFirst
        (take start text)
        (take (tag_end + 1) (drop start text))
        (take (end - (tag_end + 1)) (drop (tag_end + 1) (drop start text)))
        (drop (end + length close_tag) (drop start text))
parts-IsFirst text start tag_end end f e g l =
    let tail = drop start text in
    let parts = tail-parts tail tag_end end e g l in
    let b0 = find_text-bound open_mark text start f in
    let b1 = find_byte-bound b'>' tail tag_end e in
    let b2 = find_text-bound close_tag tail end g in
    let m0 : start ≡ length (take start text) = omega (arith, length-take start text) in
    let m1 : tag_end ≡ length (take tag_end tail) = omega (arith, length-take tag_end tail) in
    let m2 : end
        ≡ length (take (tag_end + 1) tail)
          + length (take (end - (tag_end + 1)) (drop (tag_end + 1) tail)) =
      omega (
        arith,
        length-take (tag_end + 1) tail,
        length-drop (tag_end + 1) tail,
        length-take (end - (tag_end + 1)) (drop (tag_end + 1) tail),
      ) in
    record {
      mark =
          ap (λ t. find_text open_mark (take start text ++ t)) parts
          ∙ ap (find_text open_mark) (take-append-drop start text)
          ∙ f
          ∙ ap some m0;
      front = take tag_end tail;
      tag_end = take-next tag_end b'>' tail _ (find_byte-drop b'>' tail tag_end e);
      tag_first = ap (find_byte b'>') parts ∙ e ∙ ap some m1;
      close_first = ap (find_text close_tag) parts ∙ g ∙ ap some m2;
    }

result-IsShrunk :
    (before tag raw rest out : Bytes)
    → IsFirst before tag raw rest
    → IsShrunk rest out
    → IsShrunk (before ++ result_text tag raw rest) (before ++ (shrunk tag raw ++ out))
result-IsShrunk before tag raw rest out first shr = elim (Bool-cases (kept_by tag raw)) [
  | inl k ↦ rw (shrunk-kept tag raw out k) (kept before tag raw rest out first k shr)
  | inr k ↦ rw (shrunk-cut tag raw out k) (cut before tag raw rest out first k shr)
]

-- A text is the part before a mark and the tail, as its parts.
whole_text :
    (text : Bytes) (start tag_end end : ℕ)
    → find_byte b'>' (drop start text) ≡ some tag_end
    → find_text close_tag (drop start text) ≡ some end
    → tag_end < end
    → take start text
        ++ result_text
            (take (tag_end + 1) (drop start text))
            (take (end - (tag_end + 1)) (drop (tag_end + 1) (drop start text)))
            (drop (end + length close_tag) (drop start text))
      ≡ text
whole_text text start tag_end end e g l =
    ap (λ t. take start text ++ t) (tail-parts (drop start text) tag_end end e g l)
    ∙ take-append-drop start text

Unfinished-IsShrunk :
    (text : Bytes) (start : ℕ)
    → find_text open_mark text ≡ some start
    → Unfinished (drop start text)
    → IsShrunk text (take start text ++ drop start text)
Unfinished-IsShrunk text start f u =
    let bound = find_text-bound open_mark text start f in
    let place : start ≡ length (take start text) = omega (arith, length-take start text) in
    subst (λ t. IsShrunk t (take start text ++ drop start text)) (take-append-drop start text)
      (unfinished (take start text) (drop start text)
        (ap (find_text open_mark) (take-append-drop start text) ∙ f ∙ ap some place) u)

-- Whether a result is whole, where a mark is found.
tail-cases :
    (tail : Bytes)
    → Unfinished tail
      ⊎ ((tag_end : ℕ) × (end : ℕ) × (find_byte b'>' tail ≡ some tag_end)
          × (find_text close_tag tail ≡ some end)
          × (tag_end < end))
tail-cases tail = elim (Option-cases (find_byte b'>' tail)) [
  | inl e ↦ inl (no_end e)
  | inr (i, e) ↦ elim (Option-cases (find_text close_tag tail)) [
    | inl g ↦ inl (no_close g)
    | inr (j, g) ↦ elim (Bool-cases (ltb j i)) [
      | inl l ↦ inl (crossed j i e g (ground arith))
      | inr l ↦
          let differ : ¬ (j ≡ i) = λ q. apart tail i e (g ∙ ap some q) in
          inr (i, j, e, g, ground arith)
    ]
  ]
]

same_text : {a b out : Bytes} → a ≡ b → IsShrunk a out → IsShrunk b out
same_text {a} {b} {out} q = subst (λ t. IsShrunk t out) q

no_mark : find_text open_mark [] ≡ none
unfolding find_text starts_with
no_mark = refl

-- With at least as many rounds as bytes.
shrink_loop-IsShrunk :
    (fuel : ℕ) (text : Bytes) → length text ≤ fuel → IsShrunk text (shrink_loop fuel text)
unfolding shrink_loop
shrink_loop-IsShrunk zero [] h = plain [] no_mark
shrink_loop-IsShrunk zero (c ∷ cs) h = absurd (omega arith)
shrink_loop-IsShrunk (suc fuel) [] h = plain [] no_mark
shrink_loop-IsShrunk (suc fuel) (c ∷ cs) h = elim (Option-cases (find_text open_mark (c ∷ cs))) [
  | inl f ↦ subst (IsShrunk (c ∷ cs)) (sym (round_plain fuel c cs f)) (plain (c ∷ cs) f)
  | inr (start, f) ↦ elim (tail-cases (drop start (c ∷ cs))) [
    | inl u ↦
        subst (IsShrunk (c ∷ cs)) (sym (round-Unfinished fuel c start cs f u))
          (Unfinished-IsShrunk (c ∷ cs) start f u)
    | inr (tag_end, end, e, g, l) ↦
        let rest = drop (end + length close_tag) (drop start (c ∷ cs)) in
        let shorter : length rest ≤ fuel = omega (
          arith,
          length-drop (end + length close_tag) (drop start (c ∷ cs)),
          length-drop start (c ∷ cs),
        ) in
        subst (IsShrunk (c ∷ cs)) (sym (round_result fuel c start tag_end end cs f e g l)) (
          same_text (whole_text (c ∷ cs) start tag_end end e g l) (
            result-IsShrunk _ _ _ rest _ (parts-IsFirst (c ∷ cs) start tag_end end f e g l)
              (shrink_loop-IsShrunk fuel rest shorter)))
  ]
]

-- Every text is cut as `IsShrunk` says: a whole result that is not to be kept loses what stands
-- between its tags to one line, every other byte stays in order, and nothing is cut from the first
-- mark on that begins no whole result.
pub shrink_tool_responses-IsShrunk : (text : Bytes) → IsShrunk text (shrink_tool_responses text)
unfolding shrink_tool_responses
shrink_tool_responses-IsShrunk text = shrink_loop-IsShrunk (length text) text (omega arith)
