-- ===== src/Text/Utf8/Stream.antt =====
-- Theorems about `StreamBuffer` over a whole generation (src/server/llm/utf8_stream.hpp).
use mathlib.Core.List.{append-nil, append_assoc}
use llama_onprem_server.Prelude.{
  ℕ, suc, false, List, [], ◌∷◌, ◌++◌, ◌≡◌, refl, sym, ap, subst, ◌∙◌, arith, ◌==◌, length,
  length-append, take-append_length, drop-append_length, Bytes,
}
use llama_onprem_server.Text.Utf8.{process, flush, stream}
use llama_onprem_server.Text.Utf8.Lead.{
  lead_len, Continuations, IsUtf8, nil, char, IsPartial, none_yet, begun,
}
use llama_onprem_server.Text.Utf8.Prefix.{get_complete_utf8_prefix_len-boundary}

abbrev pub concat : List Bytes → Bytes
concat [] = []
concat (b ∷ bs) = b ++ concat bs

abbrev pub AllUtf8 : List Bytes → Type 0
AllUtf8 [] = Unit {0}
AllUtf8 (b ∷ bs) = IsUtf8 b × AllUtf8 bs

-- Two ways to cut one list: one of the fronts is longer.
data Cut (a b c d : Bytes) : Type 0 where
  short : (x : ℕ) (e : Bytes) → c ≡ a ++ (x ∷ e) → b ≡ (x ∷ e) ++ d → Cut a b c d
  long : (e : Bytes) → a ≡ c ++ e → d ≡ e ++ b → Cut a b c d

Cut-cons : (x y : ℕ) {a b c d : Bytes} → x ≡ y → Cut a b c d → Cut (x ∷ a) b (y ∷ c) d
Cut-cons x y e (short z r p q) = short z r (cc) q
Cut-cons x y e (long r p q) = long r (cc) q

cut : (a b c d : Bytes) → a ++ b ≡ c ++ d → Cut a b c d
cut a b [] d e = long a refl (sym e)
cut [] b (y ∷ c) d e = short y c refl e
cut (x ∷ a) b (y ∷ c) d e = Cut-cons x y (cc) (cut a b c d (cc))

Continuations-front : (a e : Bytes) → Continuations (a ++ e) → Continuations a
Continuations-front [] e h = tt
Continuations-front (x ∷ a) e h = (h.0, Continuations-front a e h.1)

-- Wherever whole characters are cut, the front is whole characters and the beginning of one that
-- the rest completes.
record IsSplit (a b : Bytes) : Type 0 where
  chars : Bytes
  partial : Bytes
  splits : a ≡ chars ++ partial
  are_chars : IsUtf8 chars
  is_partial : IsPartial partial
  completes : IsUtf8 (partial ++ b)

IsSplit-in_char :
    (c : ℕ) (cs rest a b : Bytes)
    → lead_len c ≡ suc (length cs)
    → Continuations cs
    → IsUtf8 rest
    → ((a' : Bytes) → rest ≡ a' ++ b → IsSplit a' b)
    → Cut a b cs rest
    → IsSplit (c ∷ a) b
IsSplit-in_char c cs rest a b h k u ih (short x e p q) = record {
  chars = [];
  partial = c ∷ a;
  splits = refl;
  are_chars = nil;
  is_partial =
      begun c a (omega (arith, h, ap length p, length-append a (x ∷ e)))
        (Continuations-front a (x ∷ e) (subst Continuations p k));
  completes =
      subst (λ l. IsUtf8 (c ∷ l))
        (ap (λ l. l ++ rest) p ∙ append_assoc a (x ∷ e) rest ∙ ap (λ l. a ++ l) (sym q))
        (char c cs rest h k u);
}
IsSplit-in_char c cs rest a b h k u ih (long e p q) =
    let r = ih e q in
    record {
      chars = c ∷ (cs ++ r.chars);
      partial = r.partial;
      splits =
          ap (λ l. c ∷ l)
            (p ∙ ap (λ l. cs ++ l) r.splits ∙ sym (append_assoc cs r.chars r.partial));
      are_chars = char c cs r.chars h k r.are_chars;
      is_partial = r.is_partial;
      completes = r.completes;
    }

split : (t : Bytes) → IsUtf8 t → (a b : Bytes) → t ≡ a ++ b → IsSplit a b
split _ nil [] b e = record {
  chars = [];
  partial = [];
  splits = refl;
  are_chars = nil;
  is_partial = none_yet;
  completes = subst IsUtf8 e nil;
}
split _ nil (x ∷ a) b e = cc
split _ (char c cs rest h k u) [] b e = record {
  chars = [];
  partial = [];
  splits = refl;
  are_chars = nil;
  is_partial = none_yet;
  completes = subst IsUtf8 e (char c cs rest h k u);
}
split _ (char c cs rest h k u) (x ∷ a) b e =
    let c_eq : c ≡ x = cc in
    subst (λ y. IsSplit (y ∷ a) b) c_eq
      (IsSplit-in_char c cs rest a b h k u (λ a' p. split rest u a' b p)
        (cut a b cs rest (sym (cc))))

process_lem :
    (buf piece chars partial : Bytes)
    → buf ++ piece ≡ chars ++ partial
    → IsUtf8 chars
    → IsPartial partial
    → process buf piece ≡ record { ready = chars; buf = partial }
unfolding process
process_lem buf piece [] partial e u h =
    let len = get_complete_utf8_prefix_len-boundary [] partial u h in rw (e, len)
process_lem buf piece (x ∷ chars) partial e u h =
    let len = get_complete_utf8_prefix_len-boundary (x ∷ chars) partial u h in
    let some_len : (length (x ∷ chars) == 0) ≡ false = ground arith in
    rw (e, len, some_len, take-append_length chars partial, drop-append_length chars partial)

IsPartial-eq-nil : (p : Bytes) → IsPartial p → IsUtf8 p → p ≡ []
IsPartial-eq-nil p h u = ground (
  arith,
  get_complete_utf8_prefix_len-boundary [] p nil h,
  get_complete_utf8_prefix_len-boundary p [] u none_yet,
  append-nil p,
)

stream_lem :
    (pieces : List Bytes) (buf : Bytes)
    → IsPartial buf
    → IsUtf8 (buf ++ concat pieces)
    → AllUtf8 (stream buf pieces) × (concat (stream buf pieces) ≡ buf ++ concat pieces)
unfolding stream
stream_lem [] buf h u =
    let e = IsPartial-eq-nil buf h (subst IsUtf8 (append-nil buf) u) in
    rw e (unfold flush in ((nil, tt), refl))
stream_lem (piece ∷ pieces) buf h u =
    let r = split _ u (buf ++ piece) (concat pieces) (sym (append_assoc buf piece _)) in
    let step = process_lem buf piece r.chars r.partial r.splits r.are_chars r.is_partial in
    let rest = stream_lem pieces r.partial r.is_partial r.completes in
    rw step (
      (r.are_chars, rest.0),
      ap (λ l. r.chars ++ l) rest.1
          ∙ sym (append_assoc r.chars r.partial (concat pieces))
          ∙ ap (λ l. l ++ concat pieces) (sym r.splits)
          ∙ append_assoc buf piece (concat pieces),
    )

-- However a text of whole UTF-8 characters is cut into pieces, also inside characters, each text
-- that `process` and the final `flush` hand on is whole characters, and together they are the text.
pub stream-AllUtf8 :
    (pieces : List Bytes)
    → IsUtf8 (concat pieces)
    → AllUtf8 (stream [] pieces) × (concat (stream [] pieces) ≡ concat pieces)
stream-AllUtf8 pieces u = stream_lem pieces [] none_yet u
