-- ===== src/Store/Names/Segments.antt =====
-- Theorems about `valid_id` and the file names (src/server/llm/session_kv_store.cpp).
use llama_onprem_server.Prelude.{
  ℕ, ◌-◌, ◌≤◌, ◌<◌, ◌≡◌, ◌≢◌, refl, sym, ap, ◌∙◌, arith, Bool, true, [], ◌∷◌, ◌++◌, some, ltb,
  lt→ltb, length, length-append, take, drop, take-append_length, drop-append_length,
  take-append-drop, Bytes, codes, bytes_eq_iff, bytes_eq_refl,
}
use llama_onprem_server.Store.Names.{all_valid, valid_id, kv_name, tmp_name, id_of_name}

-- A byte that may stand inside one segment of a path.
abbrev IsPlain : ℕ → Type 0
IsPlain ch = (ch ≢ b'/') × (ch ≢ 0)

abbrev AllPlain : Bytes → Type 0
AllPlain [] = Unit {0}
AllPlain (ch ∷ name) = IsPlain ch × AllPlain name

-- The name of an entry of the directory itself: one segment, not "." or "..", of a length that
-- file systems accept.
pub record IsSegment (name : Bytes) : Type 0 where
  pub plain : AllPlain name
  pub not_empty : name ≢ []
  pub not_dot : name ≢ codes "."
  pub not_dot_dot : name ≢ codes ".."
  pub short : length name ≤ 255

AllPlain-append : (a b : Bytes) → AllPlain a → AllPlain b → AllPlain (a ++ b)
AllPlain-append [] b h k = k
AllPlain-append (x ∷ a) b h k = (h.0, AllPlain-append a b h.1 k)

all_valid-AllPlain : (id : Bytes) → all_valid id ≡ true → AllPlain id
unfolding all_valid
all_valid-AllPlain [] h = tt
all_valid-AllPlain (ch ∷ id) h = (ground arith, all_valid-AllPlain id (ground arith))

valid_id-length : (opened : Bool) (id : Bytes) → valid_id opened id ≡ true → length id ≤ 120
unfolding valid_id
valid_id-length opened id h = ground arith

valid_id-all_valid : (opened : Bool) (id : Bytes) → valid_id opened id ≡ true → all_valid id ≡ true
unfolding valid_id
valid_id-all_valid opened id h = ground arith

longer-IsSegment :
    (id ext : Bytes)
    → AllPlain id
    → AllPlain ext
    → length id ≤ 120
    → length ext ≤ 10
    → 2 < length ext
    → IsSegment (id ++ ext)
longer-IsSegment id ext h k low high some_ext =
    let len = length-append id ext in
    record {
      plain = AllPlain-append id ext h k;
      not_empty = λ e. omega (arith, len, ap length e);
      not_dot = λ e. omega (arith, len, ap length e);
      not_dot_dot = λ e. omega (arith, len, ap length e);
      short = omega (arith, len);
    }

-- Whatever text is given as a session id, if `valid_id` accepts it then the file and the temporary
-- file that are written for it are entries of the store's directory.
pub valid_id-IsSegment :
    (opened : Bool) (id : Bytes)
    → valid_id opened id ≡ true
    → IsSegment (kv_name id) × IsSegment (tmp_name id)
valid_id-IsSegment opened id h =
    let plain = all_valid-AllPlain id (valid_id-all_valid opened id h) in
    let short = valid_id-length opened id h in
    (
      longer-IsSegment id (codes ".kv") plain (omega arith) short (omega arith) (omega arith),
      longer-IsSegment id (codes ".kv.tmp") plain (omega arith) short (omega arith) (omega arith),
    )

last_byte : Bytes → ℕ
last_byte [] = 0
last_byte (x ∷ []) = x
last_byte (x ∷ y ∷ l) = last_byte (y ∷ l)

last_byte-append : (a : Bytes) (x : ℕ) (l : Bytes) → last_byte (a ++ (x ∷ l)) ≡ last_byte (x ∷ l)
unfolding last_byte
last_byte-append [] x l = refl
last_byte-append (y ∷ []) x l = refl
last_byte-append (y ∷ z ∷ a) x l = last_byte-append (z ∷ a) x l

-- A temporary file is never taken for a session's file.
pub tmp_name-ne-kv_name : (a b : Bytes) → tmp_name a ≢ kv_name b
tmp_name-ne-kv_name a b e =
    unfold last_byte in
    omega (
      arith,
      ap last_byte e,
      last_byte-append a b'.' (codes "kv.tmp"),
      last_byte-append b b'.' (codes "kv"),
    )

append_cancel : (a b ext : Bytes) → a ++ ext ≡ b ++ ext → a ≡ b
append_cancel [] [] ext e = refl
append_cancel [] (y ∷ b) ext e = absurd (omega (arith, ap length e, length-append b ext))
append_cancel (x ∷ a) [] ext e = absurd (omega (arith, ap length e, length-append a ext))
append_cancel (x ∷ a) (y ∷ b) ext e = cc (append_cancel a b ext (cc))

-- Different sessions have different files.
pub kv_name-injective : (a b : Bytes) → kv_name a ≡ kv_name b → a ≡ b
kv_name-injective a b e = append_cancel a b (codes ".kv") e

id_of_name-splits :
    (name id : Bytes)
    → id_of_name name ≡ some id
    → (take (length name - 3) name ≡ id) × (drop (length name - 3) name ≡ codes ".kv")
unfolding id_of_name
id_of_name-splits name id h =
    ground (arith, bytes_eq_iff (drop (length name - 3) name) (codes ".kv"))

-- The id that is read off a directory entry is the one whose file the entry is; and off the file
-- of a session that has an id its id is read.
pub id_of_name-kv_name : (name id : Bytes) → id_of_name name ≡ some id → name ≡ kv_name id
id_of_name-kv_name name id h =
    let s = id_of_name-splits name id h in
    sym (take-append-drop (length name - 3) name)
    ∙ ap (λ l. l ++ drop (length name - 3) name) s.0
    ∙ ap (λ l. id ++ l) s.1

pub id_of_name_kv : (id : Bytes) → id ≢ [] → id_of_name (kv_name id) ≡ some id
unfolding id_of_name
id_of_name_kv [] h = absurd (h refl)
id_of_name_kv (x ∷ id) h =
    let len : length (kv_name (x ∷ id)) - 3 ≡ length (x ∷ id) =
      omega (arith, length-append (x ∷ id) (codes ".kv")) in
    let long : ltb 3 (length (kv_name (x ∷ id))) ≡ true =
      lt→ltb 3 _ (omega (arith, length-append (x ∷ id) (codes ".kv"))) in
    ground (
      arith,
      len,
      long,
      take-append_length (x ∷ id) (codes ".kv"),
      drop-append_length (x ∷ id) (codes ".kv"),
      bytes_eq_refl (codes ".kv"),
    )
