-- ===== src/Store/Names.antt =====
-- Session ids and file names (src/server/llm/session_kv_store.cpp).
pub mod Segments
use llama_onprem_server.Prelude.{
  ℕ, ◌-◌, Bool, true, false, not, ◌&&◌, ◌||◌, List, [], ◌∷◌, ◌++◌, Option, none, some, ltb, leb,
  ◌==◌, if◌then◌else◌, length, take, drop, Bytes, codes, bytes_eq,
}

-- Letters, digits, '.', '_' and '-'.
abbrev pub valid_char : ℕ → Bool
valid_char ch =
    leb b'0' ch && leb ch b'9'
    || leb b'A' ch && leb ch b'Z'
    || leb b'a' ch && leb ch b'z'
    || ch == b'.'
    || ch == b'_'
    || ch == b'-'

pub all_valid : Bytes → Bool
all_valid [] = true
all_valid (ch ∷ id) = let rest = all_valid id in if not (valid_char ch) then false else rest

unfoldable pub valid_id : Bool → Bytes → Bool
unfolding all_valid
valid_id opened id =
    if not opened
      || length id == 0
      || ltb 120 (length id)
      || bytes_eq id (codes ".")
      || bytes_eq id (codes "..")
    then false
    else all_valid id

-- The file name in `path_for(id)`, and that of the temporary file beside it.
abbrev pub kv_name : Bytes → Bytes
kv_name id = id ++ codes ".kv"

abbrev pub tmp_name : Bytes → Bytes
tmp_name id = id ++ codes ".kv.tmp"

-- The id in a file name that is longer than ".kv" and ends with it.
unfoldable pub id_of_name : Bytes → Option Bytes
id_of_name name =
    if ltb 3 (length name) && bytes_eq (drop (length name - 3) name) (codes ".kv")
    then some (take (length name - 3) name)
    else none
