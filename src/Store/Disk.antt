-- ===== src/Store/Disk.antt =====
-- The directory of the store as `std::filesystem` shows it: named files in the directory's order.
-- What can go wrong outside the program comes as an argument of each call.
use llama_onprem_server.Prelude.{
  ℕ, ◌≡◌, ◌≢◌, refl, arith, Bool, false, List, [], ◌∷◌, Option, none, some, if◌then◌else◌, Bytes,
  bytes_eq, bytes_eq_iff,
}

-- `regular` says that the entry is a regular file whose size and time can be read.
pub record File : Type 0 where
  pub content : Bytes
  pub mtime : ℕ
  pub regular : Bool

abbrev pub Disk : Type 0
Disk = List (Bytes × File)

unfoldable pub lookup : Bytes → Disk → Option File
lookup name [] = none
lookup name ((n, f) ∷ d) = if bytes_eq n name then some f else lookup name d

unfoldable pub put : Bytes → File → Disk → Disk
put name file [] = (name, file) ∷ []
put name file ((n, f) ∷ d) = if bytes_eq n name then (n, file) ∷ d else (n, f) ∷ put name file d

unfoldable pub unlink : Bytes → Disk → Disk
unlink name [] = []
unlink name ((n, f) ∷ d) =
    let rest = unlink name d in if bytes_eq n name then rest else (n, f) ∷ rest

pub lookup-put :
    (name j : Bytes) (file : File) (d : Disk)
    → lookup j (put name file d) ≡ (if bytes_eq name j then some file else lookup j d)
unfolding lookup put
lookup-put name j file [] = refl
lookup-put name j file ((n, f) ∷ d) =
    ground
      (arith, bytes_eq_iff n name, bytes_eq_iff n j, bytes_eq_iff name j, lookup-put name j file d)

pub lookup-unlink :
    (name j : Bytes) (d : Disk)
    → lookup j (unlink name d) ≡ (if bytes_eq name j then none else lookup j d)
unfolding lookup unlink
lookup-unlink name j [] = ground arith
lookup-unlink name j ((n, f) ∷ d) =
    ground
      (arith, bytes_eq_iff n name, bytes_eq_iff n j, bytes_eq_iff name j, lookup-unlink name j d)

pub bytes_eq_ne : (a b : Bytes) → a ≢ b → bytes_eq a b ≡ false
bytes_eq_ne a b h = ground (arith, bytes_eq_iff a b)
