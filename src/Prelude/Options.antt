-- ===== src/Prelude/Options.antt =====
-- The chain of optional results, for `do` blocks. A module takes it by its path, since other result
-- types have a chain of the same name.
use mathlib.Core.Option.{Option, none, some}

infixl 5 ◌>>=◌
abbrev pub ◌>>=◌ {ℓ κ} : {A : Type ℓ} {B : Type κ} → Option A → (A → Option B) → Option B
none >>= f = none
some a >>= f = f a
