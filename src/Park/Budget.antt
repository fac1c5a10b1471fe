-- ===== src/Park/Budget.antt =====
-- The two loops that memory admission and disk collection share, over the bytes of each item:
-- adding them up, and dropping from the front while the total is over a limit.
pub mod Least
use llama_onprem_server.Prelude.{
  ℕ, ◌+◌, ◌-◌, List, [], ◌∷◌, ltb, leb, if◌then◌else◌, u64_max, Bytes,
}

-- One step of the loops: `used -= bytes`, held at 0.
unfoldable pub sub_or_zero : ℕ → ℕ → ℕ
sub_or_zero used bytes = if leb bytes used then used - bytes else 0

pub record Dropped : Type 0 where
  pub names : List Bytes
  pub left : ℕ

module _ {ℓ} {A : Type ℓ} (name : A → Bytes) (bytes : A → ℕ) where
  -- The sum from `used` on, which breaks off at the largest `uint64_t`.
  unfoldable pub saturating_total : List A → ℕ → ℕ
  saturating_total [] used = used
  saturating_total (x ∷ xs) used =
      let rest = saturating_total xs (used + bytes x) in
      if ltb (u64_max - bytes x) used then u64_max else rest

  -- `while (index < size && used > limit)`.
  unfoldable pub drop_oldest : ℕ → List A → ℕ → Dropped
  unfolding sub_or_zero
  drop_oldest limit [] used = record { names = []; left = used }
  drop_oldest limit (x ∷ xs) used =
      let rest = drop_oldest limit xs (sub_or_zero used (bytes x)) in
      if ltb limit used
      then record { names = name x ∷ rest.names; left = rest.left }
      else record { names = []; left = used }
