-- ===== src/Prelude/Words.antt =====
-- Machine integers: the largest `uint64_t`, and `int32_t` values as signed numbers.
use Prim.Native.Nat.{ℕ, ◌-◌, ◌%◌, ◌^◌}
use mathlib.Core.Bool.{Bool, true, false}
use llama_onprem_server.Prelude.Tests.{ltb, if◌then◌else◌}

-- `std::numeric_limits<uint64_t>::max()`.
abbrev pub u64_max : ℕ
u64_max = 18_446_744_073_709_551_615

-- `negsuc n` is -(n + 1).
pub data ℤ : Type 0 where
  pos : ℕ → ℤ
  negsuc : ℕ → ℤ

-- `x < 0`.
abbrev pub is_neg : ℤ → Bool
is_neg (pos n) = false
is_neg (negsuc n) = true

-- `static_cast<int32_t>(n)` of a `size_t`: the low 32 bits, read in two's complement.
abbrev pub to_int32 : ℕ → ℤ
to_int32 n = signed (n % 2 ^ 32)
  where
    signed : ℕ → ℤ
    signed m = if ltb m (2 ^ 31) then pos m else negsuc (2 ^ 32 - m - 1)
