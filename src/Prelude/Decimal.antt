-- ===== src/Prelude/Decimal.antt =====
-- `std::to_string` of a number that is not negative.
use Prim.Native.Nat.{ℕ, zero, suc, ◌+◌, ◌/◌, ◌%◌}
use mathlib.Core.List.{[], ◌∷◌}
use llama_onprem_server.Prelude.Strings.{Bytes}
use llama_onprem_server.Prelude.Tests.{◌==◌, if◌then◌else◌}

-- The digits of `n` in front of `text`. Each round divides by ten, so `n + 1` rounds are enough.
unfoldable pub digits_of : ℕ → ℕ → Bytes → Bytes
digits_of zero n text = text
digits_of (suc fuel) n text =
    let more = digits_of fuel (n / 10) ((b'0' + n % 10) ∷ text) in
    if n / 10 == 0 then (b'0' + n % 10) ∷ text else more

unfoldable pub to_string : ℕ → Bytes
unfolding digits_of
to_string n = digits_of (n + 1) n []
