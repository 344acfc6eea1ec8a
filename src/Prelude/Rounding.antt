-- ===== src/Prelude/Rounding.antt =====
-- `Decimal.quantize`: the whole number nearest to n / d, by the two rounding modes in use.
use Prim.Native.Nat.{ℕ, ◌+◌, ◌*◌, ◌/◌, ◌%◌}
use strikefluency.Prelude.Tests.{ltb, if◌then◌else◌}

-- ROUND_HALF_UP
unfoldable pub round_half_up : ℕ → ℕ → ℕ
round_half_up n d = (2 * n + d) / (2 * d)

-- ROUND_HALF_EVEN, the default of the decimal context.
unfoldable pub round_half_even : ℕ → ℕ → ℕ
round_half_even n d =
    let q = n / d in
    let r = n % d in if ltb (2 * r) d then q else if ltb d (2 * r) then q + 1 else q + q % 2
