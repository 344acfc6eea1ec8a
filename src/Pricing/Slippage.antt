-- ===== src/Pricing/Slippage.antt =====
-- backend/app/services/slippage_engine.py. `random.uniform` is a parameter: a draw between two
-- bounds, already rounded to four decimals by `_random_decimal`, so a whole number of 0.0001.
use strikefluency.Prelude.{
  ℕ, ◌+◌, ◌-◌, ◌*◌, ◌/◌, ◌≤◌, Bool, leb, if◌then◌else◌, larger, round_half_up,
}
use strikefluency.Models.Terms.{Instrument, OrderAction, is_buy}
use strikefluency.Pricing.Instruments.{spec_strike_interval}

abbrev pub Draw : Type 0
Draw = ℕ → ℕ → ℕ

-- What the code relies on: `random.uniform(a, b)` lies between its bounds, and both bounds have
-- at most four decimals, so the rounded value does too.
abbrev pub IsUniform : Draw → Type 0
IsUniform draw = (lo hi : ℕ) → lo ≤ hi → (lo ≤ draw lo hi) × (draw lo hi ≤ hi)

-- `abs(strike - atm_strike) // interval <= 5`
unfoldable pub is_liquid : ℕ → ℕ → Instrument → Bool
unfolding spec_strike_interval
is_liquid strike atm_strike instrument =
    leb (((strike - atm_strike) + (atm_strike - strike)) / spec_strike_interval instrument) 5

unfoldable pub slippage_points_of : Draw → ℕ → Bool → ℕ
unfolding round_half_up
slippage_points_of draw ltp liquid =
    let slippage_pct = if liquid then draw 50 150 else draw 200 400 in
    round_half_up (ltp * slippage_pct) 10_000

-- The fill price and the slippage. `quantize(Decimal("0.05"))` keeps the exponent of 0.05, two
-- decimals, so on whole paise it changes nothing. A difference below zero, which the floor of
-- five paise would lift, is 0 here and is lifted alike.
unfoldable pub calculate_slippage : Draw → ℕ → ℕ → ℕ → OrderAction → Instrument → ℕ × ℕ
unfolding slippage_points_of is_liquid
calculate_slippage draw ltp strike atm_strike action instrument =
    let points = slippage_points_of draw ltp (is_liquid strike atm_strike instrument) in
    (if is_buy action then ltp + points else larger 5 (ltp - points), points)
