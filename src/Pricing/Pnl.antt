-- ===== src/Pricing/Pnl.antt =====
-- `calculate_pnl` and `round_to_tick` of backend/app/core/utils.py. With prices in whole paise the
-- gross P&L is a whole number of paise, so its `quantize` changes nothing.
use strikefluency.Prelude.{ℕ, ◌*◌, ℤ, pos, ◌-ℤ◌, scale, if◌then◌else◌, round_half_even}
use strikefluency.Models.Terms.{OrderAction, is_buy}

unfoldable pub calculate_pnl : OrderAction → ℕ → ℕ → ℕ → ℕ → ℤ
calculate_pnl action entry_price exit_price quantity lot_size =
    let units = quantity * lot_size in
    if is_buy action
    then scale (pos exit_price -ℤ pos entry_price) units
    else scale (pos entry_price -ℤ pos exit_price) units

-- `(price / tick_size).quantize(1) * tick_size`, on the tick of five paise.
unfoldable pub round_to_tick : ℕ → ℕ
unfolding round_half_even
round_to_tick price = round_half_even price 5 * 5
