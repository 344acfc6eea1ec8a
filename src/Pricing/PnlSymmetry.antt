-- ===== src/Pricing/PnlSymmetry.antt =====
-- The profit of a trade as its two sides see it.
use strikefluency.Prelude.{◌%◌, ℕ, ◌+◌, ◌≤◌, ◌≡◌, pos, ◌+ℤ◌, ◌-ℤ◌, scale, arith}
use strikefluency.Models.Terms.{OrderAction}
use strikefluency.Pricing.Pnl.{calculate_pnl, round_to_tick}

-- What the buyer gains the seller loses: the two gross P&Ls of the same prices cancel.
calculate_pnl_zero_sum :
    (entry_price exit_price quantity lot_size : ℕ)
    → calculate_pnl OrderAction.buy entry_price exit_price quantity lot_size
        +ℤ calculate_pnl OrderAction.sell entry_price exit_price quantity lot_size
      ≡ pos 0
unfolding calculate_pnl scale ◌-ℤ◌ ◌+ℤ◌
calculate_pnl_zero_sum entry_price exit_price quantity lot_size = ground arith

-- `round_to_tick` returns a multiple of five paise, no further from the price than
-- two paise.
round_to_tick_nearest :
    (price : ℕ)
    → (round_to_tick price % 5 ≡ 0)
      × (round_to_tick price ≤ price + 2)
      × (price ≤ round_to_tick price + 2)
unfolding round_to_tick
round_to_tick_nearest price = ground arith
