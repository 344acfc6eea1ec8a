-- ===== src/Clock/TradingDay.antt =====
-- The trading day against the market hours.
use strikefluency.Prelude.{ℕ, ◌+◌, ◌*◌, ◌≤◌, ◌<◌, ◌≡◌, true, arith}
use strikefluency.Clock.Hours.{
  ist, date_of, weekday, current_trading_day, is_market_open, day_micros,
}

-- While the market is open, the trading day is the calendar date in India, and that date is a day
-- from Monday to Friday.
trading_day_of_open_market :
    (now : ℕ)
    → is_market_open now ≡ true
    → (current_trading_day now ≡ date_of (ist now)) × (weekday (ist now) < 5)
unfolding is_market_open current_trading_day
trading_day_of_open_market now h = ground arith

-- The trading day changes exactly at 08:30 IST: an instant belongs to the trading day d exactly
-- when it lies from 08:30 IST of the date d up to, and not including, 08:30 IST of the next date.
-- The first day of the epoch is left out, since a day before it has no number.
current_trading_day_iff :
    (now d : ℕ)
    → day_micros ≤ now
    → let reset : ℕ = 30_600_000_000 in
      (current_trading_day now ≡ d
        → (d * day_micros + reset ≤ ist now) × (ist now < (d + 1) * day_micros + reset))
      × (d * day_micros + reset ≤ ist now
          → ist now < (d + 1) * day_micros + reset
          → current_trading_day now ≡ d)
unfolding current_trading_day
current_trading_day_iff now d h = ground arith
