-- ===== src/Clock/Hours.antt =====
-- backend/app/core/utils.py: the market hours, and the trading day that begins at 08:30 IST.
use strikefluency.Prelude.{
  ℕ, ◌+◌, ◌-◌, ◌*◌, ◌/◌, ◌%◌, Bool, false, not, ◌&&◌, ltb, leb, if◌then◌else◌,
}
use strikefluency.Action.{Action, raise_if, market_closed}

abbrev pub minute_micros : ℕ
minute_micros = 60_000_000

abbrev pub day_micros : ℕ
day_micros = 86_400_000_000

abbrev market_open_time : ℕ
market_open_time = (9 * 60 + 15) * minute_micros

abbrev market_close_time : ℕ
market_close_time = (15 * 60 + 30) * minute_micros

abbrev pre_market_reset_time : ℕ
pre_market_reset_time = (8 * 60 + 30) * minute_micros

-- `get_ist_now`: the wall clock of Asia/Kolkata, in microseconds since the local epoch.
unfoldable pub ist : ℕ → ℕ
ist now = now + (5 * 60 + 30) * minute_micros

-- `.date()`, `.time()` and `.weekday()` (0 is Monday) of a wall clock.
unfoldable pub date_of : ℕ → ℕ
date_of wall = wall / day_micros

unfoldable pub time_of_day : ℕ → ℕ
time_of_day wall = wall % day_micros

unfoldable pub weekday : ℕ → ℕ
unfolding date_of
weekday wall = (date_of wall + 3) % 7

unfoldable pub current_trading_day : ℕ → ℕ
unfolding ist date_of time_of_day
current_trading_day now =
    let wall = ist now in
    if ltb (time_of_day wall) pre_market_reset_time
    then date_of (wall - day_micros)
    else date_of wall

unfoldable pub is_market_open : ℕ → Bool
unfolding ist weekday time_of_day
is_market_open now =
    let wall = ist now in
    if leb 5 (weekday wall)
    then false
    else leb market_open_time (time_of_day wall) && ltb (time_of_day wall) market_close_time

unfoldable pub require_market_open : ℕ → Action (Unit {0})
require_market_open now = raise_if (not (is_market_open now)) market_closed
