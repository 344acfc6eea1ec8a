-- ===== src/Clock.antt =====
-- The trading clock of backend/app/core/utils.py. An instant is a number of microseconds since the
-- epoch (UTC); Asia/Kolkata is UTC+5:30, and day 0 of the epoch was a Thursday.
mod Hours
pub mod TradingDay
unfoldable pub use Hours.{
  ist, weekday, time_of_day, date_of, is_market_open, current_trading_day, require_market_open,
}
pub use Hours.{day_micros}
