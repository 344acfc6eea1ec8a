-- ===== src/Sessions.antt =====
-- backend/app/services/trading_session_service.py: the trading session of a user and a day.
mod Today
pub mod Cooldown
pub mod Storing
unfoldable pub use Today.{
  new_session, find_today, get_or_create_today, increment_trade_count, update_realized_pnl,
  activate_cooldown, check_and_reset_cooldown, get_cooldown_remaining, set_session,
}
