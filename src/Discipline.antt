-- ===== src/Discipline.antt =====
-- backend/app/services/discipline_engine.py: the seven rules that gate an order, the log of
-- violations, and the rolling discipline score.
mod Engine
mod Score
pub mod Compliance
pub mod Streak
pub mod Defaults
unfoldable pub use Engine.{
  enabled_of, log_violation, is_none, rule_for, max_loss_of, check_order, fails_mandatory_sl,
  fails_setup_tag, fails_max_trades, fails_max_daily_loss, check_cooldown, fails_averaging_down,
  fails_direction_flip, enforce,
}
unfoldable pub use Score.{update_discipline_score, recent_orders, score_of, count_compliant}
