-- ===== src/Pricing.antt =====
-- What a fill costs: backend/app/core/instruments.py, `calculate_pnl` and `round_to_tick` of
-- backend/app/core/utils.py, backend/app/services/brokerage_calculator.py and
-- backend/app/services/slippage_engine.py. Prices are whole paise, as the quotes and the
-- NUMERIC(10, 2) columns are; rates are written as fractions of whole numbers.
mod Instruments
mod Pnl
mod Brokerage
mod Slippage
pub mod BrokerageBounds
pub mod SlippageBounds
pub mod PnlSymmetry
unfoldable pub use Instruments.{spec_lot_size, spec_strike_interval}
unfoldable pub use Pnl.{calculate_pnl, round_to_tick}
pub use Brokerage.{BrokerageBreakdown}
unfoldable pub use Brokerage.{calculate_brokerage, calculate_round_trip_brokerage}
pub use Slippage.{Draw, IsUniform}
unfoldable pub use Slippage.{calculate_slippage, slippage_points_of, is_liquid}
