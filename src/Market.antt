-- ===== src/Market.antt =====
-- Market data as the trading services see it: the option chain of a provider, the staleness
-- contract of backend/app/market/freshness.py, and `_get_ltp_from_chain` of
-- backend/app/services/virtual_order_service.py.
mod Chain
mod Staleness
pub mod Gates
mod Grouping
pub use Chain.{get_ltp-pos, Source, Stamp, StrikeQuote, OptionChain, Settings, Env}
unfoldable pub use Chain.{get_ltp_from_chain, side_ltp}
pub use Staleness.{Freshness}
unfoldable pub use Staleness.{
  age_ms, is_live_source, assert_orderable, is_tradeable, stamp, fetch_orderable,
}
unfoldable pub use Grouping.{grouped, instruments_of, by_instrument}
