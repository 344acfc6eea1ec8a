-- ===== src/Lib.antt =====
-- StrikeFluency is a paper-trading application for Indian index options. This library models the
-- trading core of its backend (backend/app): the services that place, protect and close virtual
-- orders, the ledger that moves the money, the rules that gate an order, and the sweep that closes
-- orders on their levels.
--
-- How the parts interact. A route or a scheduler tick opens a database session and calls a service.
-- `place_order` (services/virtual_order_service.py) asks the clock whether the market is open,
-- looks for an order with the client's id, takes the day's trading session, fetches an option chain
-- that is fresh, lets the discipline engine check the order, prices the fill, and posts the margin
-- and the brokerage to the ledger. `close_position` prices the exit, closes the order and its
-- position, releases the margin, settles the result, and updates the session, the cooldown, the
-- score and the journal. `scan_and_exit` marks open positions to market and calls `close_position`
-- for the orders whose levels are reached. `place_pending_order`
-- (services/pending_order_service.py) parks a limit order and blocks its margin; `scan_and_fill`
-- gives the margin back and calls `place_order` once the premium is there. The jobs at the end of
-- the day expire what rests and close what may not be carried forward.
--
-- The files, with the code that each is about:
-- - Prelude: Boolean tests, lists, signed amounts and roundings on the native numbers.
-- - Models: backend/app/core/constants.py and backend/app/models. `Rows` is what one user owns. A
--   service call is an `Action` (Action.antt): it takes the rows and returns a result or an error
--   with the rows as they then are, since what was written before an exception stays in the
--   session until the caller rolls back. `request` is the transaction of backend/app/database.py.
-- - Clock: market hours and trading day of backend/app/core/utils.py.
-- - Pricing: backend/app/services/brokerage_calculator.py and slippage_engine.py, `calculate_pnl`
--   and `round_to_tick` of core/utils.py, and the registry of core/instruments.py.
-- - Market: option chains, and the staleness contract of backend/app/market/freshness.py.
-- - Ledger: backend/app/services/ledger_service.py.
-- - Sessions: backend/app/services/trading_session_service.py.
-- - Discipline: backend/app/services/discipline_engine.py.
-- - Orders: backend/app/services/virtual_order_service.py. Request and Queries hold the payload and
--   the helpers, Place and Close the two big operations step by step, Protection the edits;
--   the other modules hold what is proved of them.
-- - AutoExit: backend/app/services/auto_exit_service.py.
-- - Pending: backend/app/services/pending_order_service.py. Park holds placement, cancellation and
--   expiry, Trigger the sweep that fills; the other modules hold what is proved of them.
-- - EndOfDay: backend/app/services/eod_service.py but for strategies, and the emergency exit of
--   virtual_order_service.py.
-- - DisciplineMode: backend/app/services/discipline_mode_service.py.
-- - RateLimit: the deque of backend/app/core/rate_limit.py.
-- - Strategies: Draft and Builder are backend/app/strategy/domain.py and builder.py; a `Drafted`
--   strategy is one that the builder's functions have made. Payoff is strategy/payoff.py, Margin
--   strategy/margin.py and Quote the prices of strategy/chain.py. Book holds the rows of
--   models/strategy.py beside `Rows` and the monad `Run` of calls on both; Plan, Execute, Exit,
--   SquareOff and Marking are services/strategy_execution_service.py in the order of its sections.
--   The other modules hold what is proved of them.
-- - Desk: the services together. `Event` is a request or a sweep, `Reach` any sequence of them.
-- - Tests: a concrete desk, account and order, and the theorems applied to them.
--
-- Numbers. Money is a whole number of paise, a NUMERIC(_, 2) column exactly; balances and results
-- are signed. Percentages are whole hundredths, instants microseconds since the epoch in UTC, dates
-- day numbers. Decimals round half up or half to even as the code says. The payoff and the margin of a
-- strategy, which the code computes with floats, are exact here, in hundredths of a point, paise
-- and ten-thousandths of a paisa, but for the slope past the last price of a payoff: its sign is tested
-- on the float, so that slope is a parameter, `tail_slope` of `Desk`. A stop loss and a target of a
-- payload come with whether they have decimals beyond the paise, which a replay compares. Every definition ends by recursion on a list or a number, or by
-- none at all, so no fuel is used.
--
-- Parameters. The market-data provider, the clock, the settings and the random generator are the
-- record `Env`, arbitrary but for `IsUniform`: a draw lies between its bounds. A lookup that the
-- provider answers with an exception is `none`. The database session does not flush by itself
-- (`autoflush=False`), so the tables as last flushed stand beside the rows. The chain of an expiry
-- (`chain_for` of a `Desk`) is what the provider returns, arbitrary, too.
--
-- Not modelled: the greeks, the templates and the writing of drafts to their rows, the strategies'
-- part of the end-of-day square-off, the read models of progress and analytics, and subscription
-- plans. Nor are the clients of brokers and providers, authentication, reporting, routes and
-- schemas, and the frontend, which are I/O around these services, row locks, since a call is one
-- step, audit records, and the texts of messages. The margin of open strategies is an input of the
-- master switch, and the limit of a path an input of the rate limit.
pub mod Prelude
pub mod Models
pub mod Action
pub mod Clock
pub mod Pricing
pub mod Market
pub mod Ledger
pub mod Sessions
pub mod Orders
pub mod Discipline
pub mod AutoExit
pub mod Tests
pub mod Pending
pub mod EndOfDay
pub mod DisciplineMode
pub mod RateLimit
pub mod Strategies
pub mod Desk
