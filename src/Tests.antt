-- ===== src/Tests.antt =====
-- Concrete markets, accounts and orders, and every general theorem applied to them.
pub mod Fixtures
pub mod Pricing
pub mod Trading
pub mod Rules
pub mod Sweeps
pub mod Resting
pub mod Days
pub mod Drafts
pub mod Strategies
mod TwoCloses
