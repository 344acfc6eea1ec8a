-- ===== src/Ledger.antt =====
-- backend/app/services/ledger_service.py: the only writer of the account's balance. Amounts are
-- whole paise, as `quantize(_PAISE)` leaves them; `amount is None` and the descriptions of the
-- rows are left out.
mod Post
pub mod Balance
pub mod Wallet
pub mod Credits
pub use Post.{ledger_row, apply_row}
unfoldable pub use Post.{
  post, open_account, block_margin, release_margin, charge, settle_pnl, adjust,
}
