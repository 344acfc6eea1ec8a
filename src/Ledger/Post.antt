-- ===== src/Ledger/Post.antt =====
-- `post` and its wrappers, one function for each.
use strikefluency.Prelude.{ℕ, ℤ, pos, neg, ◌+ℤ◌, ltb_ℤ, eqb_ℤ, [], ◌∷◌, ◌++◌, if◌then◌else◌}
use strikefluency.Models.Terms.{LedgerTxnType, LedgerRef}
use strikefluency.Models.Records.{VirtualFundLedger, Rows}
use strikefluency.Action.{Action, ok, err, value_error, insufficient_balance, pure}

-- The row of a movement, and the balance that it leaves.
abbrev pub ledger_row : LedgerTxnType → ℤ → LedgerRef → ℕ → Rows → VirtualFundLedger
ledger_row txn_type amount reference_type reference_id s = record {
  transaction_type = txn_type;
  amount = amount;
  balance_before = s.account.balance;
  balance_after = s.account.balance +ℤ amount;
  reference_type = reference_type;
  reference_id = reference_id;
}

abbrev pub apply_row : VirtualFundLedger → Rows → Rows
apply_row row s = record s {
  account = record (s.account) { balance = row.balance_after };
  ledger = s.ledger ++ (row ∷ []);
}

-- A zero amount is a ValueError, and a balance that would fall below zero is refused before
-- anything is written.
unfoldable pub post : LedgerTxnType → ℤ → LedgerRef → ℕ → Action (Unit {0})
post txn_type amount reference_type reference_id s =
    if eqb_ℤ amount (pos 0)
    then (err value_error, s)
    else if ltb_ℤ (s.account.balance +ℤ amount) (pos 0)
    then (err insufficient_balance, s)
    else (ok tt, apply_row (ledger_row txn_type amount reference_type reference_id s) s)

unfoldable pub open_account : ℕ → Action (Unit {0})
open_account amount s =
    post LedgerTxnType.initial_credit (pos amount) LedgerRef.account s.account.id s

unfoldable pub block_margin : ℕ → LedgerRef → ℕ → Action (Unit {0})
block_margin amount = post LedgerTxnType.trade_debit (neg amount)

unfoldable pub release_margin : LedgerTxnType → ℕ → LedgerRef → ℕ → Action (Unit {0})
release_margin txn_type amount = post txn_type (pos amount)

unfoldable pub charge : ℕ → LedgerRef → ℕ → Action (Unit {0})
charge amount = post LedgerTxnType.charge (neg amount)

-- An exactly flat trade posts nothing.
unfoldable pub settle_pnl : ℤ → LedgerRef → ℕ → Action (Unit {0})
settle_pnl net_pnl reference_type reference_id =
    if eqb_ℤ net_pnl (pos 0)
    then pure tt
    else post
        (if ltb_ℤ (pos 0) net_pnl then LedgerTxnType.trade_credit else LedgerTxnType.trade_debit)
        net_pnl reference_type reference_id

unfoldable pub adjust : ℤ → Action (Unit {0})
adjust delta s = post LedgerTxnType.manual_adjustment delta LedgerRef.account s.account.id s
