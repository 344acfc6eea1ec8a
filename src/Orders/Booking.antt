-- ===== src/Orders/Booking.antt =====
-- What `place_order` writes once an order is affordable, as one state.
use strikefluency.Prelude.{
  ◌+◌, ◌<◌, ◌≡◌, pos, neg, ◌≤ℤ◌, false, ◌∙◌, Bool, neg-ne_zero, debits_covered,
}
use strikefluency.Models.Terms.{LedgerTxnType, LedgerRef}
use strikefluency.Models.Records.{TradingSession, VirtualOrder, Rows}
use strikefluency.Action.{Action, ok, ◌>>◌, modify, pure}
use strikefluency.Action.Sequence.{>>=-ok}
use strikefluency.Market.{Env}
use strikefluency.Ledger.{block_margin, charge, ledger_row, apply_row}
use strikefluency.Ledger.Balance.{IsReconciled, apply_row-IsReconciled, post-covered}
use strikefluency.Sessions.{increment_trade_count, set_session}
use strikefluency.Orders.Request.{OrderData}
use strikefluency.Orders.Place.{Ticket, new_order, new_position, add_order, add_position, book}

module _ (env : Env) (d : OrderData) (t : Ticket) (session : TradingSession) (s : Rows) where
  abbrev pub entered : Rows
  entered = add_position (new_position d t s.next_id) (add_order (new_order env d t s) s)

  abbrev pub blocked : Rows
  blocked =
      apply_row
        (ledger_row LedgerTxnType.trade_debit (neg t.margin_required) LedgerRef.virtual_order
          s.next_id entered)
        entered

  abbrev pub charged : Rows
  charged =
      apply_row
        (ledger_row LedgerTxnType.charge (neg t.entry_brokerage) LedgerRef.virtual_order s.next_id
          blocked)
        blocked

  abbrev pub booked : Rows
  booked = set_session (increment_trade_count session) charged

  -- What `book` does behind the order's rows, step by step.
  abbrev count_trade : Action (VirtualOrder × Bool)
  count_trade =
      modify (set_session (increment_trade_count session)) >> pure (new_order env d t s, false)

  abbrev charge_entry : Action (VirtualOrder × Bool)
  charge_entry = charge t.entry_brokerage LedgerRef.virtual_order s.next_id >> count_trade

  pub book-booked :
      0 < t.margin_required
      → 0 < t.entry_brokerage
      → pos (t.margin_required + t.entry_brokerage) ≤ℤ s.account.balance
      → book env d t session s ≡ (ok (new_order env d t s, false), booked)
  unfolding book block_margin charge new_order
  book-booked m b enough =
      let covered = debits_covered s.account.balance t.margin_required t.entry_brokerage enough in
      let first =
        post-covered LedgerTxnType.trade_debit (neg t.margin_required) LedgerRef.virtual_order
          s.next_id entered (neg-ne_zero _ m) covered.0 in
      let second =
        post-covered LedgerTxnType.charge (neg t.entry_brokerage) LedgerRef.virtual_order s.next_id
          blocked (neg-ne_zero _ b) covered.1 in
      >>=-ok (block_margin t.margin_required LedgerRef.virtual_order s.next_id) (λ _. charge_entry)
        entered blocked tt first
      ∙ >>=-ok (charge t.entry_brokerage LedgerRef.virtual_order s.next_id) (λ _. count_trade)
          blocked charged tt second

  -- The two movements keep the ledger reconciled.
  pub booked-IsReconciled :
      pos (t.margin_required + t.entry_brokerage) ≤ℤ s.account.balance
      → IsReconciled s
      → IsReconciled booked
  unfolding set_session
  booked-IsReconciled enough h =
      let covered = debits_covered s.account.balance t.margin_required t.entry_brokerage enough in
      apply_row-IsReconciled LedgerTxnType.charge (neg t.entry_brokerage) LedgerRef.virtual_order
        s.next_id blocked
        (apply_row-IsReconciled LedgerTxnType.trade_debit (neg t.margin_required)
          LedgerRef.virtual_order s.next_id entered h covered.0)
        covered.1
