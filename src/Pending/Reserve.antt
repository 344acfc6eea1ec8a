-- ===== src/Pending/Reserve.antt =====
-- The money that resting orders hold, and what leaves it when one is closed.
use mathlib.Core.Path.{subst}
use strikefluency.Pending.Park.{
  close_pending, close_and_refund, refund_margin, put_pending, find_pending, has_pending_id,
}
use strikefluency.Market.{Env}
use strikefluency.Prelude.{
  find-holds, sym, refl, ==_iff, find-modify_first, sum_of-modify_first, modify_first, int_laws,
  some, ◌≡◌, ◌≤ℤ◌, pos, sum_of, ◌+◌, ℕ, ◌+ℤ◌, ℤ,
}
use strikefluency.Models.Records.{PendingOrder, Rows}
use strikefluency.Models.Terms.{LedgerRef, LedgerTxnType, PendingOrderStatus}
use strikefluency.Ledger.Credits.{
  credited-IsReconciled, credited-floor, credited-balance, credited-SameTables,
  release_margin-credited, credited,
}
use strikefluency.Action.{ok}
use strikefluency.Ledger.Balance.{IsReconciled}

-- The order that is found for an id has that id.
pub find_pending-id :
    (id : ℕ) (s : Rows) (p : PendingOrder) → find_pending id s ≡ some p → p.id ≡ id
find_pending-id id s p found =
    (==_iff p.id id).0 (find-holds (has_pending_id id) s.pendings p found)

pub find_pending-own :
    (id : ℕ) (s : Rows) (p : PendingOrder)
    → find_pending id s ≡ some p
    → find_pending p.id s ≡ some p
find_pending-own id s p found =
    subst (λ i. find_pending i s ≡ some p) (sym (find_pending-id id s p found)) found

-- What the pending orders hold back.
abbrev pub reserved : Rows → ℕ
reserved s = sum_of (λ p. p.margin_blocked) s.pendings

-- The money of the account with what is held back: no movement between the two changes it.
abbrev pub worth : Rows → ℤ
worth s = s.account.balance +ℤ pos (reserved s)

-- A pending order that left the book: it is at its terminal status with nothing reserved, the
-- balance has its margin back, the ledger stays reconciled, the worth is what it was, and
-- nothing else has changed.
pub record Returned (env : Env) (status : PendingOrderStatus) (p : PendingOrder) (s s' : Rows)
    : Type 0 where
  pub found : find_pending p.id s' ≡ some (close_pending env status p)
  pub pendings_eq :
      s'.pendings ≡ modify_first (has_pending_id p.id) (close_pending env status) s.pendings
  pub balance_eq : s'.account.balance ≡ s.account.balance +ℤ pos p.margin_blocked
  pub worth_eq : worth s' ≡ worth s
  pub floor : pos 0 ≤ℤ s'.account.balance
  pub orders_eq : s'.orders ≡ s.orders
  pub positions_eq : s'.positions ≡ s.positions
  pub journal_eq : s'.journal ≡ s.journal
  pub next_id_eq : s'.next_id ≡ s.next_id
  pub account_eq : s'.account ≡ record (s.account) { balance = s'.account.balance }
  pub sessions_eq : s'.sessions ≡ s.sessions
  pub rules_eq : s'.rules ≡ s.rules
  pub violations_eq : s'.violations ≡ s.violations
  pub scores_eq : s'.scores ≡ s.scores
  pub leverage_eq : s'.leverage_enabled ≡ s.leverage_enabled
  pub reconciled : IsReconciled s → IsReconciled s'

worth_moves : (b : ℤ) (m r r' : ℕ) → r' + m ≡ r + 0 → b +ℤ pos m +ℤ pos r' ≡ b +ℤ pos r
worth_moves b m r r' h = omega int_laws

module _ (env : Env) (status : PendingOrderStatus) (p : PendingOrder) (s : Rows)
    (floor : pos 0 ≤ℤ s.account.balance) where
  abbrev pub marked : Rows
  marked = put_pending p.id (close_pending env status) s

  abbrev pub refunded : Rows
  refunded = credited LedgerTxnType.refund LedgerRef.pending_order p.margin_blocked p.id marked

  pub close_and_refund-refunded : close_and_refund env status p s ≡ (ok tt, refunded)
  unfolding close_and_refund refund_margin
  close_and_refund-refunded =
      release_margin-credited LedgerTxnType.refund LedgerRef.pending_order p.margin_blocked p.id
        marked floor

  pub refunded-Returned : find_pending p.id s ≡ some p → Returned env status p s refunded
  refunded-Returned found =
      let same =
        credited-SameTables LedgerTxnType.refund LedgerRef.pending_order p.margin_blocked p.id
          marked in
      let money =
        credited-balance LedgerTxnType.refund LedgerRef.pending_order p.margin_blocked p.id
          marked in
      let sums =
        sum_of-modify_first (λ (p : PendingOrder). p.margin_blocked) (has_pending_id p.id)
          (close_pending env status) p s.pendings found in
      record {
        found = rw same.pendings_eq (
            find-modify_first (has_pending_id p.id) (close_pending env status) p s.pendings found
              ((==_iff p.id p.id).1 refl));
        pendings_eq = same.pendings_eq;
        balance_eq = money;
        worth_eq =
            rw (money, same.pendings_eq)
              (worth_moves s.account.balance p.margin_blocked (reserved s) _ sums);
        floor =
            credited-floor LedgerTxnType.refund LedgerRef.pending_order p.margin_blocked p.id marked
              floor;
        orders_eq = same.orders_eq;
        positions_eq = same.positions_eq;
        journal_eq = same.journal_eq;
        next_id_eq = same.next_id_eq;
        account_eq = same.account_eq;
        sessions_eq = same.sessions_eq;
        rules_eq = same.rules_eq;
        violations_eq = same.violations_eq;
        scores_eq = same.scores_eq;
        leverage_eq = same.leverage_eq;
        reconciled =
            credited-IsReconciled LedgerTxnType.refund LedgerRef.pending_order p.margin_blocked p.id
              marked;
      }
