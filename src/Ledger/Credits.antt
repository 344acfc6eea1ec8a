-- ===== src/Ledger/Credits.antt =====
-- Money that comes back: a credit that is posted unless it is zero.
use strikefluency.Ledger.Post.{release_margin, ledger_row, apply_row}
use strikefluency.Ledger.Balance.{IsReconciled, apply_row-IsReconciled, post-covered}
use strikefluency.Models.Terms.{LedgerRef, LedgerTxnType}
use strikefluency.Models.Records.{Rows}
use strikefluency.Prelude.{
  pos-ne_zero, false, ◌==◌, if◌then◌else◌, refl, int_laws, sym, zero, ◌≤ℤ◌, arith, pos, suc, ℕ,
  ◌+ℤ◌, ◌≡◌, ℤ,
}
use strikefluency.Action.{ok, pure}

+ℤ_pos_nonneg : (a : ℤ) (n : ℕ) → pos 0 ≤ℤ a → pos 0 ≤ℤ a +ℤ pos n
+ℤ_pos_nonneg a n h = omega int_laws

+ℤ_right_zero : (a : ℤ) → a +ℤ pos 0 ≡ a
+ℤ_right_zero a = omega int_laws

-- A posting changes the balance and the ledger alone.
pub record SameTables (s s' : Rows) : Type 0 where
  pub orders_eq : s'.orders ≡ s.orders
  pub positions_eq : s'.positions ≡ s.positions
  pub sessions_eq : s'.sessions ≡ s.sessions
  pub pendings_eq : s'.pendings ≡ s.pendings
  pub journal_eq : s'.journal ≡ s.journal
  pub rules_eq : s'.rules ≡ s.rules
  pub leverage_eq : s'.leverage_enabled ≡ s.leverage_enabled
  pub next_id_eq : s'.next_id ≡ s.next_id
  pub violations_eq : s'.violations ≡ s.violations
  pub scores_eq : s'.scores ≡ s.scores
  pub flushed_eq : (s'.db_orders ≡ s.db_orders) × (s'.db_scores ≡ s.db_scores)
  pub account_eq : s'.account ≡ record (s.account) { balance = s'.account.balance }

module _ (txn_type : LedgerTxnType) (ref : LedgerRef) where
  -- The rows once `amount` is back.
  abbrev pub credited : ℕ → ℕ → Rows → Rows
  credited zero id s = s
  credited (suc n) id s = apply_row (ledger_row txn_type (pos (suc n)) ref id s) s

  pub release_margin-credited :
      (amount id : ℕ) (s : Rows)
      → pos 0 ≤ℤ s.account.balance
      → (if amount == 0 then pure tt else release_margin txn_type amount ref id) s
        ≡ (ok tt, credited amount id s)
  unfolding release_margin
  release_margin-credited zero id s floor = refl
  release_margin-credited (suc n) id s floor =
      let e : (suc n == 0) ≡ false = ground arith in
      rw e (
        post-covered txn_type (pos (suc n)) ref id s (pos-ne_zero (suc n) (omega arith))
          (+ℤ_pos_nonneg s.account.balance (suc n) floor))

  pub credited-balance :
      (amount id : ℕ) (s : Rows)
      → (credited amount id s).account.balance ≡ s.account.balance +ℤ pos amount
  credited-balance zero id s = sym (+ℤ_right_zero s.account.balance)
  credited-balance (suc n) id s = refl

  pub credited-floor :
      (amount id : ℕ) (s : Rows)
      → pos 0 ≤ℤ s.account.balance
      → pos 0 ≤ℤ (credited amount id s).account.balance
  credited-floor amount id s h =
      rw (credited-balance amount id s) (+ℤ_pos_nonneg s.account.balance amount h)

  pub credited-IsReconciled :
      (amount id : ℕ) (s : Rows) → IsReconciled s → IsReconciled (credited amount id s)
  credited-IsReconciled zero id s h = h
  credited-IsReconciled (suc n) id s h =
      apply_row-IsReconciled txn_type (pos (suc n)) ref id s h
        (+ℤ_pos_nonneg s.account.balance (suc n) h.1)

  pub credited-SameTables : (amount id : ℕ) (s : Rows) → SameTables s (credited amount id s)
  credited-SameTables zero id s = ground arith
  credited-SameTables (suc n) id s = ground arith
