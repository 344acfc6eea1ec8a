-- ===== src/Orders/Settlement.antt =====
-- What a close does to the money: it goes through exactly when the balance, with the released
-- margin, covers the result.
use strikefluency.Prelude.{
  ◌∙◌, Option, refl, eqb_ℤ_iff, inr, ◌<ℤ◌, inl, ◌≢◌, Bool-cases, sym, arith, int_laws, eqb_ℤ, ltb_ℤ,
  ◌≡◌, ◌≤ℤ◌, if◌then◌else◌, pos, ◌+ℤ◌, ℤ, ℕ,
}
use strikefluency.Models.Terms.{ExitReason, LedgerTxnType, LedgerRef}
use strikefluency.Models.Records.{VirtualOrder, VirtualPosition, TradingSession, Rows}
use strikefluency.Action.{modify, ◌>>◌, Action, pure, ok, err, insufficient_balance}
use strikefluency.Market.{Env}
use strikefluency.Ledger.Balance.{IsReconciled, apply_row-IsReconciled, post-covered, post-short}
use strikefluency.Orders.Close.{
  Exit, settle, release, closed_rows, wrap_up, margin_of, close_order, compliant_after,
}
use strikefluency.Ledger.{settle_pnl, ledger_row, apply_row}
use strikefluency.Action.Sequence.{>>=-err, >>=-ok}
use strikefluency.Ledger.Credits.{
  credited, credited-IsReconciled, credited-balance, release_margin-credited,
}

-- The rows once the margin is back.
abbrev pub released : ℕ → ℕ → Rows → Rows
released = credited LedgerTxnType.trade_credit LedgerRef.virtual_order

abbrev side : ℤ → LedgerTxnType
side net = if ltb_ℤ (pos 0) net then LedgerTxnType.trade_credit else LedgerTxnType.trade_debit

-- The rows once the result is settled.
abbrev pub settled : ℤ → ℕ → Rows → Rows
settled net id s =
    if eqb_ℤ net (pos 0)
    then s
    else apply_row (ledger_row (side net) net LedgerRef.virtual_order id s) s

+ℤ_right_zero : (a : ℤ) → a +ℤ pos 0 ≡ a
+ℤ_right_zero a = omega int_laws

flat_covered : (a : ℤ) (n : ℕ) → pos 0 ≤ℤ a → pos 0 ≤ℤ a +ℤ pos n +ℤ pos 0
flat_covered a n h = omega int_laws

not_covered : (a : ℤ) → ¬ (pos 0 ≤ℤ a) → a <ℤ pos 0
not_covered a h = omega arith

release-released :
    (margin id : ℕ) (s : Rows)
    → pos 0 ≤ℤ s.account.balance
    → release margin id s ≡ (ok tt, released margin id s)
unfolding release
release-released = release_margin-credited LedgerTxnType.trade_credit LedgerRef.virtual_order

pub released-balance :
    (margin id : ℕ) (s : Rows)
    → (released margin id s).account.balance ≡ s.account.balance +ℤ pos margin
released-balance = credited-balance LedgerTxnType.trade_credit LedgerRef.virtual_order

pub released-IsReconciled :
    (margin id : ℕ) (s : Rows) → IsReconciled s → IsReconciled (released margin id s)
released-IsReconciled = credited-IsReconciled LedgerTxnType.trade_credit LedgerRef.virtual_order

module _ (net : ℤ) (id : ℕ) (s : Rows) where
  pub settle_pnl-settled :
      pos 0 ≤ℤ s.account.balance +ℤ net
      → settle_pnl net LedgerRef.virtual_order id s ≡ (ok tt, settled net id s)
  unfolding settle_pnl
  settle_pnl-settled covered = elim (Bool-cases (eqb_ℤ net (pos 0))) [
    | inl flat ↦ rw flat
    | inr moved ↦ rw moved (
        post-covered (side net) net LedgerRef.virtual_order id s ((eqb_ℤ_iff net (pos 0)).1 moved)
          covered)
  ]

  pub settle_pnl-short :
      net ≢ pos 0
      → s.account.balance +ℤ net <ℤ pos 0
      → settle_pnl net LedgerRef.virtual_order id s ≡ (err insufficient_balance, s)
  unfolding settle_pnl
  settle_pnl-short ne short = elim (Bool-cases (eqb_ℤ net (pos 0))) [
    | inl flat ↦ absurd (ne ((eqb_ℤ_iff net (pos 0)).0 flat))
    | inr moved ↦ rw moved (post-short (side net) net LedgerRef.virtual_order id s ne short)
  ]

  pub settled-balance : (settled net id s).account.balance ≡ s.account.balance +ℤ net
  settled-balance = elim (Bool-cases (eqb_ℤ net (pos 0))) [
    | inl flat ↦ rw (flat, (eqb_ℤ_iff net (pos 0)).0 flat) (sym (+ℤ_right_zero s.account.balance))
    | inr moved ↦ rw moved refl
  ]

  pub settled-IsReconciled :
      pos 0 ≤ℤ s.account.balance +ℤ net → IsReconciled s → IsReconciled (settled net id s)
  settled-IsReconciled covered h = elim (Bool-cases (eqb_ℤ net (pos 0))) [
    | inl flat ↦ rw flat h
    | inr moved ↦
        rw moved (apply_row-IsReconciled (side net) net LedgerRef.virtual_order id s h covered)
  ]

module _ (env : Env) (o : VirtualOrder) (position : Option VirtualPosition) (reason : ExitReason)
    (session : TradingSession) (x : Exit) (s : Rows) where
  abbrev marked : Rows
  marked = closed_rows env o reason x s

  abbrev freed : Rows
  freed = released (margin_of position) o.id marked

  -- The rows after a close that went through.
  abbrev pub closed_state : Rows
  closed_state = wrap_up env o reason session x (settled x.net_pnl o.id freed)

  abbrev finish : Action VirtualOrder
  finish =
      modify (wrap_up env o reason session x)
      >> pure (record (close_order env reason x o) {
        is_discipline_compliant = compliant_after o reason;
      })

  abbrev settle_result : Action VirtualOrder
  settle_result = settle_pnl x.net_pnl LedgerRef.virtual_order o.id >> finish

  -- The balance with the margin back covers the result.
  abbrev pub IsCovered : Type 0
  IsCovered = pos 0 ≤ℤ s.account.balance +ℤ pos (margin_of position) +ℤ x.net_pnl

  freed-balance : freed.account.balance ≡ s.account.balance +ℤ pos (margin_of position)
  freed-balance = released-balance (margin_of position) o.id marked

  pub settle-closed :
      pos 0 ≤ℤ s.account.balance
      → IsCovered
      → settle env o position reason session x s ≡ (
        ok (record (close_order env reason x o) {
          is_discipline_compliant = compliant_after o reason;
        }),
        closed_state,
      )
  unfolding settle
  settle-closed floor covered =
      >>=-ok (release (margin_of position) o.id) (λ _. settle_result) marked freed tt
        (release-released (margin_of position) o.id marked floor)
      ∙ >>=-ok (settle_pnl x.net_pnl LedgerRef.virtual_order o.id) (λ _. finish) freed
          (settled x.net_pnl o.id freed) tt
          (settle_pnl-settled x.net_pnl o.id freed (rw freed-balance covered))

  -- A close that is refused for the money has written the order and the position as closed, and
  -- given the margin back, before it raises.
  pub settle-short :
      pos 0 ≤ℤ s.account.balance
      → ¬ IsCovered
      → settle env o position reason session x s ≡ (err insufficient_balance, freed)
  unfolding settle
  settle-short floor short =
      >>=-ok (release (margin_of position) o.id) (λ _. settle_result) marked freed tt
        (release-released (margin_of position) o.id marked floor)
      ∙ >>=-err (settle_pnl x.net_pnl LedgerRef.virtual_order o.id) (λ _. finish) freed freed
          insufficient_balance
          (settle_pnl-short x.net_pnl o.id freed
            (λ flat. short (rw flat (flat_covered s.account.balance (margin_of position) floor)))
            (rw freed-balance (not_covered _ short)))
