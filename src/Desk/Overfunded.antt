-- ===== src/Desk/Overfunded.antt =====
-- The discipline mode switched off while limit orders rest.
use strikefluency.Market.{Env}
use strikefluency.Prelude.{
  refl, ◌∙◌, inr, inl, pos, ◌+ℤ◌, ◌≡◌, none, false, arith, ◌≤ℤ◌, ℕ, ◌<ℤ◌, ℤ,
}
use strikefluency.Models.Records.{Rows}
use strikefluency.Desk.Invariant.{Inv}
use strikefluency.DisciplineMode.Switch.{set_mode, target_balance}
use strikefluency.Pending.Park.{expire_pending_orders}
use strikefluency.Pending.Reserve.{reserved}
use strikefluency.DisciplineMode.Unlocking.{switched_off}
use strikefluency.Desk.Continuing.{SwitchedOff-Continues, Continues-Inv}
use strikefluency.Pending.Expiry.{expire_pending_orders_all}

overfunded : (a b : ℤ) → a <ℤ b → b ≤ℤ a → ⊥
overfunded a b h k = omega arith

-- Where the balance is below what the switch tops it up to, with rows in order: once the switch is
-- off and the resting orders have expired, the balance is that target and all that the orders had
-- reserved on top. The margin of open positions is counted against the full capital, and the margin
-- of resting orders is not.
pub set_mode-overfunds :
    (env : Env) (strategy_margin : ℕ) (s : Rows)
    → Inv s
    → s.account.balance <ℤ target_balance strategy_margin s
    → let s' = (set_mode strategy_margin false s).1 in
      (expire_pending_orders env none s').1.account.balance
      ≡ target_balance strategy_margin s +ℤ pos (reserved s)
set_mode-overfunds env m s inv below =
    let (t, ran, off) = switched_off m s inv.reconciled.1 in
    let topped : t.account.balance ≡ target_balance m s = elim off.no_more [
      | inl same ↦
          absurd (overfunded s.account.balance (target_balance m s) below (rw same at off.reached))
      | inr reached ↦ reached
    ] in
    let inv' = Continues-Inv s t (SwitchedOff-Continues m s t off) inv in
    let (_, _, balance) =
      expire_pending_orders_all env t inv'.book.distinct inv'.reconciled.1 inv'.book.settled in
    rw ran (balance ∙ rw (topped, off.pendings_eq) refl)
