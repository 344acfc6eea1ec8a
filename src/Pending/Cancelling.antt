-- ===== src/Pending/Cancelling.antt =====
-- Cancelling a resting order.
use mathlib.Core.Path.{subst}
use strikefluency.Pending.Park.{
  close_and_refund, find_pending, cancel_pending_order, cancel_found, close_pending,
}
use strikefluency.Pending.Reserve.{
  find_pending-id, find_pending-own, Returned, refunded-Returned, close_and_refund-refunded,
  refunded,
}
use strikefluency.Market.{Env}
use strikefluency.Prelude.{
  refl, Bool-cases, inr, arith, false, true, inl, Option-cases, some, ◌≡◌, ◌≤ℤ◌, pos, ℕ,
}
use strikefluency.Models.Records.{PendingOrder, Rows}
use strikefluency.Action.{pure, pending_order_not_cancellable, err, ok, Result}
use strikefluency.Models.Terms.{PendingOrderStatus, is_pending_status}
use strikefluency.Action.Sequence.{>>=-ok}

-- How a cancellation of the order `id` ended.
abbrev pub Cancelled : Env → ℕ → Rows → Result (PendingOrder × ℕ) × Rows → Type 0
Cancelled env id s (ok (p', released), s') =
    (p : PendingOrder) × (find_pending id s ≡ some p)
    × (is_pending_status p.status ≡ true)
    × (p' ≡ close_pending env PendingOrderStatus.cancelled p)
    × (released ≡ p.margin_blocked)
    × Returned env PendingOrderStatus.cancelled p s s'
    × (cancel_pending_order env id s' ≡ (err pending_order_not_cancellable, s'))
Cancelled env id s (err e, s') =
    (s' ≡ s)
    × ((p : PendingOrder) → find_pending id s ≡ some p → is_pending_status p.status ≡ false)

cancel_again :
    (env : Env) (id : ℕ) (p : PendingOrder) (s : Rows)
    → find_pending id s ≡ some p
    → is_pending_status p.status ≡ false
    → cancel_pending_order env id s ≡ (err pending_order_not_cancellable, s)
unfolding cancel_pending_order cancel_found
cancel_again env id p s found done = rw (found, done) refl

-- A cancellation, with a balance not below zero: a resting order is withdrawn and exactly its
-- margin comes back, so that balance and reserve together are what they were, the ledger stays
-- reconciled and a second cancellation is refused; and where there is no resting order of the id
-- the call raises and changes nothing.
pub cancel_pending_order-Cancelled :
    (env : Env) (id : ℕ) (s : Rows)
    → pos 0 ≤ℤ s.account.balance
    → Cancelled env id s (cancel_pending_order env id s)
unfolding cancel_pending_order cancel_found
cancel_pending_order-Cancelled env id s floor = elim (Option-cases (find_pending id s)) [
  | inl missing ↦ rw missing (refl, λ p found. ground arith)
  | inr (p, found) ↦ elim (Bool-cases (is_pending_status p.status)) [
    | inr done ↦ rw (found, done) (refl, λ p' found'. let e : p' ≡ p = cc in rw e done)
    | inl resting ↦
        let found' = find_pending-own id s p found in
        let after = refunded env PendingOrderStatus.cancelled p s floor in
        let returned = refunded-Returned env PendingOrderStatus.cancelled p s floor found' in
        let found_after =
          subst
            (λ i. find_pending i after ≡ some (close_pending env PendingOrderStatus.cancelled p))
            (find_pending-id id s p found) returned.found in
        let ran =
          >>=-ok {B = PendingOrder × ℕ} (close_and_refund env PendingOrderStatus.cancelled p)
            (λ _. pure (close_pending env PendingOrderStatus.cancelled p, p.margin_blocked)) s after
            tt (close_and_refund-refunded env PendingOrderStatus.cancelled p s floor) in
        rw (found, resting, ran)
          (
            p,
            found,
            resting,
            refl,
            refl,
            returned,
            cancel_again env id (close_pending env PendingOrderStatus.cancelled p) after found_after
                refl,
          )
  ]
]
