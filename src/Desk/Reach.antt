-- ===== src/Desk/Reach.antt =====
-- A user's rows over time. Each event has a clock and market data of its own, and is one request
-- in its transaction, or one sweep of the schedulers.
use strikefluency.Models.Records.{PendingOrder, Rows}
use strikefluency.Action.{err, ok, request, Result}
use strikefluency.Pending.Park.{
  cancel_pending_order, place_pending_order, limit_of, expire_pending_orders, PendingData,
}
use strikefluency.Market.{Env}
use strikefluency.Orders.Request.{lot_size_of, OrderData}
use strikefluency.Prelude.{ap, true, false, ◌≡◌, All, Bool, Option, none, ◌<◌, ℕ, ◌≤◌}
use strikefluency.Desk.Continuing.{
  Switched-Continues, Swept-Continues, Edited-Continues, close_position-Continues, Placed-Continues,
  Continues-Inv, Continues,
}
use strikefluency.Pricing.{IsUniform}
use strikefluency.Desk.Invariant.{IsSized, Inv}
use strikefluency.Orders.Place.{place_order}
use strikefluency.Models.Terms.{PendingOrderStatus, is_pending_status, ExitReason}
use strikefluency.Desk.Resting.{
  scan_and_fill-Inv, expire_pending_orders-Inv, Parked-Inv, Returned-Inv, flush-Inv,
}
use strikefluency.Orders.Close.{close_position}
use strikefluency.Pending.Cancelling.{cancel_pending_order-Cancelled, Cancelled}
use strikefluency.Orders.Protection.{
  with_exit_limit, with_protection, update_order_exit_limit, update_order_protection,
}
use strikefluency.Pending.Parking.{place_pending_order-Rests, Rests}
use strikefluency.Orders.Placement.{place_order-Placed}
use strikefluency.Pending.Reserve.{worth, reserved}
use strikefluency.Pending.Trigger.{scan_and_fill}
use strikefluency.Orders.Editing.{update_order_exit_limit-Edited, update_order_protection-Edited}
use strikefluency.AutoExit.Sweep.{scan_and_exit}
use strikefluency.Ledger.Balance.{balance-eq-total, total}
use strikefluency.Pending.Expiry.{expire_pending_orders_all}
use strikefluency.Desk.Sweeping.{scan_and_exit-Inv}
use strikefluency.EndOfDay.Sweeps.{
  settle_expiring_options, square_off_standalone, emergency_exit_buy_positions,
}
use strikefluency.EndOfDay.Emergency.{emergency_exit_buy_positions-Swept}
use strikefluency.EndOfDay.Emptied.{settle_expiring_options-Swept, square_off_standalone-Swept}
use strikefluency.DisciplineMode.Switch.{set_mode}
use strikefluency.DisciplineMode.Unlocking.{set_mode-Switched}

-- What can happen to a user's rows.
pub data Event : Type 0 where
  place : OrderData → Event
  close : ℕ → ExitReason → Option ℕ → Event
  protection : ℕ → Option ℕ → Option ℕ → Event
  exit_limit : ℕ → Option ℕ → Event
  park_limit : PendingData → Event
  cancel : ℕ → Event
  expire : Option ℕ → Event
  fill_sweep : Event
  exit_sweep : Event
  emergency_exit : Event
  square_off : Event
  settle : Option ℕ → Event
  switch_mode : ℕ → Bool → Event

-- The rows that an event commits.
abbrev pub happen : Env → Event → Rows → Rows
happen env (place d) s = (request (place_order env d) s).1
happen env (close id reason exit_ltp) s = (request (close_position env id reason exit_ltp) s).1
happen env (protection id sl target) s = (request (update_order_protection id sl target) s).1
happen env (exit_limit id limit) s = (request (update_order_exit_limit id limit) s).1
happen env (park_limit d) s = (request (place_pending_order env d) s).1
happen env (cancel id) s = (request (cancel_pending_order env id) s).1
happen env (expire before) s = (request (expire_pending_orders env before) s).1
happen env fill_sweep s = (scan_and_fill env s).1
happen env exit_sweep s = (scan_and_exit env s).1
happen env emergency_exit s = (request (emergency_exit_buy_positions env) s).1
happen env square_off s = (square_off_standalone env s).1
happen env (settle as_of) s = (settle_expiring_options env as_of s).1
happen env (switch_mode strategy_margin enabled) s =
    (request (set_mode strategy_margin enabled) s).1

-- One lot or more of a contract of three units or more, and a limit of a paisa or more.
abbrev pub IsSound : Event → Type 0
IsSound (place d) = (1 ≤ d.quantity) × (3 ≤ lot_size_of d)
IsSound (park_limit d) = (0 < limit_of d) × (1 ≤ d.terms.quantity) × (3 ≤ lot_size_of d.terms)
IsSound _ = Unit

-- The rows that can follow from `s`.
pub data Reach (s : Rows) : Rows → Type 0 where
  start : Reach s s
  next :
      {t : Rows}
      → (env : Env) (e : Event) → IsUniform env.draw
      → IsSound e
      → Reach s t
      → Reach s (happen env e t)

-- A request whose call leaves rows in order where it returns.
abbrev Good {ℓ} : {A : Type ℓ} → Result A × Rows → Type 0
Good (ok _, s') = Inv s'
Good (err _, s') = Unit

module _ {A : Type 0} where
  request-Inv : (r : Result A × Rows) (s : Rows) → Inv s → Good r → Inv (request (λ _. r) s).1
  request-Inv (ok a, s') s inv h = flush-Inv s' h
  request-Inv (err e, s') s inv h = inv

  Inv-Good : (r : Result A × Rows) → Inv r.1 → Good r
  Inv-Good (ok a, s') h = h
  Inv-Good (err e, s') h = tt

  -- A call that continues the books, in its transaction.
  continued-Inv :
      (r : Result A × Rows) (s : Rows) → Continues s r.1 → Inv s → Inv (request (λ _. r) s).1
  continued-Inv r s h inv = request-Inv r s inv (Inv-Good r (Continues-Inv s r.1 h inv))

Rests-Good :
    (d : PendingData) (s : Rows) (r : Result (PendingOrder × Bool) × Rows)
    → IsSound (park_limit d)
    → Rests d s r
    → Inv s
    → Good r
Rests-Good d s (err e, s') sound h inv = tt
Rests-Good d s (ok (p, true), s') sound (same, _, _) inv = rw same inv
Rests-Good d s (ok (p, false), s') (_, lots, lot) (_, parked) inv =
    let sized : IsSized p = rw (parked.quantity_eq, parked.lot_size_eq) (lots, lot) in
    Parked-Inv d s s' p sized parked inv

Cancelled-Good :
    (env : Env) (id : ℕ) (s : Rows) (r : Result (PendingOrder × ℕ) × Rows)
    → Cancelled env id s r
    → Inv s
    → Good r
Cancelled-Good env id s (err e, s') h inv = tt
Cancelled-Good env id s (ok (p', n), s') (p, _, _, _, _, returned, _) inv =
    Returned-Inv env PendingOrderStatus.cancelled p s s' returned inv

-- Every event keeps the invariant, with slippage draws within their bounds and a payload of one
-- lot or more of a contract of three units or more.
happen-Inv :
    (env : Env) (e : Event) (s : Rows)
    → IsUniform env.draw
    → IsSound e
    → Inv s
    → Inv (happen env e s)
happen-Inv env (place d) s uniform (lots, lot) inv =
    let r = place_order env d s in
    continued-Inv r s (Placed-Continues d s r (place_order-Placed env d uniform lots lot s)) inv
happen-Inv env (close id reason exit_ltp) s uniform sound inv =
    continued-Inv (close_position env id reason exit_ltp s) s
      (close_position-Continues env reason exit_ltp s inv.reconciled.1 id) inv
happen-Inv env (protection id sl target) s uniform sound inv =
    let r = update_order_protection id sl target s in
    continued-Inv r s
      (Edited-Continues _ (with_protection sl target) id s r
        (update_order_protection-Edited id sl target s))
      inv
happen-Inv env (exit_limit id limit) s uniform sound inv =
    let r = update_order_exit_limit id limit s in
    continued-Inv r s
      (Edited-Continues _ (with_exit_limit limit) id s r
        (update_order_exit_limit-Edited id limit s))
      inv
happen-Inv env (park_limit d) s uniform sound inv =
    let r = place_pending_order env d s in
    let rests = place_pending_order-Rests env d sound.0 sound.1 sound.2 s in
    request-Inv r s inv (Rests-Good d s r sound rests inv)
happen-Inv env (cancel id) s uniform sound inv =
    let r = cancel_pending_order env id s in
    request-Inv r s inv
      (Cancelled-Good env id s r (cancel_pending_order-Cancelled env id s inv.reconciled.1) inv)
happen-Inv env (expire before) s uniform sound inv =
    let (s', n, ran, inv') = expire_pending_orders-Inv env before s inv in
    let left : Good (expire_pending_orders env before s) = rw ran inv' in
    request-Inv (expire_pending_orders env before s) s inv left
happen-Inv env fill_sweep s uniform sound inv = scan_and_fill-Inv env uniform s inv
happen-Inv env exit_sweep s uniform sound inv = scan_and_exit-Inv env s inv
happen-Inv env emergency_exit s uniform sound inv =
    let r = emergency_exit_buy_positions env s in
    continued-Inv r s
      (Swept-Continues s r.1 (emergency_exit_buy_positions-Swept env s inv.reconciled)) inv
happen-Inv env square_off s uniform sound inv =
    let s' = (square_off_standalone env s).1 in
    Continues-Inv s s' (Swept-Continues s s' (square_off_standalone-Swept env s inv.reconciled)) inv
happen-Inv env (settle as_of) s uniform sound inv =
    let s' = (settle_expiring_options env as_of s).1 in
    Continues-Inv s s'
      (Swept-Continues s s' (settle_expiring_options-Swept env as_of s inv.reconciled)) inv
happen-Inv env (switch_mode m enabled) s uniform sound inv =
    let r = set_mode m enabled s in
    let switched = set_mode-Switched m s inv.reconciled.1 enabled in
    continued-Inv r s (Switched-Continues m enabled s r switched) inv

-- Whatever sequence of requests and sweeps a user's rows go through, under whatever clocks and
-- market data, with slippage draws within their bounds and orders for one lot or more of a
-- contract of three units or more, at limits of a paisa or more: if the ledger was reconciled and
-- the book of resting orders in order, they still are. So the balance is the sum of the movements
-- of the ledger and never below zero, no two resting orders share an id, and no order that has left
-- the book holds money.
pub Reach-Inv : (s t : Rows) → Reach s t → Inv s → Inv t
Reach-Inv s t start inv = inv
Reach-Inv s t (next {t = u} env e uniform sound run) inv =
    happen-Inv env e u uniform sound (Reach-Inv s u run inv)

-- From rows in order, whatever has happened: the end-of-day expiry returns, and after it no order
-- rests, nothing is reserved, and the balance is all that the account and the book were worth.
pub Reach-settles :
    (env : Env) (s t : Rows)
    → Inv s
    → Reach s t
    → let t' = (expire_pending_orders env none t).1 in
      ((n : ℕ) × ((expire_pending_orders env none t).0 ≡ ok n))
      × All (λ p. is_pending_status p.status ≡ false) t'.pendings
      × (reserved t' ≡ 0)
      × (t'.account.balance ≡ worth t)
      × (t'.account.balance ≡ total t'.ledger)
Reach-settles env s t inv run =
    let inv_t = Reach-Inv s t run inv in
    let (s', n, ran, inv') = expire_pending_orders-Inv env none t inv_t in
    let (gone, empty, worth_eq) =
      expire_pending_orders_all env t inv_t.book.distinct inv_t.reconciled.1 inv_t.book.settled in
    ((n, ap (λ r. r.0) ran), gone, empty, worth_eq, rw ran (balance-eq-total s' inv'.reconciled))
