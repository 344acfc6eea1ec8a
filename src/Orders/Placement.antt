-- ===== src/Orders/Placement.antt =====
-- `place_order` as a client sees it: one of three ends, and safe to repeat.
use strikefluency.Prelude.{
  inr, inl, Bool-cases, Option-cases, ◌≤◌, ◌≡◌, Bool, true, false, none, some, refl,
}
use strikefluency.Models.Records.{VirtualOrder, Rows}
use strikefluency.Action.{Result, ok, err}
use strikefluency.Clock.{is_market_open, require_market_open}
use strikefluency.Pricing.{IsUniform}
use strikefluency.Market.{Env}
use strikefluency.Orders.Request.{OrderData, lot_size_of}
use strikefluency.Orders.Queries.{find_client, matches_idempotent_payload}
use strikefluency.Orders.Place.{place_order, replay_or_place, place_new}
use strikefluency.Orders.Frame.{SameBooks, SameBooks-refl}
use strikefluency.Orders.Opening.{Opened, Outcome, place_new-Outcome}

-- A call that raised left the books alone; a replay changed nothing at all and returned the order
-- that the client's id already had, whose terms are those of the payload; and a new order was
-- opened only where the id had none.
abbrev pub Placed : OrderData → Rows → Result (VirtualOrder × Bool) × Rows → Type 0
Placed d s (err e, s') = SameBooks s s'
Placed d s (ok (o, true), s') =
    (s' ≡ s)
    × (find_client d.client_order_id s.orders ≡ some o)
    × (matches_idempotent_payload o d ≡ true)
Placed d s (ok (o, false), s') = (find_client d.client_order_id s.orders ≡ none) × Opened d s o s'

Placed-Outcome :
    (d : OrderData) (s : Rows) (p : Result (VirtualOrder × Bool) × Rows)
    → find_client d.client_order_id s.orders ≡ none
    → Outcome d s p
    → Placed d s p
Placed-Outcome d s (err e, s') absent h = h
Placed-Outcome d s (ok (o, true), s') absent h = absurd h
Placed-Outcome d s (ok (o, false), s') absent h = (absent, h)

module _ (env : Env) (d : OrderData) (uniform : IsUniform env.draw) (lots : 1 ≤ d.quantity)
    (lot : 3 ≤ lot_size_of d) where
  replay_or_place-Placed :
      (s : Rows) → Placed d s (replay_or_place env d (find_client d.client_order_id s.orders) s)
  unfolding replay_or_place
  replay_or_place-Placed s = elim (Option-cases (find_client d.client_order_id s.orders)) [
    | inl e ↦
        rw e (Placed-Outcome d s (place_new env d s) e (place_new-Outcome env d uniform lots lot s))
    | inr (o, e) ↦ elim (Bool-cases (matches_idempotent_payload o d)) [
      | inl same ↦ rw (e, same) (refl, e, same)
      | inr other ↦ rw (e, other) (SameBooks-refl s)
    ]
  ]

  -- Every call of `place_order`, with one lot or more of a contract of three units or more and
  -- slippage draws within their bounds, either
  -- raises and leaves the account, the orders, the positions, the pending orders, the ledger and
  -- the journal as they were; or returns the order that the client's id already has, when the
  -- payload asks for the same, and changes nothing; or adds one open order and its open position
  -- under a fresh id, takes exactly the blocked margin and the entry brokerage from the balance,
  -- which stays at zero or above, and keeps the ledger reconciled.
  pub place_order-Placed : (s : Rows) → Placed d s (place_order env d s)
  unfolding place_order require_market_open
  place_order-Placed s = elim (Bool-cases (is_market_open env.now)) [
    | inl opened ↦ rw opened (replay_or_place-Placed s)
    | inr shut ↦ rw shut (SameBooks-refl s)
  ]
