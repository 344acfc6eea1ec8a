-- ===== src/Orders/Idempotence.antt =====
-- A retried order: the client's id makes `place_order` safe to repeat.
use strikefluency.Prelude.{
  ◌==◌, ◌&&◌, inr, inl, sym, Bool-cases, ◌∙◌, if◌then◌else◌, find, arith, ℕ, ◌≤◌, ◌≡◌, Bool, true,
  false, none, some, refl, find-append_none, [], ◌∷◌, ==_iff,
}
use strikefluency.Models.Records.{VirtualOrder, Rows}
use strikefluency.Action.{ok, err, idempotency_conflict}
use strikefluency.Clock.{is_market_open, require_market_open}
use strikefluency.Pricing.{IsUniform}
use strikefluency.Market.{Env}
use strikefluency.Orders.Request.{
  is_whole, tag_or, product_or, prices_exact, OrderData, lot_size_of,
}
use strikefluency.Orders.Queries.{find_client, matches_idempotent_payload, opt_eq}
use strikefluency.Orders.Place.{place_order, replay_or_place}
use strikefluency.Orders.Placement.{Placed, place_order-Placed}
use strikefluency.Models.Terms.{tag_eq, product_eq, action_eq, option_type_eq, instrument_eq}

module _ (env : Env) (d : OrderData) (s : Rows) where
  -- A stored order answers a call with its client's id: with the order itself where the payload is
  -- that of the order, and with a conflict where it is another; in both cases nothing is written.
  place_order_stored :
      (o : VirtualOrder)
      → is_market_open env.now ≡ true
      → find_client d.client_order_id s.orders ≡ some o
      → (matches_idempotent_payload o d ≡ true → place_order env d s ≡ (ok (o, true), s))
        × (matches_idempotent_payload o d ≡ false
            → place_order env d s ≡ (err idempotency_conflict, s))
  unfolding place_order require_market_open replay_or_place
  place_order_stored o opened found =
      (λ same. rw (opened, found, same), λ other. rw (opened, found, other))

exact_conjuncts : (a b c d e f : Bool) → (a && (b && c) && (d && e) && f) ≡ true → (c && e) ≡ true
exact_conjuncts a b c d e f h = ground arith

-- A payload that is told to be that of an order has its prices in whole paise.
matching-exact :
    (o : VirtualOrder) (d : OrderData)
    → matches_idempotent_payload o d ≡ true
    → prices_exact d ≡ true
unfolding matches_idempotent_payload
matching-exact o d h =
    exact_conjuncts
      (instrument_eq o.instrument d.instrument
        && (o.expiry_date == d.expiry_date)
        && (o.strike_price == d.strike_price)
        && option_type_eq o.option_type d.option_type
        && action_eq o.action d.action
        && (o.quantity == d.quantity)
        && (o.lot_size == lot_size_of d)
        && product_eq o.product_type (product_or d.product_type))
      (opt_eq o.sl_price d.sl_price) (is_whole d.sl_price d.sl_is_exact)
      (opt_eq o.target_price d.target_price) (is_whole d.target_price d.target_is_exact)
      (tag_eq o.setup_tag (tag_or d.setup_tag)) h

found_after :
    (cid : ℕ) (d : OrderData) (s : Rows) (o : VirtualOrder) (b : Bool) (s' : Rows)
    → d.client_order_id ≡ some cid
    → Placed d s (ok (o, b), s')
    → (find_client d.client_order_id s'.orders ≡ some o)
      × (matches_idempotent_payload o d ≡ prices_exact d)
found_after cid d s o true s' e (same, found, matches) =
    (rw same found, matches ∙ sym (matching-exact o d matches))
found_after cid d s o false s' e (absent, opened) =
    let new : VirtualOrder → Bool = λ o. opt_eq o.client_order_id (some cid) in
    let hit : new o ≡ true = ground (arith, opened.client_eq, (==_iff cid cid).1 refl) in
    let absent' : find new s.orders ≡ none = rw e at absent in
    (
      rw (e, opened.orders_eq, find-append_none new s.orders (o ∷ []) absent') (rw hit),
      opened.matches_eq,
    )

-- Placing is idempotent for prices in whole paise, for one lot or more of a contract of three units
-- or more and slippage draws within their bounds. Once an order with a client's id has been placed,
-- the same payload sent again, at any later time at which the market is open and whatever the
-- market data and the random generator then are, changes nothing: no second position, no second
-- charge. It returns the same order as a replay where the stop loss and the target have no more
-- than two decimals, and is refused as a conflict where one has more.
pub place_order_repeated :
    (env later : Env) (d : OrderData) (cid : ℕ) (s : Rows) (o : VirtualOrder) (b : Bool) (s' : Rows)
    → IsUniform env.draw
    → 1 ≤ d.quantity
    → 3 ≤ lot_size_of d
    → d.client_order_id ≡ some cid
    → place_order env d s ≡ (ok (o, b), s')
    → is_market_open later.now ≡ true
    → place_order later d s'
      ≡ (if prices_exact d then ok (o, true) else err idempotency_conflict, s')
place_order_repeated env later d cid s o b s' uniform lots lot client placed opened =
    let end : Placed d s (ok (o, b), s') =
      rw placed at (place_order-Placed env d uniform lots lot s) in
    let (found, matches) = found_after cid d s o b s' client end in
    let (same, other) = place_order_stored later d s' o opened found in
    elim (Bool-cases (prices_exact d)) [
      | inl exact ↦ rw exact (same (matches ∙ exact))
      | inr finer ↦ rw finer (other (matches ∙ finer))
    ]
