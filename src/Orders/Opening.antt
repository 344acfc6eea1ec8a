-- ===== src/Orders/Opening.antt =====
-- `place_order` on every path: what it writes when it opens a position, and that it writes nothing
-- of the books when it does not.
use strikefluency.Prelude.{
  ==_iff, debits_covered, Option-cases, ltb_ℤ_iff, inl, inr, some, none, ltb_ℤ, Bool-cases, ◌*◌,
  Option, ◌≤◌, round_half_even, ℕ, ◌+◌, ◌<◌, ◌≡◌, pos, neg, ◌+ℤ◌, ◌≤ℤ◌, arith, Bool, true, false,
  [], ◌∷◌, ◌++◌, refl,
}
use strikefluency.Models.Terms.{OrderStatus}
use strikefluency.Models.Records.{TradingSession, VirtualOrder, VirtualPosition, Rows}
use strikefluency.Action.{Action, Result, ok, err, ◌>>=◌}
use strikefluency.Ledger.Balance.{IsReconciled}
use strikefluency.Orders.Frame.{
  fetch_orderable-same, gate_discipline-Keeps, get_or_create_today-Keeps, SameBooks-refl, SameBooks,
  SameBooks-trans, Keeps,
}
use strikefluency.Market.{fetch_orderable, get_ltp-pos, get_ltp_from_chain, OptionChain, Env}
use strikefluency.Orders.Queries.{opt_eq, matches_idempotent_payload, leverage_of, margin_for}
use strikefluency.Orders.Request.{is_whole, prices_exact, lot_size_of, OrderData}
use strikefluency.Pricing.{calculate_slippage, IsUniform}
use strikefluency.Orders.Place.{
  gate_discipline, new_position, new_order, place_new, place_quoted, Ticket, fill, ticket_for,
}
use strikefluency.Pricing.SlippageBounds.{calculate_slippage-pos}
use strikefluency.Pricing.BrokerageBounds.{calculate_brokerage_exact}
use strikefluency.Orders.Booking.{booked-IsReconciled, booked, book-booked}
use strikefluency.Sessions.{set_session, get_or_create_today}

-- An order that was opened: one new order and its position at the ends of their tables, both open
-- and under a fresh id, the order as the payload asked for it, up to decimals beyond the paise in
-- the stop loss and the target, and a balance that paid the margin blocked by the position and the
-- entry brokerage, is not below zero, and agrees with the ledger if it did before.
pub record Opened (d : OrderData) (s : Rows) (o : VirtualOrder) (s' : Rows) : Type 0 where
  pub position : VirtualPosition
  pub client_eq : o.client_order_id ≡ d.client_order_id
  pub matches_eq : matches_idempotent_payload o d ≡ prices_exact d
  pub orders_eq : s'.orders ≡ s.orders ++ (o ∷ [])
  pub positions_eq : s'.positions ≡ s.positions ++ (position ∷ [])
  pub id_eq : o.id ≡ s.next_id
  pub order_id_eq : position.order_id ≡ s.next_id
  pub next_id_eq : s'.next_id ≡ s.next_id + 1
  pub status_eq : o.status ≡ OrderStatus.open_order
  pub is_open_eq : position.is_open ≡ true
  pub margin_pos : 0 < position.margin_blocked
  pub paid :
      s'.account.balance ≡ s.account.balance +ℤ neg position.margin_blocked +ℤ neg o.entry_brokerage
  pub floor : pos 0 ≤ℤ s'.account.balance
  pub reconciled : IsReconciled s → IsReconciled s'
  pub pendings_eq : s'.pendings ≡ s.pendings
  pub journal_eq : s'.journal ≡ s.journal

-- How a fresh placement ends.
abbrev pub Outcome : OrderData → Rows → Result (VirtualOrder × Bool) × Rows → Type 0
Outcome d s (err e, s') = SameBooks s s'
Outcome d s (ok (o, true), s') = ⊥
Outcome d s (ok (o, false), s') = Opened d s o s'

Opened-shift :
    (d : OrderData) (s t : Rows) (o : VirtualOrder) (u : Rows)
    → SameBooks s t
    → Opened d t o u
    → Opened d s o u
Opened-shift d s t o u h k = record {
  position = k.position;
  client_eq = k.client_eq;
  matches_eq = k.matches_eq;
  orders_eq = ground arith;
  positions_eq = ground arith;
  id_eq = ground arith;
  order_id_eq = ground arith;
  next_id_eq = ground arith;
  status_eq = k.status_eq;
  is_open_eq = k.is_open_eq;
  margin_pos = k.margin_pos;
  paid = rw (← h.account_eq) k.paid;
  floor = k.floor;
  reconciled = λ r. k.reconciled (rw (h.account_eq, h.ledger_eq) r);
  pendings_eq = ground arith;
  journal_eq = ground arith;
}

Outcome-shift :
    (d : OrderData) (s t : Rows) (p : Result (VirtualOrder × Bool) × Rows)
    → SameBooks s t
    → Outcome d t p
    → Outcome d s p
Outcome-shift d s t (err e, u) h k = SameBooks-trans s t u h k
Outcome-shift d s t (ok (o, true), u) h k = k
Outcome-shift d s t (ok (o, false), u) h k = Opened-shift d s t o u h k

module _ {A : Type 0} where
  Outcome-after :
      (d : OrderData) (p : Result A × Rows) (f : A → Action (VirtualOrder × Bool)) (s : Rows)
      → Keeps s p
      → ((a : A) (t : Rows) → p ≡ (ok a, t) → Outcome d t (f a t))
      → Outcome d s (((λ _. p) >>= f) s)
  Outcome-after d (ok a, t) f s h k = Outcome-shift d s t (f a t) h (k a t refl)
  Outcome-after d (err e, t) f s h k = h

units_pos : (p l q : ℕ) → 0 < p → 3 ≤ l → 1 ≤ q → 3 ≤ p * l * q
units_pos p l q a b c = let one : 3 ≤ p * l = grind arith in grind arith

round_pos : (n : ℕ) (leverage : Option Bool) → 3 ≤ n → 0 < round_half_even n (leverage_of leverage)
unfolding round_half_even
round_pos n none h = ground arith
round_pos n (some true) h = ground arith
round_pos n (some false) h = ground arith

-- A contract of three units or more at a positive price always blocks some margin.
pub margin_for-pos :
    (leverage : Option Bool) (p l q : ℕ) → 0 < p → 3 ≤ l → 1 ≤ q → 0 < margin_for leverage p l q
unfolding margin_for
margin_for-pos leverage p l q a b c = round_pos (p * l * q) leverage (units_pos p l q a b c)

opt_eq_refl : (a : Option ℕ) → opt_eq a a ≡ true
opt_eq_refl none = refl
opt_eq_refl (some n) = (==_iff n n).1 refl

-- The order that a payload makes is told to be the payload's, as far as its prices are whole paise.
new_order-matches :
    (env : Env) (d : OrderData) (t : Ticket) (s : Rows)
    → matches_idempotent_payload (new_order env d t s) d ≡ prices_exact d
unfolding new_order matches_idempotent_payload
new_order-matches env d t s =
    rw (opt_eq_refl d.sl_price, opt_eq_refl d.target_price)
      (elim (Bool-cases (is_whole d.sl_price d.sl_is_exact)) [
        | inr finer ↦ rw finer (ground arith)
        | inl exact ↦ elim (Bool-cases (is_whole d.target_price d.target_is_exact)) [
          | inr finer ↦ rw (exact, finer) (ground arith)
          | inl both ↦ rw (exact, both) (ground arith)
        ]
      ])

module _ (env : Env) (d : OrderData) (uniform : IsUniform env.draw) (lots : 1 ≤ d.quantity)
    (lot : 3 ≤ lot_size_of d) where
  ticket_pos :
      (leverage : Option Bool) (ltp atm : ℕ)
      → 0 < ltp
      → let t = ticket_for env d leverage ltp atm in
        (0 < t.margin_required) × (0 < t.entry_brokerage)
  unfolding ticket_for
  ticket_pos leverage ltp atm h =
      let filled = calculate_slippage env.draw ltp d.strike_price atm d.action d.instrument in
      let above = calculate_slippage-pos env.draw ltp d.strike_price atm d.action d.instrument h in
      let costs = calculate_brokerage_exact filled.0 d.quantity (lot_size_of d) d.action in
      (margin_for-pos leverage filled.0 (lot_size_of d) d.quantity above lot lots, omega arith)

  booked-Opened :
      (t : Ticket) (session : TradingSession) (s : Rows)
      → 0 < t.margin_required
      → pos (t.margin_required + t.entry_brokerage) ≤ℤ s.account.balance
      → Opened d s (new_order env d t s) (booked env d t session s)
  unfolding new_order new_position set_session
  booked-Opened t session s m enough = record {
    position = new_position d t s.next_id;
    client_eq = refl;
    matches_eq = new_order-matches env d t s;
    orders_eq = refl;
    positions_eq = refl;
    id_eq = refl;
    order_id_eq = refl;
    next_id_eq = refl;
    status_eq = refl;
    is_open_eq = refl;
    margin_pos = m;
    paid = refl;
    floor = (debits_covered s.account.balance t.margin_required t.entry_brokerage enough).1;
    reconciled = booked-IsReconciled env d t session s enough;
    pendings_eq = refl;
    journal_eq = refl;
  }

  -- An order that is priced either cannot be paid, or opens.
  fill-Outcome :
      (t : Ticket) (session : TradingSession) (s : Rows)
      → 0 < t.margin_required
      → 0 < t.entry_brokerage
      → Outcome d s (fill env d t session s)
  unfolding fill
  fill-Outcome t session s m b =
      let required = pos (t.margin_required + t.entry_brokerage) in
      elim (Bool-cases (ltb_ℤ s.account.balance required)) [
        | inl short ↦ rw short (SameBooks-refl s)
        | inr enough ↦
            let covered = (ltb_ℤ_iff s.account.balance required).1 enough in
            rw (enough, book-booked env d t session s m b covered)
              (booked-Opened t session s m covered)
      ]

  place_quoted-Outcome :
      (session : TradingSession) (chain : OptionChain) (s : Rows)
      → Outcome d s (place_quoted env d session chain s)
  unfolding place_quoted
  place_quoted-Outcome session chain s =
      let quote = get_ltp_from_chain chain d.strike_price d.option_type in
      elim (Option-cases quote.0) [
        | inl e ↦ rw e (SameBooks-refl s)
        | inr (ltp, e) ↦
            let positive = get_ltp-pos chain d.strike_price d.option_type ltp e in
            rw e (
              Outcome-after d (gate_discipline env d ltp session s)
                (λ session' s.
                  fill env d (ticket_for env d s.leverage_enabled ltp quote.1) session' s)
                s (gate_discipline-Keeps env d ltp session s)
                (λ session' t _.
                  let prices = ticket_pos t.leverage_enabled ltp quote.1 positive in
                  fill-Outcome (ticket_for env d t.leverage_enabled ltp quote.1) session' t prices.0
                    prices.1))
      ]

  -- A fresh order, whatever the market and the rules say: either it is refused and the account,
  -- the orders, the positions, the pending orders, the ledger and the journal are what they were,
  -- or it opens.
  pub place_new-Outcome : (s : Rows) → Outcome d s (place_new env d s)
  unfolding place_new
  place_new-Outcome s =
      Outcome-after d (get_or_create_today env.today s)
        (λ session. fetch_orderable env d.instrument >>= place_quoted env d session) s
        (get_or_create_today-Keeps env.today s)
        (λ session t _.
          Outcome-after d (fetch_orderable env d.instrument t) (place_quoted env d session) t
            (rw (fetch_orderable-same env d.instrument t) (SameBooks-refl t))
            (λ chain u _. place_quoted-Outcome session chain u))
