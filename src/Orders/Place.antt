-- ===== src/Orders/Place.antt =====
-- `place_order` of virtual_order_service.py, in the order of its steps.
use strikefluency.Prelude.{
  ℕ, ◌+◌, pos, ltb_ℤ, Bool, true, false, not, Option, none, some, [], ◌∷◌, ◌++◌, if◌then◌else◌,
}
use strikefluency.Models.Terms.{OrderStatus, LedgerRef}
use strikefluency.Models.Records.{VirtualOrder, VirtualPosition, TradingSession, Rows, flush}
use strikefluency.Action.{
  Action, ok, err, idempotency_conflict, quote_unavailable, insufficient_balance, pure, raise,
  or_raise, ◌>>=◌, ◌>>◌, modify,
}
use strikefluency.Clock.{require_market_open, current_trading_day}
use strikefluency.Pricing.{calculate_slippage, calculate_brokerage}
use strikefluency.Market.{Env, OptionChain, get_ltp_from_chain, fetch_orderable}
use strikefluency.Ledger.{block_margin, charge}
use strikefluency.Sessions.{get_or_create_today, increment_trade_count, set_session}
use strikefluency.Discipline.{enforce}
use strikefluency.Orders.Request.{OrderData, lot_size_of, product_or, tag_or}
use strikefluency.Orders.Queries.{find_client, matches_idempotent_payload, margin_for}

-- What a fill comes to: the quote, the price and slippage, and what it takes from the account.
pub record Ticket : Type 0 where
  pub ltp : ℕ
  pub fill_price : ℕ
  pub slippage_points : ℕ
  pub margin_required : ℕ
  pub entry_brokerage : ℕ

abbrev pub priced : OrderData → Option Bool → ℕ → ℕ × ℕ → Ticket
priced d leverage_enabled ltp (fill_price, slippage_points) = record {
  ltp = ltp;
  fill_price = fill_price;
  slippage_points = slippage_points;
  margin_required = margin_for leverage_enabled fill_price (lot_size_of d) d.quantity;
  entry_brokerage = (calculate_brokerage fill_price d.quantity (lot_size_of d) d.action).total;
}

unfoldable pub ticket_for : Env → OrderData → Option Bool → ℕ → ℕ → Ticket
ticket_for env d leverage_enabled ltp atm_strike =
    priced d leverage_enabled ltp
      (calculate_slippage env.draw ltp d.strike_price atm_strike d.action d.instrument)

-- The new row of `virtual_orders`. `setup_tag` may be absent in free play.
unfoldable pub new_order : Env → OrderData → Ticket → Rows → VirtualOrder
new_order env d t s = record {
  id = s.next_id;
  client_order_id = d.client_order_id;
  instrument = d.instrument;
  expiry_date = d.expiry_date;
  strike_price = d.strike_price;
  option_type = d.option_type;
  action = d.action;
  quantity = d.quantity;
  lot_size = lot_size_of d;
  entry_ltp = t.ltp;
  entry_price = t.fill_price;
  exit_price = none;
  sl_price = d.sl_price;
  target_price = d.target_price;
  exit_limit_price = none;
  status = OrderStatus.open_order;
  product_type = product_or d.product_type;
  trading_day = current_trading_day env.now;
  entry_time = env.now;
  exit_time = none;
  pnl = none;
  brokerage = t.entry_brokerage;
  entry_brokerage = t.entry_brokerage;
  slippage_points = t.slippage_points;
  setup_tag = tag_or d.setup_tag;
  exit_reason = none;
  is_discipline_compliant = true;
  was_free_play = not s.account.discipline_mode_enabled;
  strategy_id = none;
}

unfoldable pub new_position : OrderData → Ticket → ℕ → VirtualPosition
new_position d t order_id = record {
  order_id = order_id;
  instrument = d.instrument;
  expiry_date = d.expiry_date;
  strike_price = d.strike_price;
  option_type = d.option_type;
  quantity = d.quantity;
  avg_entry_price = t.fill_price;
  current_ltp = t.ltp;
  unrealized_pnl = pos 0;
  margin_blocked = t.margin_required;
  is_open = true;
  closed_at = none;
}

-- `db.add(order); db.flush()`, then `db.add(position)`.
abbrev pub add_order : VirtualOrder → Rows → Rows
add_order o s = flush (record s { orders = s.orders ++ (o ∷ []); next_id = s.next_id + 1 })

abbrev pub add_position : VirtualPosition → Rows → Rows
add_position p s = record s { positions = s.positions ++ (p ∷ []) }

-- The order and its position, the margin and the entry brokerage, and the day's trade count.
unfoldable pub book : Env → OrderData → Ticket → TradingSession → Action (VirtualOrder × Bool)
book env d t session s =
    let order = new_order env d t s in
    (do
      modify (add_order order)
      modify (add_position (new_position d t order.id))
      block_margin t.margin_required LedgerRef.virtual_order order.id
      charge t.entry_brokerage LedgerRef.virtual_order order.id
      modify (set_session (increment_trade_count session))
      pure (order, false))
      s

-- The affordability check covers the margin and the entry brokerage together.
unfoldable pub fill : Env → OrderData → Ticket → TradingSession → Action (VirtualOrder × Bool)
fill env d t session s =
    if ltb_ℤ s.account.balance (pos (t.margin_required + t.entry_brokerage))
    then (err insufficient_balance, s)
    else book env d t session s

-- The discipline engine, skipped in free play.
unfoldable pub gate_discipline : Env → OrderData → ℕ → TradingSession → Action TradingSession
gate_discipline env d ltp session s =
    if s.account.discipline_mode_enabled then enforce env d ltp session s else (ok session, s)

unfoldable pub place_quoted :
    Env → OrderData → TradingSession → OptionChain → Action (VirtualOrder × Bool)
place_quoted env d session chain =
    let (quoted, atm_strike) = get_ltp_from_chain chain d.strike_price d.option_type in
    do
      ltp ← or_raise quoted quote_unavailable
      session' ← gate_discipline env d ltp session
      (λ s. fill env d (ticket_for env d s.leverage_enabled ltp atm_strike) session' s)

unfoldable pub place_new : Env → OrderData → Action (VirtualOrder × Bool)
place_new env d = do
  session ← get_or_create_today env.today
  chain ← fetch_orderable env d.instrument
  place_quoted env d session chain

-- A repeated client order id returns the order that it placed, or is a conflict.
unfoldable pub replay_or_place :
    Env → OrderData → Option VirtualOrder → Action (VirtualOrder × Bool)
replay_or_place env d (some existing) =
    if matches_idempotent_payload existing d
    then pure (existing, true)
    else raise idempotency_conflict
replay_or_place env d none = place_new env d

-- The order, and whether it is a replay (`_idempotent_replay`).
unfoldable pub place_order : Env → OrderData → Action (VirtualOrder × Bool)
place_order env d = require_market_open env.now >> λ s.
    replay_or_place env d (find_client d.client_order_id s.orders) s
