-- ===== src/Pending/Park.antt =====
-- `place_pending_order`, `cancel_pending_order` and `expire_pending_orders`, with their helpers.
use strikefluency.Models.Records.{TradingSession, flush, PendingOrder, Rows}
use strikefluency.Prelude.{
  false, ◌+◌, [], ltb, none, pos, length, ltb_ℤ, true, ◌&&◌, ◌∷◌, if◌then◌else◌, select, some, ◌++◌,
  ◌==◌, Bool, List, find, modify_first, Option, round_half_even, ℕ,
}
use strikefluency.Market.{fetch_orderable, get_ltp_from_chain, OptionChain, Env}
use strikefluency.Orders.Request.{tag_or, product_or, lot_size_of, OrderData}
use strikefluency.Orders.Queries.{opt_eq, margin_for}
use strikefluency.Models.Terms.{
  tag_eq, product_eq, LedgerRef, action_eq, LedgerTxnType, option_type_eq, instrument_eq,
  is_pending_status, PendingOrderStatus,
}
use strikefluency.Action.{
  insufficient_balance, err, quote_unavailable, idempotency_conflict, pending_order_not_cancellable,
  modify, or_raise, pending_order_not_found, pure, raise, ◌>>=◌, ◌>>◌, Action,
}
use strikefluency.Clock.{current_trading_day, require_market_open}
use strikefluency.Sessions.{get_or_create_today}
use strikefluency.Ledger.{block_margin, release_margin}
use strikefluency.Orders.Place.{gate_discipline}

-- The payload. The terms are those of an order; the limit comes in hundredths of a paisa.
pub record PendingData : Type 0 where
  pub terms : OrderData
  pub limit_price : ℕ

-- `_money`
unfoldable pub money : ℕ → ℕ
unfolding round_half_even
money value = round_half_even value 100

abbrev pub limit_of : PendingData → ℕ
limit_of d = money d.limit_price

abbrev pub has_pending_id : ℕ → PendingOrder → Bool
has_pending_id id p = p.id == id

abbrev pub find_pending : ℕ → Rows → Option PendingOrder
find_pending id s = find (has_pending_id id) s.pendings

abbrev pub put_pending : ℕ → (PendingOrder → PendingOrder) → Rows → Rows
put_pending id f s = record s { pendings = modify_first (has_pending_id id) f s.pendings }

-- `existing`: the pending order of the client's id.
abbrev pub find_resting : Option ℕ → List PendingOrder → Option PendingOrder
find_resting none pendings = none
find_resting (some cid) pendings = find (λ p. opt_eq p.client_order_id (some cid)) pendings

-- `_matches_idempotent_payload`
unfoldable pub matches_pending : PendingOrder → PendingData → Bool
matches_pending p d =
    instrument_eq p.instrument d.terms.instrument
    && (p.expiry_date == d.terms.expiry_date)
    && (p.strike_price == d.terms.strike_price)
    && option_type_eq p.option_type d.terms.option_type
    && action_eq p.action d.terms.action
    && (p.quantity == d.terms.quantity)
    && (p.lot_size == lot_size_of d.terms)
    && product_eq p.product_type (product_or d.terms.product_type)
    && (p.limit_price == limit_of d)
    && opt_eq p.sl_price d.terms.sl_price
    && opt_eq p.target_price d.terms.target_price
    && tag_eq p.setup_tag (tag_or d.terms.setup_tag)

-- The new row of `pending_orders`.
unfoldable pub new_pending : Env → PendingData → ℕ → ℕ → Rows → PendingOrder
new_pending env d placed_ltp margin_required s = record {
  id = s.next_id;
  client_order_id = d.terms.client_order_id;
  instrument = d.terms.instrument;
  expiry_date = d.terms.expiry_date;
  strike_price = d.terms.strike_price;
  option_type = d.terms.option_type;
  action = d.terms.action;
  quantity = d.terms.quantity;
  lot_size = lot_size_of d.terms;
  product_type = product_or d.terms.product_type;
  limit_price = limit_of d;
  placed_ltp = placed_ltp;
  sl_price = d.terms.sl_price;
  target_price = d.terms.target_price;
  setup_tag = tag_or d.terms.setup_tag;
  status = PendingOrderStatus.pending;
  margin_blocked = margin_required;
  trading_day = current_trading_day env.now;
  filled_order_id = none;
  fill_price = none;
  filled_at = none;
  closed_at = none;
}

-- `_margin_for` at the limit.
abbrev pub reserve_for : PendingData → Rows → ℕ
reserve_for d s = margin_for s.leverage_enabled (limit_of d) (lot_size_of d.terms) d.terms.quantity

-- `db.add(pending); db.flush()`
abbrev pub add_pending : PendingOrder → Rows → Rows
add_pending p s = flush (record s { pendings = s.pendings ++ (p ∷ []); next_id = s.next_id + 1 })

-- The margin is checked, the order parked, and the margin blocked.
unfoldable pub park : Env → PendingData → ℕ → Action (PendingOrder × Bool)
park env d placed_ltp s =
    let margin_required = reserve_for d s in
    let pending = new_pending env d placed_ltp margin_required s in
    if ltb_ℤ s.account.balance (pos margin_required)
    then (err insufficient_balance, s)
    else (do
      modify (add_pending pending)
      block_margin margin_required LedgerRef.pending_order pending.id
      pure (pending, false))
        s

-- The strike must be quoted, and the rules are checked at the limit.
unfoldable pub park_quoted :
    Env → PendingData → TradingSession → OptionChain → Action (PendingOrder × Bool)
park_quoted env d session chain = do
  placed_ltp ←
      or_raise ((get_ltp_from_chain chain d.terms.strike_price d.terms.option_type).0)
        quote_unavailable
  _ ← gate_discipline env d.terms (limit_of d) session
  park env d placed_ltp

unfoldable pub park_new : Env → PendingData → Action (PendingOrder × Bool)
park_new env d = do
  session ← get_or_create_today env.today
  chain ← fetch_orderable env d.terms.instrument
  park_quoted env d session chain

unfoldable pub replay_or_park :
    Env → PendingData → Option PendingOrder → Action (PendingOrder × Bool)
replay_or_park env d (some existing) =
    if matches_pending existing d then pure (existing, true) else raise idempotency_conflict
replay_or_park env d none = park_new env d

-- The pending order, and whether it is a replay (`_idempotent_replay`).
unfoldable pub place_pending_order : Env → PendingData → Action (PendingOrder × Bool)
place_pending_order env d = require_market_open env.now >> λ s.
    replay_or_park env d (find_resting d.terms.client_order_id s.pendings) s

-- `_close_pending`: the order at a terminal status with its reservation zeroed. What it releases
-- is the `margin_blocked` it had.
abbrev pub close_pending : Env → PendingOrderStatus → PendingOrder → PendingOrder
close_pending env status p = record p {
  status = status;
  margin_blocked = 0;
  closed_at = some env.now;
}

-- The margin is refunded unless it is zero.
unfoldable pub refund_margin : ℕ → ℕ → Action (Unit {0})
refund_margin released id =
    if released == 0
    then pure tt
    else release_margin LedgerTxnType.refund released LedgerRef.pending_order id

-- A pending order leaves the book, and its margin comes back.
unfoldable pub close_and_refund : Env → PendingOrderStatus → PendingOrder → Action (Unit {0})
close_and_refund env status p = do
  modify (put_pending p.id (close_pending env status))
  refund_margin p.margin_blocked p.id

-- The order, and the margin released (`_released_margin`).
unfoldable pub cancel_found : Env → Option PendingOrder → Action (PendingOrder × ℕ)
cancel_found env none = raise pending_order_not_found
cancel_found env (some p) =
    if is_pending_status p.status
    then close_and_refund env PendingOrderStatus.cancelled p
      >> pure (close_pending env PendingOrderStatus.cancelled p, p.margin_blocked)
    else raise pending_order_not_cancellable

unfoldable pub cancel_pending_order : Env → ℕ → Action (PendingOrder × ℕ)
cancel_pending_order env pending_id s = cancel_found env (find_pending pending_id s) s

-- The orders that `expire_pending_orders` takes: all that rest, or those of trading days before
-- the one given.
abbrev pub is_expiring : Option ℕ → PendingOrder → Bool
is_expiring none p = is_pending_status p.status
is_expiring (some day) p = is_pending_status p.status && ltb p.trading_day day

unfoldable pub expire_each : Env → List PendingOrder → Action (Unit {0})
expire_each env [] = pure tt
expire_each env (p ∷ ps) = close_and_refund env PendingOrderStatus.expired p >> expire_each env ps

unfoldable pub expire_pending_orders : Env → Option ℕ → Action ℕ
expire_pending_orders env before s =
    let pendings = select (is_expiring before) s.pendings in
    (expire_each env pendings >> pure (length pendings)) s
