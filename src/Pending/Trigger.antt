-- ===== src/Pending/Trigger.antt =====
-- `scan_and_fill`, with `_fill_one`, `_reject_one` and `_is_triggered`. The sweep commits after
-- each order, so what it rolls back to is the state that the order before left.
use strikefluency.Models.Records.{flush, VirtualOrder, PendingOrder, Rows}
use strikefluency.Market.{by_instrument, get_ltp_from_chain, is_tradeable, OptionChain, Env}
use strikefluency.Action.{
  ◌>>=◌, quote_unavailable, err, insufficient_balance, market_closed, modify, discipline_violation,
  ok, pure, ◌>>◌, Action, Result, Error,
}
use strikefluency.Prelude.{
  select, [], leb, false, none, ◌+◌, if◌then◌else◌, some, true, ◌∷◌, Bool, List, Option, ℕ,
}
use strikefluency.Orders.Request.{OrderData}
use strikefluency.Pending.Park.{refund_margin, put_pending, close_and_refund, find_pending}
use strikefluency.Clock.{is_market_open}
use strikefluency.Models.Terms.{PendingOrderStatus, is_buy, is_pending_status}
use strikefluency.Orders.Place.{place_order}

abbrev pub is_triggered : PendingOrder → ℕ → Bool
is_triggered p ltp = if is_buy p.action then leb ltp p.limit_price else leb p.limit_price ltp

-- The payload that a fill hands to `place_order`.
abbrev pub payload_of : PendingOrder → OrderData
payload_of p = record {
  client_order_id = p.client_order_id;
  instrument = p.instrument;
  expiry_date = p.expiry_date;
  strike_price = p.strike_price;
  option_type = p.option_type;
  action = p.action;
  quantity = p.quantity;
  lot_size = some p.lot_size;
  product_type = some p.product_type;
  sl_price = p.sl_price;
  target_price = p.target_price;
  sl_is_exact = true;
  target_is_exact = true;
  setup_tag = some p.setup_tag;
}

abbrev pub unreserve : PendingOrder → PendingOrder
unreserve p = record p { margin_blocked = 0 }

abbrev pub mark_filled : Env → VirtualOrder → PendingOrder → PendingOrder
mark_filled env o p = record p {
  status = PendingOrderStatus.filled;
  filled_order_id = some o.id;
  fill_price = some o.entry_price;
  filled_at = some env.now;
  closed_at = some env.now;
}

-- The reservation comes back first; then the order is placed at the live premium.
unfoldable pub fill_pending : Env → PendingOrder → Action (Unit {0})
fill_pending env p = do
  refund_margin p.margin_blocked p.id
  modify (put_pending p.id unreserve)
  placed ← place_order env (payload_of p)
  modify (λ s. put_pending p.id (mark_filled env placed.0) (flush s))

unfoldable pub fill_found : Env → Option PendingOrder → Action (Unit {0})
fill_found env none = pure tt
fill_found env (some p) = if is_pending_status p.status then fill_pending env p else pure tt

unfoldable pub fill_one : Env → ℕ → Action (Unit {0})
fill_one env pending_id s = fill_found env (find_pending pending_id s) s

unfoldable pub reject_found : Env → Option PendingOrder → Action (Unit {0})
reject_found env none = pure tt
reject_found env (some p) =
    if is_pending_status p.status
    then close_and_refund env PendingOrderStatus.rejected p
    else pure tt

unfoldable pub reject_one : Env → ℕ → Action (Unit {0})
reject_one env pending_id s = reject_found env (find_pending pending_id s) s

-- How one order of the sweep ended: filled, refused for good, left resting, or the end of the
-- sweep because the market has closed.
pub data FillEnd : Type 0 where
  was_filled was_rejected left_resting sweep_over : FillEnd

-- The `except` clauses by the error.
abbrev pub is_refusal : Error → Bool
is_refusal (discipline_violation _) = true
is_refusal insufficient_balance = true
is_refusal quote_unavailable = true
is_refusal _ = false

abbrev pub is_market_closed : Error → Bool
is_market_closed market_closed = true
is_market_closed _ = false

abbrev pub after_reject : Rows → Result (Unit {0}) × Rows → FillEnd × Rows
after_reject s (ok _, s') = (was_rejected, flush s')
after_reject s (err _, s') = (left_resting, s)

unfoldable pub on_error : Env → ℕ → Error → Rows → FillEnd × Rows
on_error env id e s =
    if is_market_closed e
    then (sweep_over, s)
    else if is_refusal e
    then after_reject s (reject_one env id s)
    else (left_resting, s)

abbrev pub after_fill : Env → ℕ → Rows → Result (Unit {0}) × Rows → FillEnd × Rows
after_fill env id s (ok _, s') = (was_filled, flush s')
after_fill env id s (err e, s') = on_error env id e s

unfoldable pub try_fill : Env → ℕ → Rows → FillEnd × Rows
try_fill env id s = after_fill env id s (fill_one env id s)

unfoldable pub fill_quoted : Env → PendingOrder → Option ℕ → Rows → FillEnd × Rows
fill_quoted env p none s = (left_resting, s)
fill_quoted env p (some ltp) s =
    if is_triggered p ltp then try_fill env p.id s else (left_resting, s)

unfoldable pub fill_on : Env → PendingOrder → Option OptionChain → Rows → FillEnd × Rows
fill_on env p none s = (left_resting, s)
fill_on env p (some chain) s =
    if is_tradeable env chain
    then fill_quoted env p (get_ltp_from_chain chain p.strike_price p.option_type).0 s
    else (left_resting, s)

-- What the end of one order means for the rest of the sweep.
abbrev pub go_on : (ℕ → Rows → ℕ × Rows) → ℕ → FillEnd × Rows → ℕ × Rows
go_on rest filled (was_filled, s) = rest (filled + 1) s
go_on rest filled (was_rejected, s) = rest filled s
go_on rest filled (left_resting, s) = rest filled s
go_on rest filled (sweep_over, s) = (filled, s)

unfoldable pub fill_each : Env → List PendingOrder → ℕ → Rows → ℕ × Rows
fill_each env [] filled s = (filled, s)
fill_each env (p ∷ ps) filled s =
    go_on (fill_each env ps) filled (fill_on env p (env.get_option_chain p.instrument) s)

unfoldable pub scan_and_fill : Env → Rows → ℕ × Rows
scan_and_fill env s =
    if is_market_open env.now
    then fill_each env
        (by_instrument (λ p. p.instrument) (select (λ p. is_pending_status p.status) s.pendings)) 0
        s
    else (0, s)
