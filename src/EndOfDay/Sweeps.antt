-- ===== src/EndOfDay/Sweeps.antt =====
-- The standalone orders in `square_off_intraday`, `settle_expiring_options`, and
-- `emergency_exit_buy_positions` of virtual_order_service.py. The first two catch what a close
-- raises and go on, within the one transaction of their tick. Lists of orders are read before the
-- first close; no close changes the ids.
use strikefluency.Market.{Env}
use strikefluency.Models.Records.{Rows, VirtualOrder}
use strikefluency.Prelude.{
  [], ◌+◌, exists, leb, none, some, ◌&&◌, ◌∷◌, Bool, List, Option, select, ℕ,
}
use strikefluency.Action.{◌>>=◌, ◌>>◌, pure, Action}
use strikefluency.Models.Terms.{ExitReason, ProductType, is_buy, product_eq, is_open_status}
use strikefluency.Clock.{ist, date_of, require_market_open}
use strikefluency.AutoExit.Sweep.{counted}
use strikefluency.Discipline.{is_none}
use strikefluency.Orders.Close.{close_position}
use strikefluency.Orders.Queries.{open_of_order}

-- The closes in turn, counted.
unfoldable pub close_each : Env → List VirtualOrder → ℕ → Rows → ℕ × Rows
close_each env [] closed s = (closed, s)
close_each env (o ∷ os) closed s =
    let (n, s') = counted (close_position env o.id ExitReason.eod_squareoff none s) in
    close_each env os (closed + n) s'

abbrev pub is_intraday : VirtualOrder → Bool
is_intraday o =
    is_open_status o.status
    && product_eq o.product_type ProductType.intraday
    && is_none o.strategy_id

unfoldable pub square_off_standalone : Env → Rows → ℕ × Rows
square_off_standalone env s = close_each env (select is_intraday s.orders) 0 s

abbrev pub is_expiring_by : ℕ → VirtualOrder → Bool
is_expiring_by as_of o = is_open_status o.status && is_none o.strategy_id && leb o.expiry_date as_of

-- `as_of or get_ist_now().date()`
abbrev pub settlement_day : Env → Option ℕ → ℕ
settlement_day env none = date_of (ist env.now)
settlement_day env (some day) = day

unfoldable pub settle_expiring_options : Env → Option ℕ → Rows → ℕ × Rows
settle_expiring_options env as_of s =
    close_each env (select (is_expiring_by (settlement_day env as_of)) s.orders) 0 s

-- An open standalone purchase with an open position. An order has one position.
abbrev pub is_exitable : Rows → VirtualOrder → Bool
is_exitable s o =
    is_open_status o.status
    && is_buy o.action
    && is_none o.strategy_id
    && exists (open_of_order o.id) s.positions

-- The closes in turn, until one raises.
unfoldable pub exit_each : Env → List VirtualOrder → Action (List VirtualOrder)
exit_each env [] = pure []
exit_each env (o ∷ os) = do
  closed ← close_position env o.id ExitReason.emergency_exit none
  rest ← exit_each env os
  pure (closed ∷ rest)

unfoldable pub emergency_exit_buy_positions : Env → Action (List VirtualOrder)
emergency_exit_buy_positions env =
    require_market_open env.now >> λ s. exit_each env (select (is_exitable s) s.orders) s
