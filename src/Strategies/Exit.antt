-- ===== src/Strategies/Exit.antt =====
-- `_close_single_leg` and `_close_mirrored_order` of
-- backend/app/services/strategy_execution_service.py: the exit of one leg and of the order that
-- mirrors it.
use strikefluency.Strategies.Book.{
  done_with, service, set_strategy, update, raised, found_or_fail, Run, leg_to_domain, StrategyRow,
  LegRow, ◌>>=◌, ◌>>◌,
}
use strikefluency.Action.{value_error, modify}
use strikefluency.Prelude.{
  ◌-ℤ◌, find, pos, ◌*◌, false, ◌&&◌, ◌*ℤ◌, modify_first, none, true, ◌==◌, Bool, some, ℤ, Option, ℕ,
}
use strikefluency.Strategies.Draft.{LegInstrumentType, LegStatus}
use strikefluency.Strategies.Quote.{quote_leg, Desk}
use strikefluency.Models.Terms.{
  is_open_status, action_eq, OrderStatus, ExitReason, Instrument, OptionType, OrderAction,
}
use strikefluency.Models.Records.{Rows, VirtualOrder}
use strikefluency.Orders.Queries.{opt_eq}
use strikefluency.Strategies.Plan.{atm_of, fill_at}
use strikefluency.Strategies.Payoff.{value_at_expiry, signed_quantity}
use strikefluency.Strategies.Builder.{given_or}
use strikefluency.Pricing.{calculate_brokerage}

abbrev pub is_leg_open : LegStatus → Bool
is_leg_open LegStatus.leg_open = true
is_leg_open _ = false

abbrev pub row_is_open : LegRow → Bool
row_is_open row = is_leg_open row.status

abbrev pub opposite_action : OrderAction → OrderAction
opposite_action OrderAction.buy = OrderAction.sell
opposite_action OrderAction.sell = OrderAction.buy

-- The price that the caller gives, the quote, or the intrinsic value at the chain's spot price.
abbrev or_quote : Option ℕ → Option ℕ → Option ℕ → Option ℕ
or_quote (some given) quoted settled = some given
or_quote none (some quoted) settled = some quoted
or_quote none none settled = settled

unfoldable pub exit_ltp_for : Desk → Instrument → LegRow → Option ℕ → Option ℕ
exit_ltp_for desk underlying row given =
    let leg = leg_to_domain row in
    or_quote given (quote_leg desk underlying leg)
      (value_at_expiry leg.contract (desk.chain_for underlying row.expiry_date).spot_price)

abbrev pub exit_fill : Desk → Instrument → LegRow → ℕ → ℕ
exit_fill desk underlying row exit_ltp =
    fill_at desk exit_ltp (atm_of (desk.chain_for underlying row.expiry_date) exit_ltp)
      row.instrument_type row.strike_price (opposite_action row.action) underlying

-- sign × (exit − entry) × quantity, less the exit's brokerage.
unfoldable pub realized_of : LegRow → ℕ → ℤ
realized_of row fill =
    signed_quantity (leg_to_domain row) *ℤ (pos fill -ℤ pos (given_or row.entry_price 0))
    -ℤ pos (calculate_brokerage fill row.lots row.lot_size (opposite_action row.action)).total

abbrev pub closed_leg : ℕ → LegRow → ℕ → LegRow
closed_leg now row fill = record row {
  exit_price = some fill;
  realized_pnl = realized_of row fill;
  status = LegStatus.leg_closed;
  closed_at = some now;
}

abbrev pub leg_has_id : ℕ → LegRow → Bool
leg_has_id id row = row.id == id

abbrev pub set_leg : LegRow → StrategyRow → StrategyRow
set_leg row o = record o { legs = modify_first (leg_has_id row.id) (λ _. row) o.legs }

abbrev type_matches : LegInstrumentType → OptionType → Bool
type_matches LegInstrumentType.ce OptionType.ce = true
type_matches LegInstrumentType.pe OptionType.pe = true
type_matches _ _ = false

-- The filter of `_close_mirrored_order`.
abbrev pub mirrors : ℕ → LegRow → VirtualOrder → Bool
mirrors strategy_id row o =
    opt_eq o.strategy_id (some strategy_id)
    && (o.strike_price * 100 == given_or row.strike_price 0)
    && type_matches row.instrument_type o.option_type
    && action_eq o.action row.action
    && is_open_status o.status

abbrev order_has_id : ℕ → VirtualOrder → Bool
order_has_id id o = o.id == id

abbrev pub closed_mirror : ℕ → ℕ → ℤ → ExitReason → VirtualOrder → VirtualOrder
closed_mirror now fill realized reason o = record o {
  exit_price = some fill;
  exit_time = some now;
  pnl = some realized;
  status = OrderStatus.closed;
  exit_reason = some reason;
}

abbrev pub close_found_mirror : ℕ → ℕ → ℤ → ExitReason → Option VirtualOrder → Rows → Rows
close_found_mirror now fill realized reason none s = s
close_found_mirror now fill realized reason (some o) s = record s {
  orders = modify_first (order_has_id o.id) (closed_mirror now fill realized reason) s.orders;
}

-- `_close_mirrored_order`: the query runs on the orders as last flushed. No order is of the type
-- of a future.
unfoldable pub close_mirrored_order : ℕ → ℕ → LegRow → ℕ → ℤ → ExitReason → Rows → Rows
close_mirrored_order now strategy_id row fill realized reason s =
    close_found_mirror now fill realized reason (find (mirrors strategy_id row) s.db_orders) s

-- `_close_single_leg`, which returns the strategy object as it now is, and the realized P&L.
unfoldable pub close_single_leg :
    Desk → StrategyRow → LegRow → Option ℕ → ExitReason → Run (StrategyRow × ℤ)
close_single_leg desk orm row given reason = do
  exit_ltp ← found_or_fail (raised value_error) (exit_ltp_for desk orm.underlying row given)
  let fill = exit_fill desk orm.underlying row exit_ltp
  let orm' = set_leg (closed_leg desk.env.now row fill) orm
  update (set_strategy orm')
  service (modify (close_mirrored_order desk.env.now orm.id row fill (realized_of row fill) reason))
  done_with (orm', realized_of row fill)
