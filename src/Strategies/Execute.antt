-- ===== src/Strategies/Execute.antt =====
-- `execute_strategy` of backend/app/services/strategy_execution_service.py, with the three rules
-- of the discipline engine that a strategy meets and the orders that mirror its option legs.
use strikefluency.Strategies.Book.{
  unpriceable, found_or_fail, StrategyBook, checked, done_with, flush_book, empty_strategy,
  not_a_draft_any_more, get_strategy, raised, to_domain, fail_if, service, set_strategy, LegRow,
  Run, StrategyPosition, StrategyRow, ◌>>=◌, ◌>>◌,
}
use strikefluency.Action.{
  value_error, discipline_violation, insufficient_balance, err, ok, Action, modify,
}
use strikefluency.Prelude.{
  ◌&&◌, [], false, map, if◌then◌else◌, ltb_ℤ, none, not, true, ◌++◌, ◌+◌, ◌==◌, ◌∷◌, Bool, find,
  pos, some, ℤ, List, Option, ℕ,
}
use strikefluency.Market.{Env}
use strikefluency.Strategies.Draft.{
  is_draft, LegStatus, Strategy, StrategyStatus, LegInstrumentType,
}
use strikefluency.Strategies.Quote.{Desk}
use strikefluency.Models.Records.{
  VirtualAccount, VirtualOrder, Rows, TradingSession, flush, DisciplineRule,
}
use strikefluency.Models.Terms.{OrderStatus, LedgerRef, DisciplineRuleCode, OptionType, SetupTag}
use strikefluency.Strategies.Payoff.{payoff_curve, PayoffResult}
use strikefluency.Strategies.Plan.{
  is_none_left, plan_execution, whole_points, ExecutionPlan, LegFill,
}
use strikefluency.Ledger.{block_margin}
use strikefluency.Clock.{current_trading_day, require_market_open}
use strikefluency.Discipline.{
  log_violation, fails_max_daily_loss, fails_max_trades, is_none, rule_for, enabled_of,
}
use strikefluency.Strategies.Builder.{validate_strategy, given_or}
use strikefluency.Sessions.{get_or_create_today, increment_trade_count, set_session}

-- The first of the three rules that fails.
unfoldable pub first_failing :
    List DisciplineRule
    → Option SetupTag
    → TradingSession
    → VirtualAccount
    → Option DisciplineRuleCode
first_failing rules tag session account =
    if enabled_of (rule_for DisciplineRuleCode.mandatory_setup_tag rules) && is_none tag
    then some DisciplineRuleCode.mandatory_setup_tag
    else if fails_max_trades rules session
    then some DisciplineRuleCode.max_trades_per_day
    else if fails_max_daily_loss rules session account
    then some DisciplineRuleCode.max_daily_loss
    else none

abbrev pub conclude_rule : Env → Option DisciplineRuleCode → Action (Unit {0})
conclude_rule env none s = (ok tt, s)
conclude_rule env (some code) s = (err (discipline_violation code), log_violation env code s)

-- `_check_strategy_discipline`, skipped in free play.
unfoldable pub check_strategy_discipline :
    Env → Option SetupTag → TradingSession → Action (Unit {0})
check_strategy_discipline env tag session s =
    if s.account.discipline_mode_enabled
    then conclude_rule env (first_failing s.rules tag session s.account) s
    else (ok tt, s)

-- A mirrored order exists for an option; its strike is in points.
abbrev option_type_of : LegInstrumentType → Option OptionType
option_type_of LegInstrumentType.ce = some OptionType.ce
option_type_of LegInstrumentType.pe = some OptionType.pe
option_type_of LegInstrumentType.fut = none

abbrev pub mirror : Env → StrategyRow → LegRow → LegFill → OptionType → Rows → VirtualOrder
mirror env orm row fill option_type s = record {
  id = s.next_id;
  client_order_id = none;
  instrument = orm.underlying;
  expiry_date = row.expiry_date;
  strike_price = whole_points (given_or row.strike_price 0);
  option_type = option_type;
  action = fill.action;
  quantity = fill.lots;
  lot_size = fill.lot_size;
  entry_ltp = fill.quoted_ltp;
  entry_price = fill.fill_price;
  exit_price = none;
  sl_price = none;
  target_price = none;
  exit_limit_price = none;
  status = OrderStatus.open_order;
  product_type = orm.product_type;
  trading_day = current_trading_day env.now;
  entry_time = env.now;
  exit_time = none;
  pnl = none;
  brokerage = fill.brokerage;
  entry_brokerage = 0;
  slippage_points = 0;
  setup_tag = given_or orm.setup_tag SetupTag.other;
  exit_reason = none;
  is_discipline_compliant = true;
  was_free_play = not s.account.discipline_mode_enabled;
  strategy_id = some orm.id;
}

abbrev add_mirrored : Env → StrategyRow → LegRow → LegFill → Option OptionType → Rows → Rows
add_mirrored env orm row fill none s = s
add_mirrored env orm row fill (some t) s = record s {
  orders = s.orders ++ (mirror env orm row fill t s ∷ []);
  next_id = s.next_id + 1;
}

-- `_mirror_order`
unfoldable pub mirror_order : Env → StrategyRow → LegRow → LegFill → Rows → Rows
mirror_order env orm row fill s =
    add_mirrored env orm row fill (option_type_of fill.instrument_type) s

-- The fill of a leg; the ids of the legs are different.
abbrev pub fill_for : List LegFill → LegRow → Option LegFill
fill_for fills row = find (λ f. f.leg_id == row.id) fills

abbrev open_with : ℕ → LegRow → Option LegFill → LegRow
open_with now row none = row
open_with now row (some fill) = record row {
  entry_price = some fill.fill_price;
  status = LegStatus.leg_open;
  opened_at = some now;
}

abbrev pub open_leg : ℕ → List LegFill → LegRow → LegRow
open_leg now fills row = open_with now row (fill_for fills row)

abbrev pub mirror_with : Env → StrategyRow → LegRow → Option LegFill → Rows → Rows
mirror_with env orm row none s = s
mirror_with env orm row (some fill) s = mirror_order env orm row fill s

unfoldable pub mirror_legs : Env → StrategyRow → List LegFill → List LegRow → Rows → Rows
mirror_legs env orm fills [] s = s
mirror_legs env orm fills (row ∷ legs) s =
    mirror_legs env orm fills legs (mirror_with env orm row (fill_for fills row) s)

-- `_safe_payoff`
abbrev pub best_case : Option PayoffResult → Option ℤ
best_case none = none
best_case (some r) = r.max_profit

abbrev pub worst_case : Option PayoffResult → Option ℤ
worst_case none = none
worst_case (some r) = r.max_loss

abbrev pub filled_domain : StrategyRow → ExecutionPlan → Strategy
filled_domain orm plan = record (to_domain orm) { legs = plan.legs }

abbrev pub executed_row : Desk → StrategyRow → ExecutionPlan → ℕ → StrategyRow
executed_row desk orm plan spot = record orm {
  status = StrategyStatus.executed;
  net_premium = plan.net_premium;
  max_profit = best_case (payoff_curve desk.tail_slope (filled_domain orm plan) spot);
  max_loss = worst_case (payoff_curve desk.tail_slope (filled_domain orm plan) spot);
  legs = map (open_leg desk.env.now plan.fills) orm.legs;
}

abbrev pub position_for : StrategyRow → ExecutionPlan → ℕ → StrategyPosition
position_for orm plan id = record {
  id = id;
  strategy_id = orm.id;
  margin_blocked = plan.margin;
  realized_pnl = pos 0;
  unrealized_pnl = pos 0;
  brokerage = plan.total_brokerage;
  is_open = true;
  closed_at = none;
}

abbrev pub add_strategy_position : StrategyPosition → StrategyBook → StrategyBook
add_strategy_position p b = record b {
  rows = flush (record b.rows { next_id = b.rows.next_id + 1 });
  positions = b.positions ++ (p ∷ []);
}

-- The legs and their mirrors, the strategy's row, and the position, before the margin is blocked.
abbrev pub written : Desk → StrategyRow → ExecutionPlan → ℕ → StrategyBook → StrategyBook
written desk orm plan spot b =
    let rows = mirror_legs desk.env orm plan.fills orm.legs b.rows in
    add_strategy_position (position_for orm plan rows.next_id)
      (set_strategy (executed_row desk orm plan spot) (record b { rows = rows }))

-- The spot price of the chain of the first leg's expiry.
abbrev pub exec_spot : Desk → StrategyRow → ℕ
exec_spot desk orm = elim orm.legs [
  | [] ↦ 0
  | first ∷ _ ↦ (desk.chain_for orm.underlying first.expiry_date).spot_price
]

unfoldable pub open_position :
    Desk → StrategyRow → ExecutionPlan → TradingSession → Run StrategyPosition
open_position desk orm plan session b =
    let b' = written desk orm plan (exec_spot desk orm) b in
    let id = (mirror_legs desk.env orm plan.fills orm.legs b.rows).next_id in
    (do
      service (block_margin plan.margin LedgerRef.strategy_position id)
      service (modify (set_session (increment_trade_count session)))
      flush_book
      done_with (position_for orm plan id))
      b'

unfoldable pub afford : ℕ → Run (Unit {0})
afford margin b =
    fail_if (ltb_ℤ b.rows.account.balance (pos margin)) (raised insufficient_balance) b

abbrev pub no_legs : List LegRow → Bool
no_legs [] = true
no_legs _ = false

-- From the plan on: it has no unpriced leg, the balance covers its margin, and the rules pass.
unfoldable pub execute_plan :
    Desk → StrategyRow → TradingSession → ExecutionPlan → Run StrategyPosition
execute_plan desk orm session plan = do
  fail_if (not (is_none_left plan.problems)) unpriceable
  afford plan.margin
  service (check_strategy_discipline desk.env orm.setup_tag session)
  open_position desk orm plan session

unfoldable pub execute_valid : Desk → StrategyRow → TradingSession → Run StrategyPosition
execute_valid desk orm session = do
  checked (validate_strategy (to_domain orm))
  plan ← found_or_fail (raised value_error) (plan_execution desk (to_domain orm))
  execute_plan desk orm session plan

unfoldable pub execute_found : Desk → StrategyRow → Run StrategyPosition
execute_found desk orm = do
  fail_if (not (is_draft orm.status)) not_a_draft_any_more
  fail_if (no_legs orm.legs) empty_strategy
  session ← service (get_or_create_today desk.env.today)
  execute_valid desk orm session

unfoldable pub execute_strategy : Desk → ℕ → Run StrategyPosition
execute_strategy desk id = do
  service (require_market_open desk.env.now)
  orm ← get_strategy id
  execute_found desk orm
