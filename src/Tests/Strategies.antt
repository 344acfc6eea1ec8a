-- ===== src/Tests/Strategies.antt =====
-- A call spread and a straddle, executed, closed and valued at expiry.
use strikefluency.Strategies.Finish.{SquaredOff, settled_position}
use strikefluency.Strategies.Book.{
  not_executed, StrategyPosition, leg_to_domain, to_domain, Failure, LegRow, StrategyBook,
  StrategyRow, done, fails,
}
use strikefluency.Strategies.Quote.{quote_leg, Desk, ExpiryChain}
use strikefluency.Strategies.Payoff.{
  analysis_prices, FloatSlope, last_or, right_tail_slope, net_premium,
}
use strikefluency.Prelude.{
  neg, Option, round_half_up, All, arith, true, ℤ, ◌≤ℤ◌, round_half_even, scale, ◌-ℤ◌, ◌+ℤ◌, ◌*ℤ◌,
  refl, negsuc, ◌≡◌, pos, false, none, [], ◌∷◌, List, some, ℕ,
}
use strikefluency.Strategies.SquareOff.{square_off}
use strikefluency.Tests.Fixtures.{now, fresh_rows, desk}
use strikefluency.Strategies.Draft.{Leg, Strategy, LegStatus, StrategyStatus, LegInstrumentType}
use strikefluency.Models.Terms.{ExitReason, SetupTag, ProductType, Instrument, OrderAction}
use strikefluency.Strategies.Execute.{execute_strategy}
use strikefluency.Strategies.Payoff.{
  find_breakevens, value_at_expiry, leg_pnl_at, PayoffResult, payoff_curve,
}
use strikefluency.Strategies.Frame.{EndsWell}
use strikefluency.Strategies.Payoff.Extremes.{IsWorst, IsBest}
use strikefluency.Strategies.Execution.{execute_strategy-ends, ExecutedDraft}
use strikefluency.Strategies.Payoff.Curve.{TellsSign, payoff_curve-extremes}
use strikefluency.Strategies.Unmargined.{execute_strategy-bought}
use strikefluency.Strategies.Exit.{realized_of, exit_ltp_for}
use strikefluency.Clock.{date_of, time_of_day, weekday, ist, is_market_open}
use strikefluency.Strategies.SquareOff.{net_of}
use strikefluency.Strategies.Settled.{square_off-SquaredOff}
use strikefluency.Strategies.Plan.{fill_at}
use strikefluency.Pricing.{
  spec_strike_interval, calculate_brokerage, is_liquid, slippage_points_of, calculate_slippage,
}
use strikefluency.Strategies.Closing.{HasExit}

abbrev market : ExpiryChain
market = record {
  spot_price = 2_200_000;
  atm_strike = some 22_000;
  strikes =
      record { strike = 22_000; ce = some 10_000; pe = some 9000 }
      ∷ (record { strike = 22_100; ce = some 6000; pe = some 15_000 } ∷ []);
}

-- A slope computed without an error, in units of 2^-82 rupee.
abbrev in_units : Option ℤ → ℤ
in_units none = pos 0
in_units (some paise) = paise *ℤ pos 48_357_032_784_585_166_988_247

abbrev exact_slope : FloatSlope
exact_slope legs far = in_units (right_tail_slope legs far)

abbrev strategy_desk : Desk
strategy_desk = record { env = desk; chain_for = λ _ _. market; tail_slope = exact_slope }

abbrev leg_row : ℕ → ℕ → LegInstrumentType → OrderAction → LegRow
leg_row id strike t action = record {
  id = id;
  instrument = Instrument.nifty;
  expiry_date = 11;
  strike_price = some strike;
  instrument_type = t;
  action = action;
  lots = 1;
  lot_size = 65;
  entry_price = none;
  exit_price = none;
  status = LegStatus.leg_pending;
  realized_pnl = pos 0;
  opened_at = none;
  closed_at = none;
}

abbrev drafted_row : ℕ → List LegRow → StrategyRow
drafted_row id legs = record {
  id = id;
  underlying = Instrument.nifty;
  status = StrategyStatus.draft;
  allow_calendar = false;
  product_type = ProductType.intraday;
  setup_tag = some SetupTag.price_action;
  net_premium = none;
  max_profit = none;
  max_loss = none;
  legs = legs;
}

-- A sold call with a bought one above it.
abbrev call_spread : StrategyRow
call_spread = drafted_row 7 (
    leg_row 71 2_200_000 LegInstrumentType.ce OrderAction.sell
    ∷ (leg_row 72 2_210_000 LegInstrumentType.ce OrderAction.buy ∷ []))

-- A bought call and a bought put.
abbrev straddle : StrategyRow
straddle = drafted_row 8 (
    leg_row 81 2_200_000 LegInstrumentType.ce OrderAction.buy
    ∷ (leg_row 82 2_200_000 LegInstrumentType.pe OrderAction.buy ∷ []))

abbrev both : StrategyBook
both = record { rows = fresh_rows; strategies = call_spread ∷ (straddle ∷ []); positions = [] }

execute_strategy-ends_example :
    EndsWell (ExecutedDraft strategy_desk 7) both (execute_strategy strategy_desk 7 both)
execute_strategy-ends_example = execute_strategy-ends strategy_desk 7 both

execute_strategy-bought_example :
    (e : Failure) × ((execute_strategy strategy_desk 8 both).0 ≡ fails e)
execute_strategy-bought_example =
    execute_strategy-bought strategy_desk 8 straddle both refl (refl, (refl, tt))

-- The call spread as it is filled.
abbrev filled_leg : ℕ → ℕ → OrderAction → ℕ → Leg
filled_leg id strike action price =
    record (leg_to_domain (leg_row id strike LegInstrumentType.ce action)) {
      entry_price = some price;
    }

abbrev filled_spread : Strategy
filled_spread = record (to_domain call_spread) {
  legs =
      filled_leg 71 2_200_000 OrderAction.sell 9950
      ∷ (filled_leg 72 2_210_000 OrderAction.buy 6030 ∷ []);
}

-- At most what was received, at least that less the width of the strikes.
abbrev spread_payoff : PayoffResult
spread_payoff = record {
  max_profit = some (pos 254_800);
  max_loss = some (negsuc 395_199);
  breakevens = 2_203_920 ∷ [];
  net_premium = some (pos 254_800);
}

spread_valued : payoff_curve exact_slope filled_spread 2_200_000 ≡ some spread_payoff
unfolding payoff_curve leg_pnl_at value_at_expiry find_breakevens net_premium ◌*ℤ◌ ◌+ℤ◌ ◌-ℤ◌ scale
    round_half_even neg
spread_valued = refl

abbrev far_of_spread : ℕ
far_of_spread = last_or 0 (analysis_prices filled_spread.legs 2_200_000)

spread_sound :
    (exact : ℤ)
    → right_tail_slope filled_spread.legs far_of_spread ≡ some exact
    → TellsSign (exact_slope filled_spread.legs far_of_spread) exact
unfolding leg_pnl_at value_at_expiry ◌*ℤ◌ ◌+ℤ◌ ◌-ℤ◌ scale neg
spread_sound exact h =
    let flat : exact ≡ pos 0 = ground arith in
    rw flat (record {
      up = λ k. absurd (omega arith);
      not_up = λ _. omega arith;
      down = λ k. absurd (omega arith);
      not_down = λ _. omega arith;
    })

payoff_curve-extremes_example :
    IsBest filled_spread.legs (some (pos 254_800))
    × IsWorst filled_spread.legs (some (negsuc 395_199))
payoff_curve-extremes_example =
    payoff_curve-extremes exact_slope filled_spread 2_200_000 spread_payoff spread_sound
      spread_valued

abbrev open_leg_row : ℕ → ℕ → OrderAction → ℕ → LegRow
open_leg_row id strike action price = record (leg_row id strike LegInstrumentType.ce action) {
  entry_price = some price;
  status = LegStatus.leg_open;
}

-- The call spread once it is executed, and its position.
abbrev live_spread : StrategyRow
live_spread =
    record (drafted_row 7 (
      open_leg_row 71 2_200_000 OrderAction.sell 9950
      ∷ (open_leg_row 72 2_210_000 OrderAction.buy 6030 ∷ []))) { status = StrategyStatus.executed }

abbrev spread_position : StrategyPosition
spread_position = record {
  id = 4;
  strategy_id = 7;
  margin_blocked = 434_720;
  realized_pnl = pos 0;
  unrealized_pnl = pos 0;
  brokerage = 5694;
  is_open = true;
  closed_at = none;
}

abbrev live_book : StrategyBook
live_book = record {
  rows = fresh_rows;
  strategies = live_spread ∷ [];
  positions = spread_position ∷ [];
}

first_exit :
    exit_ltp_for strategy_desk Instrument.nifty
      (open_leg_row 71 2_200_000 OrderAction.sell 9950)
      none
    ≡ some 10_000
unfolding exit_ltp_for quote_leg
first_exit = refl

second_exit :
    exit_ltp_for strategy_desk Instrument.nifty
      (open_leg_row 72 2_210_000 OrderAction.buy 6030)
      none
    ≡ some 6000
unfolding exit_ltp_for quote_leg
second_exit = refl

open_now : is_market_open now ≡ true
unfolding is_market_open ist weekday time_of_day date_of
open_now = refl

abbrev left : ℤ
left =
    fresh_rows.account.balance
    +ℤ pos 434_720
    +ℤ net_of (settled_position strategy_desk live_spread spread_position)

left_value : left ≡ pos 10_413_060
unfolding ◌+ℤ◌ ◌-ℤ◌ ◌*ℤ◌ scale exit_ltp_for quote_leg fill_at calculate_slippage slippage_points_of
    round_half_up is_liquid realized_of calculate_brokerage value_at_expiry spec_strike_interval
left_value = refl

still_covered : pos 0 ≤ℤ left
still_covered = rw left_value (omega arith)

all_priced : All (HasExit strategy_desk Instrument.nifty) live_spread.legs
all_priced = (λ _. (10_000, first_exit), (λ _. (6000, second_exit), tt))

covered_now : pos 0 ≤ℤ fresh_rows.account.balance
covered_now = omega arith

square_off-SquaredOff_example :
    (b' : StrategyBook) × (square_off strategy_desk ExitReason.manual 7 live_book ≡ (done tt, b'))
    × SquaredOff strategy_desk live_spread spread_position live_book b'
    × ((square_off strategy_desk ExitReason.manual 7 b').0 ≡ fails not_executed)
square_off-SquaredOff_example =
    square_off-SquaredOff strategy_desk ExitReason.manual live_spread spread_position live_book
      open_now refl refl (refl, (refl, tt)) all_priced refl refl covered_now still_covered
