-- ===== src/Strategies/Plan.antt =====
-- `plan_execution` of backend/app/services/strategy_execution_service.py: the fills of a strategy,
-- its margin and its brokerage. It reads the market and writes no row.
use strikefluency.Prelude.{
  [], false, none, sum_of, pos_part, some, true, ◌∷◌, Bool, if◌then◌else◌, ℤ, ◌/◌, List, Option, ℕ,
}
use strikefluency.Strategies.Draft.{LegInstrumentType, Leg, Strategy}
use strikefluency.Strategies.Quote.{quote_leg, Desk, ExpiryChain}
use strikefluency.Strategies.Builder.{given_or}
use strikefluency.Strategies.Margin.{estimate_margin, MarginEstimate}
use strikefluency.Models.Terms.{Instrument, OrderAction}
use strikefluency.Pricing.{calculate_brokerage, calculate_slippage}
use strikefluency.Strategies.Payoff.{net_premium}

pub record LegFill : Type 0 where
  pub leg_id : ℕ
  pub action : OrderAction
  pub instrument_type : LegInstrumentType
  pub strike : Option ℕ
  pub quoted_ltp : ℕ
  pub fill_price : ℕ
  pub lots : ℕ
  pub lot_size : ℕ
  pub brokerage : ℕ

-- What `plan.legs` is here: the legs of the domain object, whose entry prices the plan sets.
pub record ExecutionPlan : Type 0 where
  pub fills : List LegFill
  pub legs : List Leg
  pub margin : ℕ
  pub total_brokerage : ℕ
  pub net_premium : Option ℤ
  -- The legs that have no usable price.
  pub problems : List ℕ

-- `int(...)` of a price in hundredths.
abbrev pub whole_points : ℕ → ℕ
whole_points p = p / 100

-- The strike at the money of a chain, or the price that stands in for it.
abbrev pub atm_of : ExpiryChain → ℕ → ℕ
atm_of chain price = given_or chain.atm_strike (whole_points price)

-- A future fills at its price, an option at its price after slippage.
unfoldable pub fill_at : Desk → ℕ → ℕ → LegInstrumentType → Option ℕ → OrderAction → Instrument → ℕ
fill_at desk ltp atm LegInstrumentType.fut strike action underlying = ltp
fill_at desk ltp atm t strike action underlying =
    (calculate_slippage desk.env.draw ltp (whole_points (given_or strike 0)) atm action
      underlying).0

-- The type and the action of a leg; those of a validated leg are there.
abbrev pub type_of : Leg → LegInstrumentType
type_of leg = given_or leg.contract.instrument_type LegInstrumentType.pe

abbrev pub action_of : Leg → OrderAction
action_of leg = given_or leg.action OrderAction.sell

abbrev pub fill_leg : Desk → Instrument → ℕ → Leg → ℕ → LegFill
fill_leg desk underlying atm leg ltp =
    let price = fill_at desk ltp atm (type_of leg) leg.contract.strike (action_of leg) underlying in
    record {
      leg_id = leg.id;
      action = action_of leg;
      instrument_type = type_of leg;
      strike = leg.contract.strike;
      quoted_ltp = ltp;
      fill_price = price;
      lots = pos_part leg.lots;
      lot_size = leg.lot_size;
      brokerage =
          (calculate_brokerage price (pos_part leg.lots) leg.lot_size (action_of leg)).total;
    }

-- The fills, the legs with their entry prices, and the legs without a price.
pub record Fills : Type 0 where
  pub filled : List LegFill
  pub legs : List Leg
  pub unpriced : List ℕ

abbrev pub add_fill : Desk → Instrument → ℕ → Leg → Option ℕ → Fills → Fills
add_fill desk underlying atm leg none r = record r {
  legs = leg ∷ r.legs;
  unpriced = leg.id ∷ r.unpriced;
}
add_fill desk underlying atm leg (some ltp) r =
    let fill = fill_leg desk underlying atm leg ltp in
    record r {
      filled = fill ∷ r.filled;
      legs = record leg { entry_price = some fill.fill_price } ∷ r.legs;
    }

-- The loop over the legs.
unfoldable pub fill_legs : Desk → Instrument → ℕ → List Leg → Fills
fill_legs desk underlying atm [] = record { filled = []; legs = []; unpriced = [] }
fill_legs desk underlying atm (leg ∷ legs) =
    add_fill desk underlying atm leg (quote_leg desk underlying leg)
      (fill_legs desk underlying atm legs)

abbrev pub estimate_total : Option MarginEstimate → ℕ
estimate_total none = 0
estimate_total (some e) = e.total

abbrev pub is_none_left : List ℕ → Bool
is_none_left [] = true
is_none_left _ = false

abbrev pub plan_from : Strategy → ℕ → Fills → ExecutionPlan
plan_from domain spot f =
    let filled = record domain { legs = f.legs } in
    record {
      fills = f.filled;
      legs = f.legs;
      margin = if is_none_left f.unpriced then estimate_total (estimate_margin filled spot) else 0;
      total_brokerage = sum_of (λ x. x.brokerage) f.filled;
      net_premium = if is_none_left f.unpriced then net_premium f.legs else none;
      problems = f.unpriced;
    }

abbrev pub plan_with : Desk → Strategy → ExpiryChain → ExecutionPlan
plan_with desk domain chain =
    plan_from domain chain.spot_price
      (fill_legs desk domain.underlying (atm_of chain chain.spot_price) domain.legs)

-- The chain of the first leg's expiry gives the spot price and the strike at the money.
abbrev pub plan_on : Desk → Strategy → List Leg → Option ExecutionPlan
plan_on desk domain [] = none
plan_on desk domain (first ∷ _) =
    some (plan_with desk domain (desk.chain_for domain.underlying first.contract.expiry))

-- Without a leg the margin estimate raises.
unfoldable pub plan_execution : Desk → Strategy → Option ExecutionPlan
plan_execution desk domain = plan_on desk domain domain.legs
