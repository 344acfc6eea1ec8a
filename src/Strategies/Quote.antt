-- ===== src/Strategies/Quote.antt =====
-- `ChainPricer` of backend/app/strategy/chain.py: the price of a leg from the option chain of its
-- expiry. Of a quote the price is modelled: its greeks, its age and its source are reported to the
-- screens and do not stop a fill. The chain is what the market-data provider returns, arbitrary
-- here, with its spot price in hundredths of a point and the strikes in points.
use strikefluency.Prelude.{
  ℤ, [], ◌&&◌, ◌==◌, ◌*◌, ltb, not, ◌∷◌, if◌then◌else◌, none, some, List, Option, ℕ,
}
use strikefluency.Market.{StrikeQuote, Env}
use strikefluency.Strategies.Draft.{Leg, LegInstrumentType}
use strikefluency.Models.Terms.{Instrument}
use strikefluency.Strategies.Margin.{is_future}

pub record ExpiryChain : Type 0 where
  pub spot_price : ℕ
  pub atm_strike : Option ℕ
  pub strikes : List StrikeQuote

-- The environment of a call, and the chain of an underlying for an expiry.
pub record Desk : Type 0 where
  pub env : Env
  pub chain_for : Instrument → ℕ → ExpiryChain
  pub tail_slope : List Leg → ℕ → ℤ

abbrev pub side_price : LegInstrumentType → StrikeQuote → Option ℕ
side_price LegInstrumentType.ce q = q.ce
side_price _ q = q.pe

-- `has_tradeable_price`: a price of 0 is no price.
abbrev pub tradeable : Option ℕ → Option ℕ
tradeable none = none
tradeable (some p) = if ltb 0 p then some p else none

-- `_row` and the side of it: the first row of the strike decides.
abbrev pub row_price : List StrikeQuote → ℕ → LegInstrumentType → Option ℕ
row_price [] strike t = none
row_price (q ∷ qs) strike t =
    let rest = row_price qs strike t in
    if q.strike * 100 == strike then tradeable (side_price t q) else rest

abbrev option_price : List StrikeQuote → Option ℕ → LegInstrumentType → Option ℕ
option_price qs none t = none
option_price qs (some strike) t = row_price qs strike t

abbrev contract_price : ExpiryChain → Option LegInstrumentType → Option ℕ → Option ℕ
contract_price chain none strike = none
contract_price chain (some LegInstrumentType.fut) strike = tradeable (some chain.spot_price)
contract_price chain (some t) strike = option_price chain.strikes strike t

-- `quote_leg`: the price, where the quote is usable. An option that has expired has none.
unfoldable pub quote_leg : Desk → Instrument → Leg → Option ℕ
quote_leg desk underlying leg =
    let c = leg.contract in
    if not (is_future leg) && ltb c.expiry desk.env.today
    then none
    else contract_price (desk.chain_for underlying c.expiry) c.instrument_type c.strike
