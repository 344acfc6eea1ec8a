-- ===== src/Strategies/Draft.antt =====
-- The dataclasses of backend/app/strategy/domain.py that a draft is made of. A text that is not one
-- of the known types or actions is none. Strikes are in hundredths of a point, where one that is
-- not positive is 0. Prices are numbers that are only copied; the open interest, the greeks and the
-- time and source of a quote, copied with them, are left out, as are names and timestamps.
use strikefluency.Prelude.{
  [], not, exists, ◌==◌, some, ℤ, ◌&&◌, ◌∷◌, false, none, true, Bool, List, Option, ℕ,
}
use strikefluency.Models.Terms.{OrderAction, instrument_eq, Instrument}
use strikefluency.Orders.Queries.{opt_eq}

pub data LegInstrumentType : Type 0 where
  ce pe fut : LegInstrumentType

pub data LegStatus : Type 0 where
  leg_pending leg_open leg_closed : LegStatus

pub data StrategyStatus : Type 0 where
  draft executed strategy_closed : StrategyStatus

pub record OptionContract : Type 0 where
  pub underlying : Instrument
  pub expiry : ℕ
  pub instrument_type : Option LegInstrumentType
  pub strike : Option ℕ
  pub ltp : Option ℕ
  pub bid : Option ℕ
  pub ask : Option ℕ
  pub iv : Option ℕ

pub record Leg : Type 0 where
  pub id : ℕ
  pub contract : OptionContract
  pub action : Option OrderAction
  pub lots : ℤ
  pub lot_size : ℕ
  pub entry_price : Option ℕ
  pub status : LegStatus

pub record Strategy : Type 0 where
  pub underlying : Instrument
  pub legs : List Leg
  pub status : StrategyStatus
  pub allow_calendar : Bool

abbrev pub is_draft : StrategyStatus → Bool
is_draft StrategyStatus.draft = true
is_draft _ = false

abbrev pub is_executed : StrategyStatus → Bool
is_executed StrategyStatus.executed = true
is_executed _ = false

-- More than one expiry.
abbrev pub is_calendar : List Leg → Bool
is_calendar [] = false
is_calendar (l ∷ ls) = exists (λ k. not (k.contract.expiry == l.contract.expiry)) ls

abbrev pub leg_type_eq : Option LegInstrumentType → Option LegInstrumentType → Bool
leg_type_eq none none = true
leg_type_eq (some LegInstrumentType.ce) (some LegInstrumentType.ce) = true
leg_type_eq (some LegInstrumentType.pe) (some LegInstrumentType.pe) = true
leg_type_eq (some LegInstrumentType.fut) (some LegInstrumentType.fut) = true
leg_type_eq _ _ = false

-- `key`
abbrev pub same_key : OptionContract → OptionContract → Bool
same_key a b =
    instrument_eq a.underlying b.underlying
    && (a.expiry == b.expiry)
    && leg_type_eq a.instrument_type b.instrument_type
    && opt_eq a.strike b.strike
