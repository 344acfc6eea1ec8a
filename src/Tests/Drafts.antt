-- ===== src/Tests/Drafts.antt =====
-- A spread built leg by leg.
use strikefluency.Strategies.Builder.{
  ValidationCode, failed, passed, is_valid_strike, validate_strategy, edited,
  validate_against_strategy, edit_found, validate_leg, LegEdit, add_leg, edit_leg, is_empty,
}
use strikefluency.Strategies.Built.{new_draft, with_leg, with_edit, Drafted}
use strikefluency.Prelude.{refl, true, pos, [], false, none, some, ◌∷◌, ◌≡◌, ℕ}
use strikefluency.Strategies.Draft.{LegStatus, StrategyStatus, LegInstrumentType, Leg, Strategy}
use strikefluency.Models.Terms.{Instrument, OrderAction}
use strikefluency.Pricing.{spec_strike_interval}
use strikefluency.Strategies.Ready.{validate_strategy-Drafted}

abbrev bare_draft : Strategy
bare_draft = record {
  underlying = Instrument.nifty;
  legs = [];
  status = StrategyStatus.draft;
  allow_calendar = false;
}

-- A NIFTY call of the strike, in hundredths of a point.
abbrev call_leg : ℕ → ℕ → OrderAction → Leg
call_leg id strike action = record {
  id = id;
  contract = record {
    underlying = Instrument.nifty;
    expiry = 11;
    instrument_type = some LegInstrumentType.ce;
    strike = some strike;
    ltp = some 10_000;
    bid = none;
    ask = none;
    iv = none;
  };
  action = some action;
  lots = pos 1;
  lot_size = 65;
  entry_price = none;
  status = LegStatus.leg_pending;
}

abbrev long_call : Leg
long_call = call_leg 1 2_200_000 OrderAction.buy

abbrev short_call : Leg
short_call = call_leg 2 2_210_000 OrderAction.sell

-- The short leg moved by one strike.
abbrev wider : LegEdit
wider = record {
  strike = some 2_215_000;
  expiry = none;
  lots = some (pos 1);
  action = none;
  instrument_type = none;
}

abbrev one_leg : Strategy
one_leg = record bare_draft { legs = long_call ∷ [] }

abbrev spread : Strategy
spread = record bare_draft { legs = long_call ∷ (short_call ∷ []) }

abbrev widened : Strategy
widened = record bare_draft { legs = long_call ∷ (edited wider short_call ∷ []) }

first_added : add_leg bare_draft long_call ≡ passed one_leg
unfolding add_leg validate_leg validate_against_strategy is_valid_strike spec_strike_interval
first_added = refl

second_added : add_leg one_leg short_call ≡ passed spread
unfolding add_leg validate_leg validate_against_strategy is_valid_strike spec_strike_interval
second_added = refl

moved : edit_leg spread 2 wider ≡ passed widened
unfolding edit_leg edit_found validate_leg validate_against_strategy is_valid_strike
    spec_strike_interval
moved = refl

drafted : Drafted widened
drafted = with_edit spread widened 2 wider moved (
    with_leg one_leg spread short_call (refl, tt) second_added
      (with_leg bare_draft one_leg long_call tt first_added (new_draft bare_draft refl)))

validate_strategy-Drafted_example :
    (is_empty widened.legs ≡ false → validate_strategy widened ≡ passed tt)
    × (is_empty widened.legs ≡ true
        → validate_strategy widened ≡ failed ValidationCode.bad_quantity)
validate_strategy-Drafted_example = validate_strategy-Drafted widened drafted
