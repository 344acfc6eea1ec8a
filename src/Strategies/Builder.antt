-- ===== src/Strategies/Builder.antt =====
-- backend/app/strategy/builder.py. Each function raises before it changes the strategy, so a failure
-- carries the code alone. The underlying is one of the registry.
use strikefluency.Prelude.{
  pos, ◌%◌, ltb_ℤ, ◌&&◌, ◌++◌, [], false, leb, length, modify_first, none, select, ◌*◌, exists,
  find, if◌then◌else◌, ltb, not, some, true, ℤ, ◌==◌, ◌||◌, ◌∷◌, Bool, List, Option, ℕ,
}
use strikefluency.Strategies.Draft.{
  is_calendar, same_key, LegInstrumentType, is_draft, Leg, Strategy,
}
use strikefluency.Models.Terms.{OrderAction, instrument_eq, Instrument}
use strikefluency.Pricing.{spec_strike_interval}
use strikefluency.Discipline.{is_none}

pub data ValidationCode : Type 0 where
  underlying_mismatch strike_off_grid strike_required bad_option_type bad_action bad_quantity
        max_legs calendar_not_allowed leg_not_found not_a_draft :
      ValidationCode

pub data Checked {ℓ} (A : Type ℓ) : Type ℓ where
  passed : A → Checked A
  failed : ValidationCode → Checked A

infixr 5 ◌&>◌
abbrev pub ◌&>◌ : {A : Type 0} → Checked (Unit {0}) → Checked A → Checked A
passed _ &> k = k
failed c &> k = failed c

abbrev pub require : Bool → ValidationCode → Checked (Unit {0})
require c code = if c then passed tt else failed code

abbrev pub max_strategy_legs : ℕ
max_strategy_legs = 10

-- `InstrumentSpec.is_valid_strike`
unfoldable pub is_valid_strike : Instrument → ℕ → Bool
is_valid_strike i strike =
    let step = spec_strike_interval i * 100 in ltb 0 strike && (strike % step == 0)

abbrev pub check_strike : Instrument → LegInstrumentType → Option ℕ → Checked (Unit {0})
check_strike i LegInstrumentType.fut strike = passed tt
check_strike i t none = failed ValidationCode.strike_required
check_strike i t (some strike) = require (is_valid_strike i strike) ValidationCode.strike_off_grid

abbrev pub check_type : Instrument → Option LegInstrumentType → Option ℕ → Checked (Unit {0})
check_type i none strike = failed ValidationCode.bad_option_type
check_type i (some t) strike = check_strike i t strike

-- The tests in their order: the type, the action, the lots, the strike.
unfoldable pub validate_leg : Leg → Instrument → Checked (Unit {0})
validate_leg leg i =
    require (not (is_none leg.contract.instrument_type)) ValidationCode.bad_option_type
    &> require (not (is_none leg.action)) ValidationCode.bad_action
    &> require (ltb_ℤ (pos 0) leg.lots) ValidationCode.bad_quantity
    &> check_type i leg.contract.instrument_type leg.contract.strike

-- The legs but the one that is ignored.
abbrev pub other_legs : Option ℕ → List Leg → List Leg
other_legs none legs = legs
other_legs (some id) legs = select (λ l. not (l.id == id)) legs

abbrev pub is_empty : List Leg → Bool
is_empty [] = true
is_empty _ = false

abbrev pub shares_expiry : Leg → List Leg → Bool
shares_expiry leg others =
    is_empty others || exists (λ l. l.contract.expiry == leg.contract.expiry) others

-- `_validate_against_strategy`
unfoldable pub validate_against_strategy : Leg → Strategy → Option ℕ → Checked (Unit {0})
validate_against_strategy leg s ignored =
    require (instrument_eq leg.contract.underlying s.underlying) ValidationCode.underlying_mismatch
    &> require (shares_expiry leg (other_legs ignored s.legs) || s.allow_calendar)
        ValidationCode.calendar_not_allowed

abbrev pub require_draft : Strategy → Checked (Unit {0})
require_draft s = require (is_draft s.status) ValidationCode.not_a_draft

unfoldable pub add_leg : Strategy → Leg → Checked Strategy
add_leg s leg =
    require_draft s
    &> require (ltb (length s.legs) max_strategy_legs) ValidationCode.max_legs
    &> validate_leg leg s.underlying
    &> validate_against_strategy leg s none
    &> passed (record s { legs = s.legs ++ (leg ∷ []) })

abbrev pub has_leg_id : ℕ → Leg → Bool
has_leg_id id l = l.id == id

abbrev pub drop_first : (Leg → Bool) → List Leg → List Leg
drop_first p [] = []
drop_first p (l ∷ ls) = let rest = drop_first p ls in if p l then ls else l ∷ rest

unfoldable pub remove_leg : Strategy → ℕ → Checked Strategy
remove_leg s id =
    require_draft s
    &> require (exists (has_leg_id id) s.legs) ValidationCode.leg_not_found
    &> passed (record s { legs = drop_first (has_leg_id id) s.legs })

-- The fields of an edit; one that is none is kept.
pub record LegEdit : Type 0 where
  pub strike : Option ℕ
  pub expiry : Option ℕ
  pub lots : Option ℤ
  pub action : Option (Option OrderAction)
  pub instrument_type : Option (Option LegInstrumentType)

abbrev pub given_or {ℓ} : {A : Type ℓ} → Option A → A → A
given_or none old = old
given_or (some new) old = new

abbrev pub strike_or : Option ℕ → Option ℕ → Option ℕ
strike_or none old = old
strike_or (some new) old = some new

-- `candidate`, before its market snapshot is looked at.
abbrev pub candidate : LegEdit → Leg → Leg
candidate e l = record l {
  contract = record l.contract {
    expiry = given_or e.expiry l.contract.expiry;
    instrument_type = given_or e.instrument_type l.contract.instrument_type;
    strike = strike_or e.strike l.contract.strike;
  };
  action = given_or e.action l.action;
  lots = given_or e.lots l.lots;
}

-- The old snapshot is stale once the contract is another one.
abbrev pub freshen : LegEdit → Leg → Leg → Leg
freshen e old l = if same_key l.contract old.contract then l else record l {
  contract = record l.contract {
    ltp = none;
    iv = if is_none e.instrument_type && is_none e.strike then old.contract.iv else none;
  };
}

abbrev pub edited : LegEdit → Leg → Leg
edited e l = freshen e l (candidate e l)

unfoldable pub edit_found : Strategy → ℕ → LegEdit → Option Leg → Checked Strategy
edit_found s id e none = failed ValidationCode.leg_not_found
edit_found s id e (some target) =
    validate_leg (candidate e target) s.underlying
    &> validate_against_strategy (candidate e target) s (some id)
    &> passed (record s { legs = modify_first (has_leg_id id) (edited e) s.legs })

unfoldable pub edit_leg : Strategy → ℕ → LegEdit → Checked Strategy
edit_leg s id e = require_draft s &> edit_found s id e (find (has_leg_id id) s.legs)

abbrev pub validate_legs : Instrument → List Leg → Checked (Unit {0})
validate_legs i [] = passed tt
validate_legs i (l ∷ ls) =
    validate_leg l i
    &> require (instrument_eq l.contract.underlying i) ValidationCode.underlying_mismatch
    &> validate_legs i ls

unfoldable pub validate_strategy : Strategy → Checked (Unit {0})
validate_strategy s =
    require (not (is_empty s.legs)) ValidationCode.bad_quantity
    &> require (leb (length s.legs) max_strategy_legs) ValidationCode.max_legs
    &> validate_legs s.underlying s.legs
    &> require (not (is_calendar s.legs) || s.allow_calendar) ValidationCode.calendar_not_allowed
