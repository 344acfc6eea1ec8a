-- ===== src/Strategies/Book.antt =====
-- The tables of backend/app/models/strategy.py, as one user's rows beside the others, and the calls
-- of backend/app/services/strategy_execution_service.py on them. The columns for display
-- (`name`, `template_id`, `notes`) and the creation times are left out. The check constraints of
-- the tables make the types, the actions and the statuses of the columns closed, and a strike
-- present on a leg that is an option and on no other.
use strikefluency.Action.{err, ok, order_not_found, Action, Error, Result}
use strikefluency.Strategies.Builder.{failed, ValidationCode, passed, Checked}
use strikefluency.Models.Records.{Rows, flush}
use strikefluency.Prelude.{
  pos, none, List, find, if◌then◌else◌, map, some, ℤ, ◌==◌, Bool, Option, modify_first, ℕ,
}
use strikefluency.Strategies.Draft.{LegStatus, LegInstrumentType, StrategyStatus, Leg, Strategy}
use strikefluency.Models.Terms.{SetupTag, OrderAction, ProductType, Instrument}

-- `StrategyLeg`, with the strike in hundredths of a point and prices in paise.
pub record LegRow : Type 0 where
  pub id : ℕ
  pub instrument : Instrument
  pub expiry_date : ℕ
  pub strike_price : Option ℕ
  pub instrument_type : LegInstrumentType
  pub action : OrderAction
  pub lots : ℕ
  pub lot_size : ℕ
  pub entry_price : Option ℕ
  pub exit_price : Option ℕ
  pub status : LegStatus
  pub realized_pnl : ℤ
  pub opened_at : Option ℕ
  pub closed_at : Option ℕ

-- `Strategy` with its `legs`.
pub record StrategyRow : Type 0 where
  pub id : ℕ
  pub underlying : Instrument
  pub status : StrategyStatus
  pub allow_calendar : Bool
  pub product_type : ProductType
  pub setup_tag : Option SetupTag
  pub net_premium : Option ℤ
  pub max_profit : Option ℤ
  pub max_loss : Option ℤ
  pub legs : List LegRow

pub record StrategyPosition : Type 0 where
  pub id : ℕ
  pub strategy_id : ℕ
  pub margin_blocked : ℕ
  pub realized_pnl : ℤ
  pub unrealized_pnl : ℤ
  pub brokerage : ℕ
  pub is_open : Bool
  pub closed_at : Option ℕ

pub record StrategyBook : Type 0 where
  pub rows : Rows
  pub strategies : List StrategyRow
  pub positions : List StrategyPosition

-- What a call raises: an error of the other services, a rule of the builder, or one of its own
-- `StrategyValidationError`s. A strategy that is not there is `order_not_found`.
pub data Failure : Type 0 where
  raised : Error → Failure
  invalid : ValidationCode → Failure
  not_a_draft_any_more empty_strategy unpriceable no_such_leg leg_not_open not_executed : Failure

pub data Ending (A : Type 0) : Type 0 where
  done : A → Ending A
  fails : Failure → Ending A

abbrev pub Run : Type 0 → Type 0
Run A = StrategyBook → Ending A × StrategyBook

abbrev pub done_with : {A : Type 0} → A → Run A
done_with a b = (done a, b)

abbrev pub fail_if : Bool → Failure → Run (Unit {0})
fail_if c e b = (if c then fails e else done tt, b)

infixl 5 ◌>>=◌ ◌>>◌
abbrev pub ◌>>=◌ : {A B : Type 0} → Run A → (A → Run B) → Run B
◌>>=◌ m f b = let (r, b') = m b in elim r [ done a ↦ f a b' | fails e ↦ (fails e, b') ]

abbrev pub ◌>>◌ : {A B : Type 0} → Run A → Run B → Run B
m >> k = m >>= λ _. k

-- A call of one of the other services.
abbrev pub from_result : {A : Type 0} → Result A × Rows → StrategyBook → Ending A × StrategyBook
from_result (ok a, s) b = (done a, record b { rows = s })
from_result (err e, s) b = (fails (raised e), record b { rows = s })

abbrev pub service : {A : Type 0} → Action A → Run A
service act b = from_result (act b.rows) b

abbrev pub checked : {A : Type 0} → Checked A → Run A
checked (passed a) b = (done a, b)
checked (failed c) b = (fails (invalid c), b)

abbrev pub update : (StrategyBook → StrategyBook) → Run (Unit {0})
update f b = (done tt, f b)

abbrev pub strategy_has_id : ℕ → StrategyRow → Bool
strategy_has_id id o = o.id == id

abbrev pub found_or_fail : {A : Type 0} → Failure → Option A → Run A
found_or_fail e none b = (fails e, b)
found_or_fail e (some a) b = (done a, b)

-- `strategy_service.get_strategy`
unfoldable pub get_strategy : ℕ → Run StrategyRow
get_strategy id b =
    found_or_fail (raised order_not_found) (find (strategy_has_id id) b.strategies) b

-- The strategy object as it now is, written to its row.
abbrev pub set_strategy : StrategyRow → StrategyBook → StrategyBook
set_strategy o b = record b {
  strategies = modify_first (strategy_has_id o.id) (λ _. o) b.strategies;
}

abbrev pub of_strategy : ℕ → StrategyPosition → Bool
of_strategy id p = p.strategy_id == id

-- `_position`
abbrev pub strategy_position_of : ℕ → StrategyBook → Option StrategyPosition
strategy_position_of id b = find (of_strategy id) b.positions

abbrev pub set_position : StrategyPosition → StrategyBook → StrategyBook
set_position p b = record b {
  positions = modify_first (of_strategy p.strategy_id) (λ _. p) b.positions;
}

-- `db.flush()`
abbrev pub flush_book : Run (Unit {0})
flush_book = update (λ b. record b { rows = flush b.rows })

-- `strategy_service.leg_to_domain`
abbrev pub leg_to_domain : LegRow → Leg
leg_to_domain row = record {
  id = row.id;
  contract = record {
    underlying = row.instrument;
    expiry = row.expiry_date;
    instrument_type = some row.instrument_type;
    strike = row.strike_price;
    ltp = none;
    bid = none;
    ask = none;
    iv = none;
  };
  action = some row.action;
  lots = pos row.lots;
  lot_size = row.lot_size;
  entry_price = row.entry_price;
  status = row.status;
}

-- `strategy_service.to_domain`
abbrev pub to_domain : StrategyRow → Strategy
to_domain o = record {
  underlying = o.underlying;
  legs = map leg_to_domain o.legs;
  status = o.status;
  allow_calendar = o.allow_calendar;
}
