-- ===== src/Action.antt =====
-- A service call of backend/app/services: it reads and writes the rows, and returns or raises.
-- What a call wrote before it raised is still in the session when the exception leaves it, so the
-- rows come back either way; `request` is the transaction that backend/app/database.py puts round
-- a route, which rolls back on an exception.
pub mod Sequence
use strikefluency.Prelude.{Bool, Option, none, some, if◌then◌else◌}
use strikefluency.Models.Terms.{DisciplineRuleCode}
use strikefluency.Models.Records.{Rows, flush}

-- backend/app/core/exceptions.py, and Python's own errors that the services raise
pub data Error : Type 0 where
  market_closed : Error
  idempotency_conflict : Error
  quote_unavailable : Error
  discipline_violation : DisciplineRuleCode → Error
  insufficient_balance : Error
  order_not_found : Error
  order_already_closed : Error
  order_protection : Error
  order_exit_limit : Error
  pending_order_not_found : Error
  pending_order_not_cancellable : Error
  runtime_error : Error
  value_error : Error

pub data Result {ℓ} (A : Type ℓ) : Type ℓ where
  ok : A → Result A
  err : Error → Result A

abbrev pub Action : Type 0 → Type 0
Action A = Rows → Result A × Rows

module _ {A : Type 0} where
  abbrev pub pure : A → Action A
  pure a s = (ok a, s)

  abbrev pub raise : Error → Action A
  raise e s = (err e, s)

  abbrev pub gets : (Rows → A) → Action A
  gets f s = (ok (f s), s)

  abbrev pub or_raise : Option A → Error → Action A
  or_raise none e = raise e
  or_raise (some a) e = pure a

  -- `get_db`: an exception in the route rolls the transaction back; otherwise it commits.
  abbrev pub request : Action A → Action A
  request act s = let (r, s') = act s in elim r [ ok a ↦ (ok a, flush s') | err e ↦ (err e, s) ]

infixl 5 ◌>>=◌ ◌>>◌
abbrev pub ◌>>=◌ : {A B : Type 0} → Action A → (A → Action B) → Action B
◌>>=◌ m f s = let (r, s') = m s in elim r [ ok a ↦ f a s' | err e ↦ (err e, s') ]

abbrev pub ◌>>◌ : {A B : Type 0} → Action A → Action B → Action B
m >> k = m >>= λ _. k

abbrev pub raise_if : Bool → Error → Action (Unit {0})
raise_if c e s = (if c then err e else ok tt, s)

abbrev pub modify : (Rows → Rows) → Action (Unit {0})
modify f s = (ok tt, f s)
