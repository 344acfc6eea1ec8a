-- ===== src/Orders/Frame.antt =====
-- What the checks of an order leave alone: they may create the day's session, reset its cooldown
-- and log a violation, and they touch no order, no position and no money.
use strikefluency.Prelude.{◌≡◌, inl, inr, arith, Option-cases, ℕ}
use strikefluency.Models.Terms.{Instrument}
use strikefluency.Models.Records.{TradingSession, Rows}
use strikefluency.Action.{ok, ◌>>=◌, Action, err, Result}
use strikefluency.Market.{Env, fetch_orderable}
use strikefluency.Sessions.{get_or_create_today, find_today}
use strikefluency.Orders.Request.{OrderData}
use strikefluency.Orders.Place.{gate_discipline}
use strikefluency.Discipline.{enforce}

pub record SameBooks (s s' : Rows) : Type 0 where
  pub account_eq : s'.account ≡ s.account
  pub orders_eq : s'.orders ≡ s.orders
  pub positions_eq : s'.positions ≡ s.positions
  pub pendings_eq : s'.pendings ≡ s.pendings
  pub ledger_eq : s'.ledger ≡ s.ledger
  pub journal_eq : s'.journal ≡ s.journal
  pub scores_eq : s'.scores ≡ s.scores
  pub rules_eq : s'.rules ≡ s.rules
  pub leverage_eq : s'.leverage_enabled ≡ s.leverage_enabled
  pub next_id_eq : s'.next_id ≡ s.next_id

pub SameBooks-refl : (s : Rows) → SameBooks s s
SameBooks-refl s = ground arith

pub SameBooks-trans : (s t u : Rows) → SameBooks s t → SameBooks t u → SameBooks s u
SameBooks-trans s t u h k = ground arith

abbrev pub Keeps {ℓ} : {A : Type ℓ} → Rows → Result A × Rows → Type 0
Keeps s p = SameBooks s p.1

pub get_or_create_today-Keeps : (today : ℕ) (s : Rows) → Keeps s (get_or_create_today today s)
unfolding get_or_create_today
get_or_create_today-Keeps today s = elim (Option-cases (find_today today s.sessions)) [
  | inl e ↦ ground arith
  | inr (t, e) ↦ ground arith
]

-- Reading the market writes nothing at all.
pub fetch_orderable-same :
    (env : Env) (instrument : Instrument) (s : Rows) → (fetch_orderable env instrument s).1 ≡ s
unfolding fetch_orderable
fetch_orderable-same env instrument s = ground arith

pub gate_discipline-Keeps :
    (env : Env) (d : OrderData) (ltp : ℕ) (session : TradingSession) (s : Rows)
    → Keeps s (gate_discipline env d ltp session s)
unfolding gate_discipline enforce
gate_discipline-Keeps env d ltp session s = ground arith

-- How a call ends that either raises with the books as they were, or returns with `Good`.
module _ {B : Type 0} (Good : Rows → B → Rows → Type 0) where
  abbrev pub Ends : Rows → Result B × Rows → Type 0
  Ends s (err e, s') = SameBooks s s'
  Ends s (ok b, s') = Good s b s'

  -- What holds of the end of a call holds from any rows with the same books before it.
  module _ (shift : (s t : Rows) (b : B) (u : Rows) → SameBooks s t → Good t b u → Good s b u) where
    Ends-shift : (s t : Rows) (p : Result B × Rows) → SameBooks s t → Ends t p → Ends s p
    Ends-shift s t (err e, u) h k = SameBooks-trans s t u h k
    Ends-shift s t (ok b, u) h k = shift s t b u h k

    -- A call that keeps the books, followed by one that ends so.
    pub Ends-after :
        {A : Type 0} (p : Result A × Rows) (f : A → Action B) (s : Rows)
        → Keeps s p
        → ((a : A) (t : Rows) → Ends t (f a t))
        → Ends s (((λ _. p) >>= f) s)
    Ends-after (ok a, t) f s h k = Ends-shift s t (f a t) h (k a t)
    Ends-after (err e, t) f s h k = h
