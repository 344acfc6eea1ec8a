-- ===== src/EndOfDay/Emergency.antt =====
-- The emergency exit: all of the open standalone purchases, or nothing.
use strikefluency.Market.{Env}
use strikefluency.Prelude.{
  [], arith, inl, inr, Bool-cases, false, refl, suc, ap, length, none, ◌∷◌, true, ◌≢◌, select, ◌≡◌,
  List,
}
use strikefluency.EndOfDay.Sweeps.{exit_each, is_exitable, emergency_exit_buy_positions}
use strikefluency.Models.Records.{Rows, VirtualOrder}
use strikefluency.Action.{market_closed, Action, err, request, pure, ok, ◌>>=◌, Result}
use strikefluency.Clock.{is_market_open, require_market_open}
use strikefluency.EndOfDay.Emptied.{close_position-Swept, Swept-trans, Swept-refl, AllDone, Swept}
use strikefluency.Models.Terms.{ExitReason, Instrument}
use strikefluency.Orders.Done.{is_done}
use strikefluency.Ledger.Balance.{IsReconciled}
use strikefluency.Orders.Close.{close_position}
use strikefluency.Orders.AnyClose.{close_position-done}

-- How closes in turn end, from the rows `s`, where one that raises ends them.
abbrev Exited : List VirtualOrder → Rows → Result (List VirtualOrder) × Rows → Type 0
Exited os s (ok cs, s') = AllDone os s' × (length cs ≡ length os) × Swept s s'
Exited os s (err e, s') = Swept s s'

-- One more close in front.
abbrev then_pure :
    VirtualOrder → Result (List VirtualOrder) × Rows → Result (List VirtualOrder) × Rows
then_pure c r = ((λ _. r) >>= λ (rest : List VirtualOrder). pure (c ∷ rest)) r.1

Exited-cons :
    (o c : VirtualOrder) (os : List VirtualOrder) (s t : Rows)
    (r : Result (List VirtualOrder) × Rows)
    → Swept s t
    → is_done o.id t.orders ≡ true
    → Exited os t r
    → Exited (o ∷ os) s (then_pure c r)
Exited-cons o c os s t (ok cs, u) first done (rest, count, later) =
    ((later.never_opens o.id done, rest), ap suc count, Swept-trans s t u first later)
Exited-cons o c os s t (err e, u) first done later = Swept-trans s t u first later

then_pure-Swept :
    (c : VirtualOrder) (s : Rows) (r : Result (List VirtualOrder) × Rows)
    → Swept s r.1
    → Swept s (then_pure c r).1
then_pure-Swept c s (ok cs, t) h = h
then_pure-Swept c s (err e, t) h = h

abbrev continue_with : Env → List VirtualOrder → VirtualOrder → Action (List VirtualOrder)
continue_with env os closed = exit_each env os >>= λ rest. pure (closed ∷ rest)

module _ (env : Env) (opened : is_market_open env.now ≡ true)
    (priced : (i : Instrument) → env.get_option_chain i ≢ none) where
  exit_one-Exited :
      (o : VirtualOrder) (os : List VirtualOrder) (s : Rows) (r : Result VirtualOrder × Rows)
      → IsReconciled s
      → Swept s r.1
      → is_done o.id r.1.orders ≡ true
      → ((t : Rows) → IsReconciled t → Exited os t (exit_each env os t))
      → Exited (o ∷ os) s (((λ _. r) >>= continue_with env os) s)
  exit_one-Exited o os s (ok c, t) h first done rest =
      Exited-cons o c os s t (exit_each env os t) first done (rest t (first.reconciled h))
  exit_one-Exited o os s (err e, t) h first done rest = first

  exit_each-Exited :
      (os : List VirtualOrder) (s : Rows) → IsReconciled s → Exited os s (exit_each env os s)
  unfolding exit_each
  exit_each-Exited [] s h = (tt, refl, Swept-refl s)
  exit_each-Exited (o ∷ os) s h =
      exit_one-Exited o os s (close_position env o.id ExitReason.emergency_exit none s) h
        (close_position-Swept env ExitReason.emergency_exit none s h.1 o.id)
        (close_position-done env ExitReason.emergency_exit none s o.id opened priced h.1)
        (exit_each-Exited os)

module _ (env : Env) where
  -- Whatever each close comes to.
  exit_one-Swept :
      (os : List VirtualOrder) (s : Rows) (r : Result VirtualOrder × Rows)
      → IsReconciled s
      → Swept s r.1
      → ((t : Rows) → IsReconciled t → Swept t (exit_each env os t).1)
      → Swept s (((λ _. r) >>= continue_with env os) s).1
  exit_one-Swept os s (ok c, t) h first rest =
      Swept-trans s t _ first
        (then_pure-Swept c t (exit_each env os t) (rest t (first.reconciled h)))
  exit_one-Swept os s (err e, t) h first rest = first

  exit_each-Swept :
      (os : List VirtualOrder) (s : Rows) → IsReconciled s → Swept s (exit_each env os s).1
  unfolding exit_each
  exit_each-Swept [] s h = Swept-refl s
  exit_each-Swept (o ∷ os) s h =
      exit_one-Swept os s (close_position env o.id ExitReason.emergency_exit none s) h
        (close_position-Swept env ExitReason.emergency_exit none s h.1 o.id) (exit_each-Swept os)

  pub emergency_exit_buy_positions-Swept :
      (s : Rows) → IsReconciled s → Swept s (emergency_exit_buy_positions env s).1
  unfolding emergency_exit_buy_positions require_market_open
  emergency_exit_buy_positions-Swept s h = elim (Bool-cases (is_market_open env.now)) [
    | inr shut ↦ rw shut (Swept-refl s)
    | inl opened ↦ rw opened (exit_each-Swept (select (is_exitable s) s.orders) s h)
  ]

-- The end of the emergency exit as a request.
abbrev pub Emptied : Rows → Result (List VirtualOrder) × Rows → Type 0
Emptied s (ok cs, s') =
    AllDone (select (is_exitable s) s.orders) s'
    × (length cs ≡ length (select (is_exitable s) s.orders))
    × Swept s s'
Emptied s (err e, s') = s' ≡ s

request-Emptied :
    (s : Rows) (r : Result (List VirtualOrder) × Rows)
    → Exited (select (is_exitable s) s.orders) s r
    → Emptied s (request (λ _. r) s)
request-Emptied s (ok cs, t) (done, count, h) = (
  done,
  count,
  record {
    pendings_eq = h.pendings_eq;
    next_id_eq = h.next_id_eq;
    never_opens = h.never_opens;
    reconciled = h.reconciled;
  },
)
request-Emptied s (err e, t) h = refl

-- The emergency exit as a request, with the chains to be had, from a reconciled account: it raises
-- and is rolled back whole, as it does whenever the market is shut; or it returns one closed order
-- for each open standalone purchase with an open position, none of which is open any more, having
-- opened no order, left the pending orders alone and kept the ledger reconciled.
pub emergency_exit_buy_positions-Emptied :
    (env : Env) (s : Rows)
    → ((i : Instrument) → env.get_option_chain i ≢ none)
    → IsReconciled s
    → Emptied s (request (emergency_exit_buy_positions env) s)
      × (is_market_open env.now ≡ false
          → request (emergency_exit_buy_positions env) s ≡ (err market_closed, s))
unfolding emergency_exit_buy_positions require_market_open
emergency_exit_buy_positions-Emptied env s priced h = elim (Bool-cases (is_market_open env.now)) [
  | inr shut ↦ rw shut (refl, λ _. refl)
  | inl opened ↦
      let os = select (is_exitable s) s.orders in
      rw opened (
        request-Emptied s (exit_each env os s) (exit_each-Exited env opened priced os s h),
        λ shut. absurd (ground (arith, shut)),
      )
]
