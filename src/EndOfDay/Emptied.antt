-- ===== src/EndOfDay/Emptied.antt =====
-- What many closes in turn come to: none of the orders that were taken stays open.
use strikefluency.Market.{Env}
use strikefluency.Action.{err, ok, Result}
use strikefluency.Models.Records.{VirtualOrder, Rows}
use strikefluency.Prelude.{
  [], length, select, ◌+◌, none, arith, ◌≢◌, refl, ◌∷◌, ◌≤ℤ◌, pos, true, ◌≤◌, All, Option, ℕ, ◌∙◌,
  ◌≡◌, List,
}
use strikefluency.Models.Terms.{Instrument, ExitReason}
use strikefluency.EndOfDay.Sweeps.{
  settlement_day, is_expiring_by, is_intraday, close_each, settle_expiring_options,
  square_off_standalone,
}
use strikefluency.Clock.{is_market_open}
use strikefluency.Orders.Done.{is_done, NeverOpens}
use strikefluency.AutoExit.Sweep.{counted}
use strikefluency.Ledger.Balance.{IsReconciled}
use strikefluency.Orders.Close.{close_position}
use strikefluency.Orders.AnyClose.{close_position-done, close_position-any}

-- What a run of closes leaves alone and what it keeps.
pub record Swept (s s' : Rows) : Type 0 where
  pub pendings_eq : s'.pendings ≡ s.pendings
  pub next_id_eq : s'.next_id ≡ s.next_id
  pub never_opens : NeverOpens s.orders s'.orders
  pub reconciled : IsReconciled s → IsReconciled s'

pub Swept-refl : (s : Rows) → Swept s s
Swept-refl s = record {
  pendings_eq = refl;
  next_id_eq = refl;
  never_opens = λ id h. h;
  reconciled = λ h. h;
}

pub Swept-trans : (s t u : Rows) → Swept s t → Swept t u → Swept s u
Swept-trans s t u h k = record {
  pendings_eq = k.pendings_eq ∙ h.pendings_eq;
  next_id_eq = k.next_id_eq ∙ h.next_id_eq;
  never_opens = λ id d. k.never_opens id (h.never_opens id d);
  reconciled = λ r. k.reconciled (h.reconciled r);
}

pub close_position-Swept :
    (env : Env) (reason : ExitReason) (exit_ltp : Option ℕ) (s : Rows)
    → pos 0 ≤ℤ s.account.balance
    → (id : ℕ) → Swept s (close_position env id reason exit_ltp s).1
close_position-Swept env reason exit_ltp =
    close_position-any env reason exit_ltp Swept
      (λ s t h. record {
        pendings_eq = h.pendings_eq;
        next_id_eq = h.next_id_eq;
        never_opens = λ id d. rw h.orders_eq d;
        reconciled = λ r. rw (h.account_eq, h.ledger_eq) r;
      })
      (λ o x margin s t h. record {
        pendings_eq = h.pendings_eq;
        next_id_eq = h.next_id_eq;
        never_opens = h.never_opens;
        reconciled = h.reconciled;
      })
      (λ o x margin s t h. record {
        pendings_eq = h.pendings_eq;
        next_id_eq = h.next_id_eq;
        never_opens = h.never_opens;
        reconciled = h.reconciled;
      })

-- None of the orders is found open any more.
abbrev pub AllDone : List VirtualOrder → Rows → Type 0
AllDone os s = All (λ o. is_done o.id s.orders ≡ true) os

counted-rows : (r : Result VirtualOrder × Rows) → ((counted r).1 ≡ r.1) × ((counted r).0 ≤ 1)
counted-rows (ok o, s) = (refl, omega arith)
counted-rows (err e, s) = (refl, omega arith)

module _ (env : Env) where
  close_each-Swept :
      (os : List VirtualOrder) (n : ℕ) (s : Rows)
      → IsReconciled s
      → Swept s (close_each env os n s).1
  unfolding close_each
  close_each-Swept [] n s h = Swept-refl s
  close_each-Swept (o ∷ os) n s h =
      let r = close_position env o.id ExitReason.eod_squareoff none s in
      let (same, _) = counted-rows r in
      let first : Swept s (counted r).1 =
        rw same (close_position-Swept env ExitReason.eod_squareoff none s h.1 o.id) in
      Swept-trans s (counted r).1 _ first
        (close_each-Swept os (n + (counted r).0) (counted r).1 (first.reconciled h))

  pub square_off_standalone-Swept :
      (s : Rows) → IsReconciled s → Swept s (square_off_standalone env s).1
  unfolding square_off_standalone
  square_off_standalone-Swept s = close_each-Swept (select is_intraday s.orders) 0 s

  pub settle_expiring_options-Swept :
      (as_of : Option ℕ) (s : Rows)
      → IsReconciled s
      → Swept s (settle_expiring_options env as_of s).1
  unfolding settle_expiring_options
  settle_expiring_options-Swept as_of s =
      close_each-Swept (select (is_expiring_by (settlement_day env as_of)) s.orders) 0 s

  close_each-AllDone :
      (os : List VirtualOrder) (n : ℕ) (s : Rows)
      → is_market_open env.now ≡ true
      → ((i : Instrument) → env.get_option_chain i ≢ none)
      → IsReconciled s
      → AllDone os (close_each env os n s).1 × ((close_each env os n s).0 ≤ n + length os)
  unfolding close_each
  close_each-AllDone [] n s opened priced h = (tt, omega arith)
  close_each-AllDone (o ∷ os) n s opened priced h =
      let r = close_position env o.id ExitReason.eod_squareoff none s in
      let (same, one) = counted-rows r in
      let first : Swept s (counted r).1 =
        rw same (close_position-Swept env ExitReason.eod_squareoff none s h.1 o.id) in
      let done : is_done o.id (counted r).1.orders ≡ true =
        rw same (close_position-done env ExitReason.eod_squareoff none s o.id opened priced h.1) in
      let (rest, count) =
        close_each-AllDone os (n + (counted r).0) (counted r).1 opened priced
          (first.reconciled h) in
      let later = close_each-Swept os (n + (counted r).0) (counted r).1 (first.reconciled h) in
      ((later.never_opens o.id done, rest), omega (arith, one, count))

  -- While the market is open and the chains are to be had, from a reconciled account: after the
  -- square-off of standalone intraday orders none of them is open any more, even where the money
  -- did not cover a close; it counts at most as many as there were, never opens an order, leaves
  -- the pending orders alone and keeps the ledger reconciled.
  pub square_off_standalone-AllDone :
      (s : Rows)
      → is_market_open env.now ≡ true
      → ((i : Instrument) → env.get_option_chain i ≢ none)
      → IsReconciled s
      → let (n, s') = square_off_standalone env s in
        AllDone (select is_intraday s.orders) s'
        × (n ≤ length (select is_intraday s.orders))
        × Swept s s'
  unfolding square_off_standalone
  square_off_standalone-AllDone s opened priced h =
      let os = select is_intraday s.orders in
      let (done, count) = close_each-AllDone os 0 s opened priced h in
      (done, omega (arith, count), square_off_standalone-Swept s h)

  -- While the market is open and the chains are to be had, from a reconciled account: after the
  -- settlement of expiring options no standalone order whose contract expires by the day given, or
  -- by the date in India where none is, is open any more, whatever its product; the settlement
  -- never opens an order, leaves the pending orders alone and keeps the ledger reconciled.
  pub settle_expiring_options-AllDone :
      (as_of : Option ℕ) (s : Rows)
      → is_market_open env.now ≡ true
      → ((i : Instrument) → env.get_option_chain i ≢ none)
      → IsReconciled s
      → let (n, s') = settle_expiring_options env as_of s in
        AllDone (select (is_expiring_by (settlement_day env as_of)) s.orders) s' × Swept s s'
  unfolding settle_expiring_options
  settle_expiring_options-AllDone as_of s opened priced h =
      let os = select (is_expiring_by (settlement_day env as_of)) s.orders in
      ((close_each-AllDone os 0 s opened priced h).0, settle_expiring_options-Swept as_of s h)
