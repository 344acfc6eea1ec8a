-- ===== src/Orders/CloseOutcome.antt =====
-- `close_position` as its callers see it.
use strikefluency.Models.Terms.{ExitReason, is_open_status}
use strikefluency.Models.Records.{
  DisciplineScore, VirtualAccount, VirtualOrder, VirtualPosition, TradingSession, Rows,
}
use strikefluency.Action.{
  runtime_error, order_already_closed, order_not_found, market_closed, insufficient_balance, ok,
  err, Result,
}
use strikefluency.Market.{Env, OptionChain}
use strikefluency.Sessions.{find_today, get_or_create_today}
use strikefluency.Sessions.Cooldown.{get_or_create_today_once}
use strikefluency.Orders.Frame.{SameBooks, get_or_create_today-Keeps}
use strikefluency.Orders.Close.{
  close_found, close_open, compliant_after, settle, close_order, Exit, exit_for, close_position,
  margin_of,
}
use strikefluency.Orders.Settlement.{settle-closed, settle-short, IsCovered}
use strikefluency.Orders.Closing.{Abandoned, cleared-Abandoned, Closed, closed_state-Closed}
use strikefluency.Prelude.{
  List, ap, none, false, true, refl, find, arith, some, ◌≤ℤ◌, pos, ◌+ℤ◌, ◌∙◌, ◌≡◌, ℕ, ◌<ℤ◌, Option,
  ℤ,
}
use strikefluency.Orders.Queries.{of_order, find_order}
use strikefluency.Clock.{is_market_open, require_market_open}
use strikefluency.Orders.Day.{
  seen, HasDay-seen, HasDay-day_of, day_of, HasDay, get_or_create_today-HasDay,
}
use strikefluency.Orders.Effects.{scores_after, account_after}
use strikefluency.Discipline.{recent_orders}

short_covered : (a : ℤ) → a <ℤ pos 0 → ¬ (pos 0 ≤ℤ a)
short_covered a h k = omega arith

abbrev with_balance : Rows → VirtualAccount → VirtualAccount
with_balance u a = record a { balance = u.account.balance }

Closed-shift :
    (env : Env) (o : VirtualOrder) (reason : ExitReason) (x : Exit) (margin : ℕ) (s t u : Rows)
    → SameBooks s t
    → HasDay env.today s t
    → Closed env o reason x margin t u
    → Closed env o reason x margin s u
Closed-shift env o reason x margin s t u h d k = record {
  found = k.found;
  positions_eq = rw (← h.positions_eq) k.positions_eq;
  journal_eq = rw (← h.journal_eq) k.journal_eq;
  pendings_eq = k.pendings_eq ∙ h.pendings_eq;
  next_id_eq = k.next_id_eq ∙ h.next_id_eq;
  balance_eq = rw (← h.account_eq) k.balance_eq;
  never_opens = λ id gone. k.never_opens id (rw h.orders_eq gone);
  reconciled = λ r. k.reconciled (rw (h.account_eq, h.ledger_eq) r);
  day_eq = rw (← (HasDay-day_of env.today s t d)) k.day_eq;
  others_eq = λ n ne. k.others_eq n ne ∙ d.others_eq n ne;
  account_eq =
      k.account_eq
      ∙ ap
          (λ (f : List VirtualOrder × List DisciplineScore).
            with_balance u (account_after o reason (recent_orders f.0) t.account))
          (HasDay-seen env.today s t d)
      ∙ ap (λ a. with_balance u (account_after o reason (recent_orders (seen env.today s).0) a))
          h.account_eq;
  scores_eq =
      let recent = recent_orders (seen env.today s).0 in
      let known = (seen env.today s).1 in
      k.scores_eq
      ∙ ap
          (λ (f : List VirtualOrder × List DisciplineScore).
            scores_after env.today o (recent_orders f.0) f.1 t.violations u.account t.scores)
          (HasDay-seen env.today s t d)
      ∙ ap (λ v. scores_after env.today o recent known v u.account t.scores) d.violations_eq
      ∙ ap (scores_after env.today o recent known s.violations u.account) h.scores_eq;
  violations_eq = k.violations_eq ∙ d.violations_eq;
  rules_eq = k.rules_eq ∙ h.rules_eq;
  leverage_eq = k.leverage_eq ∙ h.leverage_eq;
  flushed_eq = k.flushed_eq ∙ HasDay-seen env.today s t d;
}

Abandoned-shift :
    (env : Env) (o : VirtualOrder) (reason : ExitReason) (x : Exit) (margin : ℕ) (s t u : Rows)
    → SameBooks s t
    → HasDay env.today s t
    → Abandoned env o reason x margin t u
    → Abandoned env o reason x margin s u
Abandoned-shift env o reason x margin s t u h d k = record {
  found = k.found;
  positions_eq = rw (← h.positions_eq) k.positions_eq;
  journal_eq = rw (← h.journal_eq) k.journal_eq;
  pendings_eq = k.pendings_eq ∙ h.pendings_eq;
  next_id_eq = k.next_id_eq ∙ h.next_id_eq;
  balance_eq = rw (← h.account_eq) k.balance_eq;
  never_opens = λ id gone. k.never_opens id (rw h.orders_eq gone);
  reconciled = λ r. k.reconciled (rw (h.account_eq, h.ledger_eq) r);
  day_eq = rw (← (HasDay-day_of env.today s t d)) k.day_eq;
  others_eq = λ n ne. k.others_eq n ne ∙ d.others_eq n ne;
  account_eq = rw (← h.account_eq) k.account_eq;
  scores_eq = k.scores_eq ∙ h.scores_eq;
  violations_eq = k.violations_eq ∙ d.violations_eq;
  rules_eq = k.rules_eq ∙ h.rules_eq;
  leverage_eq = k.leverage_eq ∙ h.leverage_eq;
}

-- The end of a close, with the exit `x` and the margin of the position: it went through where the
-- balance, with the margin back, covers the result, and raised half way where it does not.
abbrev pub Settles :
    Env → VirtualOrder → ExitReason → Exit → ℕ → Rows → Result VirtualOrder × Rows → Type 0
Settles env o reason x margin s p =
    let after = s.account.balance +ℤ pos margin +ℤ x.net_pnl in
    (pos 0 ≤ℤ after
      → (p.0
          ≡ ok (record (close_order env reason x o) {
            is_discipline_compliant = compliant_after o reason;
          }))
        × Closed env o reason x margin s p.1)
    × (after <ℤ pos 0 → (p.0 ≡ err insufficient_balance) × Abandoned env o reason x margin s p.1)

module _ (env : Env) (o : VirtualOrder) (reason : ExitReason) (exit_ltp : Option ℕ)
    (chain : OptionChain) (s : Rows) (priced : env.get_option_chain o.instrument ≡ some chain)
    (floor : pos 0 ≤ℤ s.account.balance) (found : find_order o.id s ≡ some o) where
  abbrev position_of : Option VirtualPosition
  position_of = find (of_order o.id) s.positions

  abbrev pub exit_of : Exit
  exit_of = exit_for env o position_of reason exit_ltp chain

  settle-Settles :
      (session : TradingSession) (t : Rows)
      → SameBooks s t
      → HasDay env.today s t
      → find_today env.today t.sessions ≡ some session
      → Settles env o reason exit_of
          (margin_of position_of)
          s
          (settle env o position_of reason session exit_of t)
  unfolding find_order
  settle-Settles session t same day today =
      let floor' : pos 0 ≤ℤ t.account.balance = rw same.account_eq floor in
      (
        λ covered.
            let covered' : IsCovered env o position_of reason session exit_of t =
              rw same.account_eq covered in
            rw (settle-closed env o position_of reason session exit_of t floor' covered') (
              refl,
              Closed-shift env o reason exit_of (margin_of position_of) s t _ same day (
                  closed_state-Closed env o position_of reason session exit_of t covered'
                    (rw same.orders_eq found) today),
            ),
        λ short.
            rw
              (settle-short env o position_of reason session exit_of t floor'
                (λ covered. short_covered _ short (rw same.account_eq at covered)))
              (
                refl,
                Abandoned-shift env o reason exit_of (margin_of position_of) s t _ same day (
                    cleared-Abandoned env o position_of reason session exit_of t
                      (rw same.orders_eq found) today),
              ),
      )

  close_open-Settles :
      Settles env o reason exit_of (margin_of position_of) s (close_open env o reason exit_ltp s)
  unfolding close_open find_order ◌+ℤ◌ get_or_create_today exit_for
  close_open-Settles =
      let (e, day) = get_or_create_today-HasDay env.today s in
      let t = (get_or_create_today env.today s).1 in
      rw (e, priced)
        (settle-Settles (day_of env.today s) t (get_or_create_today-Keeps env.today s) day
          day.day_eq)

  -- With the market open, an order found and open, the chain to be had and a balance not below
  -- zero, a close goes through exactly when the balance, with the blocked margin back, covers the
  -- net result. It then marks the order with the fill, the P&L and the reason, closes its position,
  -- adds the margin and the result to the balance, books the result on the session of the day,
  -- writes one journal entry and keeps the ledger reconciled. A trade of free play is not scored; a
  -- governed one lengthens or ends the streak, and the score and the row of the day are computed
  -- from the orders and the daily scores as they were flushed before the close marked the order. A
  -- governed stop-loss exit starts the cooldown. The other sessions, the pending orders, the
  -- violations, the rules and the rest of the account stay. Otherwise the close raises for
  -- insufficient balance, and by then the order and the position are marked as closed and the
  -- margin is back, with nothing settled, booked, scored or entered in the journal, which is undone
  -- only where the caller rolls back.
  pub close_position-Settles :
      is_market_open env.now ≡ true
      → is_open_status o.status ≡ true
      → Settles env o reason exit_of
          (margin_of position_of)
          s
          (close_position env o.id reason exit_ltp s)
  unfolding close_position close_found require_market_open
  close_position-Settles opened live = rw (opened, found, live) close_open-Settles

module _ (env : Env) (reason : ExitReason) (exit_ltp : Option ℕ) (s : Rows) where
  -- A close that is refused before it touches the order. Nothing is written when the market is
  -- shut, when there is no such order, or when the order is closed already, tested in this order;
  -- and a provider that raises leaves the books as they were.
  pub close_position-refused :
      (id : ℕ)
      → (is_market_open env.now ≡ false
          → close_position env id reason exit_ltp s ≡ (err market_closed, s))
        × (is_market_open env.now ≡ true
            → find_order id s ≡ none
            → close_position env id reason exit_ltp s ≡ (err order_not_found, s))
        × ((o : VirtualOrder)
            → is_market_open env.now ≡ true
            → find_order id s ≡ some o
            → is_open_status o.status ≡ false
            → close_position env id reason exit_ltp s ≡ (err order_already_closed, s))
        × ((o : VirtualOrder)
            → is_market_open env.now ≡ true
            → find_order id s ≡ some o
            → is_open_status o.status ≡ true
            → env.get_option_chain o.instrument ≡ none
            → ((close_position env id reason exit_ltp s).0 ≡ err runtime_error)
              × SameBooks s (close_position env id reason exit_ltp s).1)
  unfolding close_position close_found require_market_open close_open get_or_create_today
  close_position-refused id = (
    λ shut. rw shut refl,
    λ opened missing. rw (opened, missing) refl,
    λ o opened found done. rw (opened, found, done) refl,
    λ o opened found live down.
        let (session, e, _, _, _, _) = get_or_create_today_once env.today s in
        rw (opened, found, live, e, down) (refl, get_or_create_today-Keeps env.today s),
  )
