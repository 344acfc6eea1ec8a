-- ===== src/Orders/TwoCloses.antt =====
-- Two closes in one transaction, as an emergency exit, a sweep or the end of the day makes them.
use strikefluency.Orders.CloseOutcome.{exit_of, close_position-Settles}
use strikefluency.Market.{OptionChain, Env}
use strikefluency.Prelude.{
  arith, inr, ltb_ℤ_iff, inl, ltb_ℤ, Bool-cases, refl, find, sym, ap, ◌∙◌, ◌+ℤ◌, List, ◌≢◌, ◌≤ℤ◌,
  false, pos, true, [], exists, ◌∷◌, Option, some, ◌++◌, ◌≡◌, ℕ,
}
use strikefluency.Models.Records.{DisciplineScore, TradingSession, VirtualOrder, Rows}
use strikefluency.Models.Terms.{is_open_status, ExitReason}
use strikefluency.Sessions.{find_today}
use strikefluency.Discipline.Streak.{day_score, of_day}
use strikefluency.Clock.{is_market_open}
use strikefluency.Orders.Close.{margin_of, close_position, Exit}
use strikefluency.Discipline.{recent_orders}
use strikefluency.Orders.Queries.{of_order, find_order}
use strikefluency.Orders.Closing.{with_result, Closed}
use strikefluency.Action.{err, Error, insufficient_balance, ok}
use strikefluency.Orders.Effects.{cooled}
use strikefluency.Orders.Day.{seen, day_of}

-- What a governed close leaves for the next: one more score of the day, with the tables as last
-- flushed unchanged.
record Rescored (today : ℕ) (s s' : Rows) : Type 0 where
  score : DisciplineScore
  dated : score.score_date ≡ today
  scores_eq : s'.scores ≡ s.scores ++ (score ∷ [])
  orders_eq : s'.db_orders ≡ s.db_orders
  known_eq : s'.db_scores ≡ s.db_scores
  session : TradingSession
  session_eq : find_today today s'.sessions ≡ some session
  floor : pos 0 ≤ℤ s'.account.balance

ok_not_err : (a : VirtualOrder) (e : Error) → ¬ (ok a ≡ err e)
ok_not_err a e h = ground arith

module _ (env : Env) (s : Rows) (session : TradingSession)
    (today : find_today env.today s.sessions ≡ some session)
    (unscored : exists (of_day env.today) s.db_scores ≡ false) where
  abbrev flushed : Rows → List VirtualOrder × List DisciplineScore
  flushed t = (t.db_orders, t.db_scores)

  seen-flushed : (s' : Rows) → flushed s' ≡ seen env.today s → flushed s' ≡ flushed s
  seen-flushed s' h = h ∙ rw today refl

  governed-Rescored :
      (o : VirtualOrder) (reason : ExitReason) (x : Exit) (margin : ℕ) (s' : Rows)
      (recent : List VirtualOrder)
      → recent_orders s.db_orders ≡ recent
      → recent ≢ []
      → o.was_free_play ≡ false
      → pos 0 ≤ℤ s.account.balance +ℤ pos margin +ℤ x.net_pnl
      → Closed env o reason x margin s s'
      → Rescored env.today s s'
  governed-Rescored o reason x margin s' [] e some_closed governed covered h =
      absurd (some_closed refl)
  governed-Rescored o reason x margin s' (c ∷ recent) e some_closed governed covered h = record {
    score = day_score env.today s'.account (c ∷ recent) s.violations;
    dated = refl;
    scores_eq = h.scores_eq ∙ rw (today, governed, e, unscored) refl;
    orders_eq =
        ap (λ (f : List VirtualOrder × List DisciplineScore). f.0) (seen-flushed s' h.flushed_eq);
    known_eq =
        ap (λ (f : List VirtualOrder × List DisciplineScore). f.1) (seen-flushed s' h.flushed_eq);
    session = cooled env o reason (with_result x.net_pnl (day_of env.today s));
    session_eq = h.day_eq;
    floor = rw h.balance_eq covered;
  }

  returned-Rescored :
      (o a : VirtualOrder) (reason : ExitReason) (exit_ltp : Option ℕ) (chain : OptionChain)
      → is_market_open env.now ≡ true
      → recent_orders s.db_orders ≢ []
      → env.get_option_chain o.instrument ≡ some chain
      → pos 0 ≤ℤ s.account.balance
      → find_order o.id s ≡ some o
      → is_open_status o.status ≡ true
      → o.was_free_play ≡ false
      → (close_position env o.id reason exit_ltp s).0 ≡ ok a
      → Rescored env.today s (close_position env o.id reason exit_ltp s).1
  returned-Rescored o a reason exit_ltp chain opened some_closed priced floor found live governed
        returned =
      let (through, short) =
        close_position-Settles env o reason exit_ltp chain s priced floor found opened live in
      let x = exit_of env o reason exit_ltp chain s priced floor found in
      let margin = margin_of (find (of_order o.id) s.positions) in
      let after = s.account.balance +ℤ pos margin +ℤ x.net_pnl in
      elim (Bool-cases (ltb_ℤ after (pos 0))) [
        | inl below ↦
            let (raised, _) = short ((ltb_ℤ_iff after (pos 0)).0 below) in
            absurd (ok_not_err a insufficient_balance (sym returned ∙ raised))
        | inr enough ↦
            let covered = (ltb_ℤ_iff after (pos 0)).1 enough in
            governed-Rescored o reason x margin _ (recent_orders s.db_orders) refl some_closed
              governed covered (through covered).1
      ]

-- Two governed orders closed one after the other, with the market open, the chains to be had, a
-- balance not below zero, the session of the day there, a governed trade closed before and no score
-- of the day flushed: where both closes return, they have added two scores for that day, since the
-- second does not see the row of the first. The table admits one row for a user and a day.
pub close_position_twice :
    (env : Env) (s : Rows) (o p a b : VirtualOrder) (reason second : ExitReason)
    (exit_ltp second_ltp : Option ℕ) (session : TradingSession) (chain second_chain : OptionChain)
    → is_market_open env.now ≡ true
    → find_today env.today s.sessions ≡ some session
    → recent_orders s.db_orders ≢ []
    → exists (of_day env.today) s.db_scores ≡ false
    → pos 0 ≤ℤ s.account.balance
    → env.get_option_chain o.instrument ≡ some chain
    → env.get_option_chain p.instrument ≡ some second_chain
    → find_order o.id s ≡ some o
    → is_open_status o.status ≡ true
    → o.was_free_play ≡ false
    → is_open_status p.status ≡ true
    → p.was_free_play ≡ false
    → let s' = (close_position env o.id reason exit_ltp s).1 in
      (close_position env o.id reason exit_ltp s).0 ≡ ok a
      → find_order p.id s' ≡ some p
      → (close_position env p.id second second_ltp s').0 ≡ ok b
      → let s'' = (close_position env p.id second second_ltp s').1 in
        (d : DisciplineScore) × (e : DisciplineScore) × (s''.scores
          ≡ (s.scores ++ (d ∷ [])) ++ (e ∷ []))
        × (d.score_date ≡ env.today)
        × (e.score_date ≡ env.today)
close_position_twice env s o p a b reason second exit_ltp second_ltp session chain second_chain
      opened today some_closed unscored floor priced second_priced found live governed second_live
      second_governed returned second_found second_returned =
    let s' = (close_position env o.id reason exit_ltp s).1 in
    let h =
      returned-Rescored env s session today unscored o a reason exit_ltp chain opened some_closed
        priced floor found live governed returned in
    let k =
      returned-Rescored env s' h.session h.session_eq
        (ap (exists (of_day env.today)) h.known_eq ∙ unscored) p b second second_ltp second_chain
        opened (λ e. some_closed (sym (ap recent_orders h.orders_eq) ∙ e)) second_priced h.floor
        second_found second_live second_governed second_returned in
    (h.score, k.score, k.scores_eq ∙ ap (λ l. l ++ (k.score ∷ [])) h.scores_eq, h.dated, k.dated)
