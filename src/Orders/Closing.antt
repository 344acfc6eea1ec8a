-- ===== src/Orders/Closing.antt =====
-- `close_position` on every path: what a close writes, and when it is refused.
use strikefluency.Models.Terms.{is_open_status, LedgerRef, LedgerTxnType, ExitReason}
use strikefluency.Models.Records.{
  VirtualAccount, VirtualOrder, VirtualPosition, TradingSession, Rows,
}
use strikefluency.Market.{Env}
use strikefluency.Ledger.Balance.{IsReconciled}
use strikefluency.Discipline.Streak.{scored_account}
use strikefluency.Orders.Close.{
  status_of, journal_entry, Exit, close_order, close_row, compliant_after, margin_of, closed_rows,
}
use strikefluency.Orders.Settlement.{
  released-IsReconciled, released-balance, settled-balance, settled-IsReconciled, IsCovered,
  closed_state, settled, released,
}
use strikefluency.Prelude.{
  List, Bool, ◌≢◌, [], ap, ◌∷◌, inr, ◌∙◌, inl, ◌++◌, eqb_ℤ, pos, Bool-cases, modify_first, refl,
  ◌+ℤ◌, Option, ℕ, ℤ, find-modify_first, ==_iff, true, arith, if◌then◌else◌, some, false, ◌≡◌,
}
use strikefluency.Sessions.{find_today, update_realized_pnl, set_session}
use strikefluency.Orders.Queries.{of_order, has_id, find_order}
use strikefluency.Ledger.Credits.{credited-SameTables, SameTables}
use strikefluency.Orders.Done.{NeverOpens-modify_first, NeverOpens}
use strikefluency.Orders.Day.{seen, day_of}
use strikefluency.Sessions.Storing.{find_today-dated, set_session-found, set_session-others}
use strikefluency.Orders.Effects.{
  discipline_effects-NeverOpens, discipline_effects-find, scores_after, discipline_effects-account,
  discipline_effects-day, account_after, cooled, discipline_effects-SameMoney,
}
use strikefluency.Discipline.{recent_orders}

-- No reason of a close leaves an order open.
pub status_of-closed : (reason : ExitReason) → is_open_status (status_of reason) ≡ false
status_of-closed reason = ground arith

released-SameTables : (margin id : ℕ) (s : Rows) → SameTables s (released margin id s)
released-SameTables = credited-SameTables LedgerTxnType.trade_credit LedgerRef.virtual_order

settled-SameTables : (net : ℤ) (id : ℕ) (s : Rows) → SameTables s (settled net id s)
settled-SameTables net id s = elim (Bool-cases (eqb_ℤ net (pos 0))) [
  | inl flat ↦ rw flat (ground arith)
  | inr moved ↦ rw moved (ground arith)
]

-- A session with the result booked.
abbrev pub with_result : ℤ → TradingSession → TradingSession
with_result net t = record t { realized_pnl = t.realized_pnl +ℤ net }

-- A close that went through, for the reason given, at the exit `x`, with the margin released: the
-- order `c` as it now is, its position closed, the journal one entry longer, the balance moved by
-- the margin and the net result, and the result booked on the day's session. A governed trade is
-- scored, on the orders and the scores as they were last flushed, and a governed stop-loss exit
-- starts the cooldown; the rest of the account, the other sessions, the violations, the rules and
-- the settings stay.
pub record Closed (env : Env) (o : VirtualOrder) (reason : ExitReason) (x : Exit) (margin : ℕ)
    (s s' : Rows) : Type 0 where
  pub found :
      find_order o.id s'
      ≡ some (record (close_order env reason x o) {
        is_discipline_compliant = compliant_after o reason;
      })
  pub positions_eq : s'.positions ≡ modify_first (of_order o.id) (close_row env x) s.positions
  pub journal_eq : s'.journal ≡ s.journal ++ (journal_entry env o reason x ∷ [])
  pub pendings_eq : s'.pendings ≡ s.pendings
  pub next_id_eq : s'.next_id ≡ s.next_id
  pub balance_eq : s'.account.balance ≡ s.account.balance +ℤ pos margin +ℤ x.net_pnl
  pub never_opens : NeverOpens s.orders s'.orders
  pub day_eq :
      find_today env.today s'.sessions
      ≡ some (cooled env o reason (with_result x.net_pnl (day_of env.today s)))
  pub others_eq : (d : ℕ) → d ≢ env.today → find_today d s'.sessions ≡ find_today d s.sessions
  pub account_eq :
      s'.account ≡ record (account_after o reason (recent_orders (seen env.today s).0) s.account) {
        balance = s'.account.balance;
      }
  pub scores_eq :
      s'.scores
      ≡ scores_after env.today o
          (recent_orders (seen env.today s).0)
          (seen env.today s).1
          s.violations
          s'.account
          s.scores
  pub violations_eq : s'.violations ≡ s.violations
  pub rules_eq : s'.rules ≡ s.rules
  pub leverage_eq : s'.leverage_enabled ≡ s.leverage_enabled
  pub flushed_eq : (s'.db_orders, s'.db_scores) ≡ seen env.today s
  pub reconciled : IsReconciled s → IsReconciled s'

-- A close that raised half way: the order and its position stand as closed, the margin is back, and
-- the result is not settled, booked, scored or entered in the journal.
pub record Abandoned (env : Env) (o : VirtualOrder) (reason : ExitReason) (x : Exit) (margin : ℕ)
    (s s' : Rows) : Type 0 where
  pub found : find_order o.id s' ≡ some (close_order env reason x o)
  pub positions_eq : s'.positions ≡ modify_first (of_order o.id) (close_row env x) s.positions
  pub journal_eq : s'.journal ≡ s.journal
  pub pendings_eq : s'.pendings ≡ s.pendings
  pub next_id_eq : s'.next_id ≡ s.next_id
  pub balance_eq : s'.account.balance ≡ s.account.balance +ℤ pos margin
  pub never_opens : NeverOpens s.orders s'.orders
  pub day_eq : find_today env.today s'.sessions ≡ some (day_of env.today s)
  pub others_eq : (d : ℕ) → d ≢ env.today → find_today d s'.sessions ≡ find_today d s.sessions
  pub account_eq : s'.account ≡ record (s.account) { balance = s'.account.balance }
  pub scores_eq : s'.scores ≡ s.scores
  pub violations_eq : s'.violations ≡ s.violations
  pub rules_eq : s'.rules ≡ s.rules
  pub leverage_eq : s'.leverage_enabled ≡ s.leverage_enabled
  pub reconciled : IsReconciled s → IsReconciled s'

account_kept :
    (free compliant : Bool) (recent : List VirtualOrder) (a b c : VirtualAccount)
    → b ≡ record a { balance = b.balance }
    → c ≡ (if free then b else scored_account compliant recent b)
    → c ≡ record (if free then a else scored_account compliant recent a) { balance = c.balance }
account_kept true compliant recent a b c h k = rw k h
account_kept false compliant recent a b c h k = rw k (ap (scored_account compliant recent) h)

module _ (env : Env) (o : VirtualOrder) (position : Option VirtualPosition) (reason : ExitReason)
    (session : TradingSession) (x : Exit) (s : Rows) where
  abbrev cleared : Rows
  cleared = released (margin_of position) o.id (closed_rows env o reason x s)

  abbrev paid : Rows
  paid = settled x.net_pnl o.id cleared

  abbrev recorded : Rows
  recorded = set_session (update_realized_pnl x.net_pnl session) paid

  paid-SameTables : SameTables (closed_rows env o reason x s) paid
  paid-SameTables = ground (
    arith,
    released-SameTables (margin_of position) o.id (closed_rows env o reason x s),
    settled-SameTables x.net_pnl o.id cleared,
  )

  rows-NeverOpens : NeverOpens s.orders (closed_rows env o reason x s).orders
  rows-NeverOpens =
      NeverOpens-modify_first (close_order env reason x) o.id s.orders
        (λ c. (refl, λ _. status_of-closed reason))

  paid-balance : paid.account.balance ≡ s.account.balance +ℤ pos (margin_of position) +ℤ x.net_pnl
  paid-balance =
      settled-balance x.net_pnl o.id cleared
      ∙ ap (λ b. b +ℤ x.net_pnl)
          (released-balance (margin_of position) o.id (closed_rows env o reason x s))

  paid-IsReconciled :
      IsCovered env o position reason session x s → IsReconciled s → IsReconciled paid
  paid-IsReconciled covered h =
      settled-IsReconciled x.net_pnl o.id cleared
        (rw (released-balance (margin_of position) o.id (closed_rows env o reason x s)) covered)
        (released-IsReconciled (margin_of position) o.id (closed_rows env o reason x s) h)

  recorded-find :
      find_order o.id s ≡ some o → find_order o.id recorded ≡ some (close_order env reason x o)
  unfolding find_order set_session
  recorded-find found =
      let kept : has_id o.id (close_order env reason x o) ≡ true = (==_iff o.id o.id).1 refl in
      rw paid-SameTables.orders_eq
        (find-modify_first (has_id o.id) (close_order env reason x) o s.orders found kept)

  recorded-today :
      session.session_date ≡ env.today
      → find_today env.today s.sessions ≡ some session
      → find_today env.today recorded.sessions ≡ some (update_realized_pnl x.net_pnl session)
  unfolding update_realized_pnl
  recorded-today dated today =
      set_session-found env.today (update_realized_pnl x.net_pnl session) paid dated session
        (rw paid-SameTables.sessions_eq today)

  recorded-others :
      session.session_date ≡ env.today
      → (d : ℕ) → d ≢ env.today
      → find_today d recorded.sessions ≡ find_today d s.sessions
  unfolding update_realized_pnl
  recorded-others dated d ne =
      set_session-others env.today (update_realized_pnl x.net_pnl session) paid dated d ne
      ∙ ap (find_today d) paid-SameTables.sessions_eq

  pub closed_state-Closed :
      IsCovered env o position reason session x s
      → find_order o.id s ≡ some o
      → find_today env.today s.sessions ≡ some session
      → Closed env o reason x
          (margin_of position)
          s
          (closed_state env o position reason session x s)
  unfolding find_order set_session update_realized_pnl
  closed_state-Closed covered found today =
      let session' = update_realized_pnl x.net_pnl session in
      let effects = discipline_effects-SameMoney env o reason session' recorded in
      let dated : session.session_date ≡ env.today =
        find_today-dated env.today s.sessions session today in
      let (day, others) =
        discipline_effects-day env o reason session' recorded dated (recorded-today dated today) in
      let (account, scores) = discipline_effects-account env o reason session' recorded in
      record {
        day_eq = rw today day;
        others_eq = λ d ne. others d ne ∙ recorded-others dated d ne;
        account_eq = rw today (
            account_kept o.was_free_play (compliant_after o reason) (recent_orders s.db_orders)
              s.account paid.account _ paid-SameTables.account_eq
              (account
                ∙ ap (λ l. account_after o reason (recent_orders l) paid.account)
                    paid-SameTables.flushed_eq.0));
        scores_eq = rw today (
            scores
            ∙ rw
                (
                  paid-SameTables.flushed_eq.0, paid-SameTables.flushed_eq.1,
                  paid-SameTables.violations_eq, paid-SameTables.scores_eq,
                )
                refl);
        violations_eq = effects.violations_eq ∙ paid-SameTables.violations_eq;
        rules_eq = effects.rules_eq ∙ paid-SameTables.rules_eq;
        leverage_eq = effects.leverage_eq ∙ paid-SameTables.leverage_eq;
        flushed_eq =
            rw
              (
                today, effects.flushed_eq.0, effects.flushed_eq.1, paid-SameTables.flushed_eq.0,
                paid-SameTables.flushed_eq.1,
              )
              refl;
        found =
            discipline_effects-find env o reason session' recorded (close_order env reason x o)
              (recorded-find found) refl;
        positions_eq = effects.positions_eq ∙ paid-SameTables.positions_eq;
        journal_eq =
            ap (λ j. j ++ (journal_entry env o reason x ∷ []))
              (effects.journal_eq ∙ paid-SameTables.journal_eq);
        pendings_eq = effects.pendings_eq ∙ paid-SameTables.pendings_eq;
        next_id_eq = effects.next_id_eq ∙ paid-SameTables.next_id_eq;
        balance_eq = effects.balance_eq ∙ paid-balance;
        never_opens = λ id h.
            discipline_effects-NeverOpens env o reason session' recorded id
              (rw paid-SameTables.orders_eq (rows-NeverOpens id h));
        reconciled = λ h. rw (effects.ledger_eq, effects.balance_eq) (paid-IsReconciled covered h);
      }

  pub cleared-Abandoned :
      find_order o.id s ≡ some o
      → find_today env.today s.sessions ≡ some session
      → Abandoned env o reason x
          (margin_of position)
          s
          (released (margin_of position) o.id (closed_rows env o reason x s))
  unfolding find_order
  cleared-Abandoned found today =
      let rows = closed_rows env o reason x s in
      let same = released-SameTables (margin_of position) o.id rows in
      let kept : has_id o.id (close_order env reason x o) ≡ true = (==_iff o.id o.id).1 refl in
      record {
        found =
            rw same.orders_eq
              (find-modify_first (has_id o.id) (close_order env reason x) o s.orders found kept);
        day_eq = rw today (ap (find_today env.today) same.sessions_eq ∙ today);
        others_eq = λ d ne. ap (find_today d) same.sessions_eq;
        account_eq = same.account_eq;
        scores_eq = same.scores_eq;
        violations_eq = same.violations_eq;
        rules_eq = same.rules_eq;
        leverage_eq = same.leverage_eq;
        positions_eq = same.positions_eq;
        journal_eq = same.journal_eq;
        pendings_eq = same.pendings_eq;
        next_id_eq = same.next_id_eq;
        balance_eq = released-balance (margin_of position) o.id rows;
        never_opens = λ id h. rw same.orders_eq (rows-NeverOpens id h);
        reconciled = released-IsReconciled (margin_of position) o.id rows;
      }
