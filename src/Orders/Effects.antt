-- ===== src/Orders/Effects.antt =====
-- What follows the money of a close: the session, the discipline effects and the score.
use strikefluency.Models.Terms.{ExitReason}
use strikefluency.Models.Records.{
  DisciplineViolation, DisciplineScore, VirtualAccount, VirtualOrder, TradingSession, Rows,
}
use strikefluency.Market.{Env}
use strikefluency.Discipline.Streak.{
  of_day, day_score, with_day, scored_account, update_discipline_score-scored,
  update_discipline_score-frame,
}
use strikefluency.Orders.Close.{is_sl_hit, discipline_effects, compliant_after}
use strikefluency.Prelude.{
  exists, ◌*◌, ◌≢◌, Bool, List, ◌+◌, inr, inl, Bool-cases, refl, ℕ, find-modify_first, ==_iff, true,
  arith, if◌then◌else◌, some, false, ◌≡◌,
}
use strikefluency.Sessions.{find_today, activate_cooldown, set_session}
use strikefluency.Orders.Queries.{has_id, find_order, put_order}
use strikefluency.Orders.Done.{NeverOpens-modify_first, NeverOpens}
use strikefluency.Discipline.{recent_orders}
use strikefluency.Sessions.Storing.{set_session-others, set_session-found}

-- The rows after the discipline effects: money, positions, pending orders and the journal are as
-- before, and so are the violations, the rules and the settings, and so are all orders but the one closed, which may lose its compliance mark.
pub record SameMoney (s s' : Rows) : Type 0 where
  pub balance_eq : s'.account.balance ≡ s.account.balance
  pub positions_eq : s'.positions ≡ s.positions
  pub pendings_eq : s'.pendings ≡ s.pendings
  pub ledger_eq : s'.ledger ≡ s.ledger
  pub journal_eq : s'.journal ≡ s.journal
  pub next_id_eq : s'.next_id ≡ s.next_id
  pub violations_eq : s'.violations ≡ s.violations
  pub rules_eq : s'.rules ≡ s.rules
  pub leverage_eq : s'.leverage_enabled ≡ s.leverage_enabled
  pub flushed_eq : (s'.db_orders ≡ s.db_orders) × (s'.db_scores ≡ s.db_scores)

abbrev unmark : VirtualOrder → VirtualOrder
unmark o = record o { is_discipline_compliant = false }

module _ (env : Env) (o : VirtualOrder) (reason : ExitReason) (session : TradingSession)
    (s : Rows) where
  pub discipline_effects-SameMoney : SameMoney s (discipline_effects env o reason session s)
  unfolding discipline_effects set_session
  discipline_effects-SameMoney =
      let t : Rows =
        put_order o.id unmark (
          set_session (activate_cooldown env.now env.settings.default_cooldown_minutes session)
            s) in
      ground (
        arith,
        update_discipline_score-frame env false t,
        update_discipline_score-frame env o.is_discipline_compliant s,
      )

  pub discipline_effects-NeverOpens :
      NeverOpens s.orders (discipline_effects env o reason session s).orders
  unfolding discipline_effects set_session
  discipline_effects-NeverOpens =
      let t : Rows =
        put_order o.id unmark (
          set_session (activate_cooldown env.now env.settings.default_cooldown_minutes session)
            s) in
      λ id h. ground (
        arith,
        update_discipline_score-frame env false t,
        update_discipline_score-frame env o.is_discipline_compliant s,
        NeverOpens-modify_first unmark o.id s.orders (λ c. (refl, λ k. k)) id h,
      )

  -- The orders: the one closed keeps all but its mark.
  pub discipline_effects-find :
      (c : VirtualOrder)
      → find_order o.id s ≡ some c
      → c.id ≡ o.id
      → find_order o.id (discipline_effects env o reason session s)
        ≡ some (record c {
          is_discipline_compliant =
              if o.was_free_play
              then c.is_discipline_compliant
              else if is_sl_hit reason
              then false
              else c.is_discipline_compliant;
        })
  unfolding discipline_effects set_session find_order
  discipline_effects-find c found same =
      let t : Rows =
        put_order o.id unmark (
          set_session (activate_cooldown env.now env.settings.default_cooldown_minutes session)
            s) in
      let kept : has_id o.id (unmark c) ≡ true = ground (arith, (==_iff c.id o.id).1 same) in
      ground (
        arith,
        update_discipline_score-frame env false t,
        update_discipline_score-frame env o.is_discipline_compliant s,
        find-modify_first (has_id o.id) unmark c s.orders found kept,
      )

-- A governed stop-loss exit starts the cooldown.
abbrev pub cools : VirtualOrder → ExitReason → Bool
cools o reason = if o.was_free_play then false else is_sl_hit reason

-- The session after the effects.
abbrev pub cooled : Env → VirtualOrder → ExitReason → TradingSession → TradingSession
cooled env o reason t =
    if cools o reason
    then record t {
      is_cooldown_active = true;
      cooldown_until = some (env.now + env.settings.default_cooldown_minutes * 60_000_000);
      last_sl_hit_at = some env.now;
    }
    else t

-- The account after the effects: scored, unless the trade was free play.
abbrev pub account_after :
    VirtualOrder → ExitReason → List VirtualOrder → VirtualAccount → VirtualAccount
account_after o reason recent a =
    if o.was_free_play then a else scored_account (compliant_after o reason) recent a

-- The daily scores after the effects, for the account `a` as it then is.
abbrev pub scores_after :
    ℕ
    → VirtualOrder
    → List VirtualOrder
    → List DisciplineScore
    → List DisciplineViolation
    → VirtualAccount
    → List DisciplineScore
    → List DisciplineScore
scores_after today o recent known violations a scores =
    if o.was_free_play
    then scores
    else with_day (day_score today a recent violations) (exists (of_day today) known) recent scores

module _ (env : Env) (o : VirtualOrder) (reason : ExitReason) (session : TradingSession)
    (s : Rows) where
  abbrev after : Rows
  after = discipline_effects env o reason session s

  abbrev stopped : Rows
  stopped =
      put_order o.id unmark
        (set_session (activate_cooldown env.now env.settings.default_cooldown_minutes session) s)

  pub discipline_effects-account :
      (after.account ≡ account_after o reason (recent_orders s.db_orders) s.account)
      × (after.scores
          ≡ scores_after env.today o
              (recent_orders s.db_orders)
              s.db_scores
              s.violations
              after.account
              s.scores)
  unfolding discipline_effects set_session
  discipline_effects-account = elim (Bool-cases o.was_free_play) [
    | inl free ↦ rw free (refl, refl)
    | inr governed ↦ elim (Bool-cases (is_sl_hit reason)) [
      | inl sl ↦ rw (governed, sl) (update_discipline_score-scored env false stopped)
      | inr other ↦
          rw (governed, other) (update_discipline_score-scored env o.is_discipline_compliant s)
    ]
  ]

  module _ (dated : session.session_date ≡ env.today)
      (found : find_today env.today s.sessions ≡ some session) where
    pub discipline_effects-day :
        (find_today env.today after.sessions ≡ some (cooled env o reason session))
        × ((d : ℕ) → d ≢ env.today → find_today d after.sessions ≡ find_today d s.sessions)
    unfolding discipline_effects activate_cooldown
    discipline_effects-day = elim (Bool-cases o.was_free_play) [
      | inl free ↦ rw free (found, λ d ne. refl)
      | inr governed ↦ elim (Bool-cases (is_sl_hit reason)) [
        | inl sl ↦
            let cooling = activate_cooldown env.now env.settings.default_cooldown_minutes session in
            let kept = (update_discipline_score-frame env false stopped).sessions_eq in
            rw (governed, sl, kept)
              (
                set_session-found env.today cooling s dated session found,
                set_session-others env.today cooling s dated,
              )
        | inr other ↦
            let kept =
              (update_discipline_score-frame env o.is_discipline_compliant s).sessions_eq in
            rw (governed, other, kept) (found, λ d ne. refl)
      ]
    ]
