-- ===== src/Tests/Rules.antt =====
-- The sessions, the discipline engine, the score and the ledger on concrete rows.
use strikefluency.Models.Terms.{DisciplineRuleCode, OrderAction, LedgerTxnType, LedgerRef}
use strikefluency.Tests.Fixtures.{now, account, session, payload, fresh_rows}
use strikefluency.Prelude.{
  All, ◌≤ℤ◌, ◌<ℤ◌, ◌+ℤ◌, ◌⊎◌, ℕ, refl, some, false, none, ◌*◌, ◌↔◌, [], true, ◌<◌, ◌∷◌, ◌≢◌, pos,
  ◌+◌, ◌≡◌,
}
use strikefluency.Sessions.{
  new_session, find_today, get_cooldown_remaining, activate_cooldown, check_and_reset_cooldown,
  get_or_create_today,
}
use strikefluency.Discipline.{check_order}
use strikefluency.Models.Records.{DisciplineRule, TradingSession}
use strikefluency.Sessions.Cooldown.{get_or_create_today_once, cooldown_lifecycle}
use strikefluency.Ledger.{ledger_row, apply_row, post}
use strikefluency.Ledger.Balance.{post_cases, IsReconciled}
use strikefluency.Action.{insufficient_balance, value_error, err, ok}
use strikefluency.Discipline.Compliance.{IsProtective, check_order_iff, Complies}
use strikefluency.Discipline.Defaults.{check_order_deactivated}

cooldown_lifecycle_example :
    let cooling = activate_cooldown now 15 session in
    let (blocked, session') = check_and_reset_cooldown (now + 60_000_000) cooling in
    ((blocked ≡ true) ↔ (now + 60_000_000 < now + 15 * 60_000_000))
    × (blocked ≡ true → session' ≡ cooling)
    × (blocked ≡ false
        → (session'.is_cooldown_active ≡ false)
          × (get_cooldown_remaining (now + 60_000_000) session' ≡ 0))
    × (session'.trades_count ≡ 1)
    × (session'.realized_pnl ≡ pos 0)
cooldown_lifecycle_example = cooldown_lifecycle session now 15 (now + 60_000_000)

get_or_create_today_once_example :
    let (r, s') = get_or_create_today 4 fresh_rows in
    ((t : TradingSession) × (r ≡ ok t)
      × (find_today 4 s'.sessions ≡ some t)
      × (find_today 4 fresh_rows.sessions ≡ none → t ≡ new_session 4)
      × (get_or_create_today 4 s' ≡ (ok t, s'))
      × ((d : ℕ) → d ≢ 4 → find_today d s'.sessions ≡ find_today d fresh_rows.sessions))
get_or_create_today_once_example = get_or_create_today_once 4 fresh_rows

check_order_iff_example :
    ((check_order now [] payload 10_000 session account []).0 ≡ none)
    ↔ Complies now [] payload 10_000 session account []
check_order_iff_example = check_order_iff now [] payload 10_000 session account []

post_cases_example :
    ((pos 500 ≡ pos 0)
      × (post LedgerTxnType.refund (pos 500) LedgerRef.manual 1 fresh_rows
          ≡ (err value_error, fresh_rows)))
    ⊎ ((pos 500 ≢ pos 0)
        × (fresh_rows.account.balance +ℤ pos 500 <ℤ pos 0)
        × (post LedgerTxnType.refund (pos 500) LedgerRef.manual 1 fresh_rows
            ≡ (err insufficient_balance, fresh_rows)))
    ⊎ ((pos 500 ≢ pos 0)
        × (pos 0 ≤ℤ fresh_rows.account.balance +ℤ pos 500)
        × (post LedgerTxnType.refund (pos 500) LedgerRef.manual 1 fresh_rows ≡ (
          ok tt,
          apply_row
              (ledger_row LedgerTxnType.refund (pos 500) LedgerRef.manual 1 fresh_rows)
              fresh_rows,
        ))
        × (IsReconciled fresh_rows
            → IsReconciled (post LedgerTxnType.refund (pos 500) LedgerRef.manual 1 fresh_rows).1))
post_cases_example = post_cases LedgerTxnType.refund (pos 500) LedgerRef.manual 1 fresh_rows

abbrev switched_off : DisciplineRule
switched_off = record {
  rule_code = DisciplineRuleCode.max_trades_per_day;
  is_active = false;
  enabled = none;
  max_trades = some 10;
  loss_pct = none;
  cooldown_minutes = none;
}

switched_off_rules : All (λ r. r.is_active ≡ false) (switched_off ∷ [])
switched_off_rules = (refl, tt)

check_order_deactivated_example :
    (check_order now (switched_off ∷ []) payload 10_000 session account []
      ≡ check_order now [] payload 10_000 session account [])
    × ((check_order now (switched_off ∷ []) payload 10_000 session account []).0 ≡ none
        → IsProtective OrderAction.buy 10_000 (some 9000) × (1 < 3))
check_order_deactivated_example =
    check_order_deactivated now (switched_off ∷ []) payload 10_000 session account []
      switched_off_rules
