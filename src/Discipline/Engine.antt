-- ===== src/Discipline/Engine.antt =====
-- `_load_rules`, the seven checks in the order of `check_order`, and `_log_violation`.
use strikefluency.Prelude.{
  ℕ, ◌*◌, neg, leb_ℤ, Bool, true, false, ◌&&◌, Option, none, some, List, [], ◌∷◌, ◌++◌, ◌==◌, leb,
  not, if◌then◌else◌, exists, round_half_even,
}
use strikefluency.Models.Terms.{
  OrderAction, DisciplineRuleCode, rule_code_eq, is_buy, instrument_eq, option_type_eq,
}
use strikefluency.Models.Records.{
  DisciplineRule, TradingSession, VirtualAccount, VirtualPosition, Rows,
}
use strikefluency.Action.{Action, ok, err, discipline_violation}
use strikefluency.Market.{Env}
use strikefluency.Sessions.{check_and_reset_cooldown, set_session}
use strikefluency.Orders.Request.{OrderData}

-- `{rule.rule_code: rule.rule_value for rule in rules}` over the active rules: a later row of a
-- code replaces an earlier one. A code with no active row has no entry, and `.get(code, {})`
-- then gives the empty value, so each key takes its default.
unfoldable pub rule_from :
    DisciplineRuleCode → Option DisciplineRule → List DisciplineRule → Option DisciplineRule
rule_from code found [] = found
rule_from code found (r ∷ rules) =
    rule_from code (if r.is_active && rule_code_eq r.rule_code code then some r else found) rules

unfoldable pub rule_for : DisciplineRuleCode → List DisciplineRule → Option DisciplineRule
unfolding rule_from
rule_for code rules = rule_from code none rules

abbrev value_or {ℓ} : {A : Type ℓ} → Option A → A → A
value_or none d = d
value_or (some a) d = a

-- `rule.get("enabled", True)` and the other keys with their defaults.
abbrev pub enabled_of : Option DisciplineRule → Bool
enabled_of none = true
enabled_of (some r) = value_or r.enabled true

abbrev pub max_trades_of : Option DisciplineRule → ℕ
max_trades_of none = 3
max_trades_of (some r) = value_or r.max_trades 3

-- 2.0, in hundredths of a percent.
abbrev pub loss_pct_of : Option DisciplineRule → ℕ
loss_pct_of none = 200
loss_pct_of (some r) = value_or r.loss_pct 200

abbrev pub cooldown_minutes_of : Option DisciplineRule → ℕ
cooldown_minutes_of none = 15
cooldown_minutes_of (some r) = value_or r.cooldown_minutes 15

-- The stop loss is missing, or not on the losing side of the premium.
abbrev pub sl_misplaced : OrderAction → ℕ → Option ℕ → Bool
sl_misplaced action ltp none = true
sl_misplaced OrderAction.buy ltp (some sl) = leb ltp sl
sl_misplaced OrderAction.sell ltp (some sl) = leb sl ltp

unfoldable pub fails_mandatory_sl : List DisciplineRule → OrderData → ℕ → Bool
fails_mandatory_sl rules d ltp =
    enabled_of (rule_for DisciplineRuleCode.mandatory_sl rules)
    && sl_misplaced d.action ltp d.sl_price

abbrev pub is_none {ℓ} : {A : Type ℓ} → Option A → Bool
is_none none = true
is_none (some _) = false

unfoldable pub fails_setup_tag : List DisciplineRule → OrderData → Bool
fails_setup_tag rules d =
    enabled_of (rule_for DisciplineRuleCode.mandatory_setup_tag rules) && is_none d.setup_tag

unfoldable pub fails_max_trades : List DisciplineRule → TradingSession → Bool
fails_max_trades rules session =
    leb (max_trades_of (rule_for DisciplineRuleCode.max_trades_per_day rules)) session.trades_count

-- `(initial_balance * loss_pct / 100).quantize(0.01)`, in paise.
unfoldable pub max_loss_of : List DisciplineRule → VirtualAccount → ℕ
unfolding round_half_even
max_loss_of rules account =
    round_half_even
      (account.initial_balance * loss_pct_of (rule_for DisciplineRuleCode.max_daily_loss rules))
      10_000

unfoldable pub fails_max_daily_loss : List DisciplineRule → TradingSession → VirtualAccount → Bool
fails_max_daily_loss rules session account =
    leb_ℤ session.realized_pnl (neg (max_loss_of rules account))

-- Whether the cooldown blocks, and the session after the check, which resets an expired one.
unfoldable pub check_cooldown : ℕ → List DisciplineRule → TradingSession → Bool × TradingSession
unfolding check_and_reset_cooldown
check_cooldown now rules session =
    if cooldown_minutes_of (rule_for DisciplineRuleCode.revenge_cooldown rules) == 0
    then (false, session)
    else check_and_reset_cooldown now session

abbrev pub same_contract : OrderData → VirtualPosition → Bool
same_contract d pos =
    pos.is_open
    && (pos.strike_price == d.strike_price)
    && option_type_eq pos.option_type d.option_type
    && instrument_eq pos.instrument d.instrument

unfoldable pub fails_averaging_down : List DisciplineRule → OrderData → List VirtualPosition → Bool
fails_averaging_down rules d positions =
    enabled_of (rule_for DisciplineRuleCode.no_averaging_down rules)
    && is_buy d.action
    && exists (same_contract d) positions

abbrev pub other_side : OrderData → VirtualPosition → Bool
other_side d pos = pos.is_open && not (option_type_eq pos.option_type d.option_type)

unfoldable pub fails_direction_flip : List DisciplineRule → OrderData → List VirtualPosition → Bool
fails_direction_flip rules d positions =
    enabled_of (rule_for DisciplineRuleCode.no_direction_flip rules)
    && is_buy d.action
    && exists (other_side d) positions

-- The first rule that fails, if one does, and the session after the checks that ran.
unfoldable pub check_order :
    ℕ
    → List DisciplineRule
    → OrderData
    → ℕ
    → TradingSession
    → VirtualAccount
    → List VirtualPosition
    → Option DisciplineRuleCode × TradingSession
check_order now rules d ltp session account positions =
    if fails_mandatory_sl rules d ltp
    then (some DisciplineRuleCode.mandatory_sl, session)
    else if fails_setup_tag rules d
    then (some DisciplineRuleCode.mandatory_setup_tag, session)
    else if fails_max_trades rules session
    then (some DisciplineRuleCode.max_trades_per_day, session)
    else if fails_max_daily_loss rules session account
    then (some DisciplineRuleCode.max_daily_loss, session)
    else let (blocked, session') = check_cooldown now rules session in
      if blocked
      then (some DisciplineRuleCode.revenge_cooldown, session')
      else if fails_averaging_down rules d positions
      then (some DisciplineRuleCode.no_averaging_down, session')
      else if fails_direction_flip rules d positions
      then (some DisciplineRuleCode.no_direction_flip, session')
      else (none, session')

abbrev pub log_violation : Env → DisciplineRuleCode → Rows → Rows
log_violation env code s = record s {
  violations =
      s.violations
      ++ (record { rule_code = code; session_date = env.today; was_blocked = true } ∷ []);
}

abbrev conclude : Env → Option DisciplineRuleCode × TradingSession → Action TradingSession
conclude env (none, session) s = (ok session, set_session session s)
conclude env (some code, session) s =
    (err (discipline_violation code), log_violation env code (set_session session s))

-- `DisciplineEngine(db, user).check_order(...)`: the violation is logged before it is raised. The
-- session object comes back as the checks left it.
unfoldable pub enforce : Env → OrderData → ℕ → TradingSession → Action TradingSession
unfolding set_session
enforce env d ltp session s =
    conclude env (check_order env.now s.rules d ltp session s.account s.positions) s
