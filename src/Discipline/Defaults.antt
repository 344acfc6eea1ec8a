-- ===== src/Discipline/Defaults.antt =====
-- What a deactivated rule comes to: the engine reads active rows only, and a rule without a row
-- takes its default.
use strikefluency.Discipline.Engine.{
  fails_direction_flip, fails_averaging_down, check_cooldown, max_loss_of, fails_max_daily_loss,
  fails_max_trades, fails_setup_tag, fails_mandatory_sl, rule_from, rule_for, check_order,
}
use strikefluency.Prelude.{◌<◌, refl, [], none, ◌∷◌, false, All, Option, ◌≡◌, List, ℕ}
use strikefluency.Models.Terms.{DisciplineRuleCode}
use strikefluency.Models.Records.{VirtualPosition, VirtualAccount, TradingSession, DisciplineRule}
use strikefluency.Orders.Request.{OrderData}
use strikefluency.Discipline.Compliance.{check_order_iff, IsProtective}

rule_from-inactive :
    (code : DisciplineRuleCode) (found : Option DisciplineRule) (rules : List DisciplineRule)
    → All (λ r. r.is_active ≡ false) rules
    → rule_from code found rules ≡ found
unfolding rule_from
rule_from-inactive code found [] h = refl
rule_from-inactive code found (r ∷ rules) (off, h) = rw off (rule_from-inactive code found rules h)

rule_for-inactive :
    (code : DisciplineRuleCode) (rules : List DisciplineRule)
    → All (λ r. r.is_active ≡ false) rules
    → rule_for code rules ≡ rule_for code []
unfolding rule_for rule_from
rule_for-inactive code rules h = rule_from-inactive code none rules h

defaults :
    (now : ℕ) (d : OrderData) (ltp : ℕ) (session : TradingSession) (account : VirtualAccount)
    (positions : List VirtualPosition)
    → (check_order now [] d ltp session account positions).0 ≡ none
    → IsProtective d.action ltp d.sl_price × (session.trades_count < 3)
unfolding rule_for rule_from
defaults now d ltp session account positions admitted =
    let c = (check_order_iff now [] d ltp session account positions).0 admitted in
    (c.is_protected refl, c.has_room)

module _ (now : ℕ) (rules : List DisciplineRule) (d : OrderData) (ltp : ℕ)
    (session : TradingSession) (account : VirtualAccount) (positions : List VirtualPosition) where
  same :
      All (λ r. r.is_active ≡ false) rules
      → check_order now rules d ltp session account positions
        ≡ check_order now [] d ltp session account positions
  unfolding check_order fails_mandatory_sl fails_setup_tag fails_max_trades fails_max_daily_loss
      max_loss_of check_cooldown fails_averaging_down fails_direction_flip
  same h =
      rw
        (
          rule_for-inactive DisciplineRuleCode.mandatory_sl rules h,
          rule_for-inactive DisciplineRuleCode.mandatory_setup_tag rules h,
          rule_for-inactive DisciplineRuleCode.max_trades_per_day rules h,
          rule_for-inactive DisciplineRuleCode.max_daily_loss rules h,
          rule_for-inactive DisciplineRuleCode.revenge_cooldown rules h,
          rule_for-inactive DisciplineRuleCode.no_averaging_down rules h,
          rule_for-inactive DisciplineRuleCode.no_direction_flip rules h,
        )
        refl

  -- A user who has deactivated every rule is checked exactly as one with no rules on record, and
  -- that is by the defaults: such an order still needs a stop loss on the losing side of the
  -- premium, and fewer than three trades on the day.
  pub check_order_deactivated :
      All (λ r. r.is_active ≡ false) rules
      → (check_order now rules d ltp session account positions
          ≡ check_order now [] d ltp session account positions)
        × ((check_order now rules d ltp session account positions).0 ≡ none
            → IsProtective d.action ltp d.sl_price × (session.trades_count < 3))
  check_order_deactivated h =
      (same h, λ admitted. defaults now d ltp session account positions (rw (← same h) admitted))
