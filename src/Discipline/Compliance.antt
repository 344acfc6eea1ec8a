-- ===== src/Discipline/Compliance.antt =====
-- What an order has to satisfy, stated without the engine, and that the engine decides it.
use mathlib.Core.Bool.{false≢true}
use strikefluency.Prelude.{
  ℕ, ◌≤◌, ◌<◌, ◌≡◌, ◌≢◌, ◌⊎◌, ◌↔◌, neg, ◌<ℤ◌, Bool, true, false, Option, none, some, List, [], ◌∷◌,
  arith, exists, All, ◌&&◌, refl,
}
use strikefluency.Models.Terms.{
  OrderAction, OptionType, Instrument, DisciplineRuleCode, is_buy, option_type_eq, instrument_eq,
}
use strikefluency.Models.Records.{DisciplineRule, TradingSession, VirtualAccount, VirtualPosition}
use strikefluency.Orders.Request.{OrderData}
use strikefluency.Discipline.Engine.{
  rule_for, enabled_of, max_trades_of, cooldown_minutes_of, max_loss_of, fails_mandatory_sl,
  fails_setup_tag, fails_max_trades, fails_max_daily_loss, check_cooldown, fails_averaging_down,
  fails_direction_flip, check_order, sl_misplaced, same_contract, other_side,
}

-- A stop loss on the losing side of the premium.
abbrev pub IsProtective : OrderAction → ℕ → Option ℕ → Type 0
IsProtective action ltp none = ⊥
IsProtective OrderAction.buy ltp (some sl) = sl < ltp
IsProtective OrderAction.sell ltp (some sl) = ltp < sl

abbrev pub IsEnabled : DisciplineRuleCode → List DisciplineRule → Type 0
IsEnabled code rules = enabled_of (rule_for code rules) ≡ true

-- No cooldown is running at `now`.
abbrev pub IsOver : ℕ → Option ℕ → Type 0
IsOver now none = ⊥
IsOver now (some until) = until ≤ now

-- An open position in another contract than the order's.
abbrev pub IsOther : OrderData → VirtualPosition → Type 0
IsOther d pos =
    pos.is_open ≡ true
    → ¬ (
        (pos.strike_price ≡ d.strike_price)
        × (pos.option_type ≡ d.option_type)
        × (pos.instrument ≡ d.instrument))

abbrev pub IsAligned : OrderData → VirtualPosition → Type 0
IsAligned d pos = pos.is_open ≡ true → pos.option_type ≡ d.option_type

-- The seven rules.
pub record Complies (now : ℕ) (rules : List DisciplineRule) (d : OrderData) (ltp : ℕ)
    (session : TradingSession) (account : VirtualAccount) (positions : List VirtualPosition)
    : Type 0 where
  pub is_protected :
      IsEnabled DisciplineRuleCode.mandatory_sl rules → IsProtective d.action ltp d.sl_price
  pub is_tagged : IsEnabled DisciplineRuleCode.mandatory_setup_tag rules → d.setup_tag ≢ none
  pub has_room :
      session.trades_count < max_trades_of (rule_for DisciplineRuleCode.max_trades_per_day rules)
  pub is_solvent : neg (max_loss_of rules account) <ℤ session.realized_pnl
  pub is_calm :
      (cooldown_minutes_of (rule_for DisciplineRuleCode.revenge_cooldown rules) ≡ 0)
      ⊎ (session.is_cooldown_active ≡ false)
      ⊎ IsOver now session.cooldown_until
  pub is_single :
      IsEnabled DisciplineRuleCode.no_averaging_down rules
      → d.action ≡ OrderAction.buy
      → All (IsOther d) positions
  pub is_one_way :
      IsEnabled DisciplineRuleCode.no_direction_flip rules
      → d.action ≡ OrderAction.buy
      → All (IsAligned d) positions

option_type_eq_iff : (a b : OptionType) → (option_type_eq a b ≡ true) ↔ (a ≡ b)
option_type_eq_iff a b = ground arith

instrument_eq_iff : (a b : Instrument) → (instrument_eq a b ≡ true) ↔ (a ≡ b)
instrument_eq_iff a b = ground arith

exists-same_contract :
    (d : OrderData) (positions : List VirtualPosition)
    → (exists (same_contract d) positions ≡ false) ↔ All (IsOther d) positions
exists-same_contract d [] = ground arith
exists-same_contract d (pos ∷ positions) = ground (
  arith,
  option_type_eq_iff pos.option_type d.option_type,
  instrument_eq_iff pos.instrument d.instrument,
  exists-same_contract d positions,
)

exists-other_side :
    (d : OrderData) (positions : List VirtualPosition)
    → (exists (other_side d) positions ≡ false) ↔ All (IsAligned d) positions
exists-other_side d [] = ground arith
exists-other_side d (pos ∷ positions) =
    ground (arith, option_type_eq_iff pos.option_type d.option_type, exists-other_side d positions)

sl_misplaced_iff :
    (action : OrderAction) (ltp : ℕ) (sl : Option ℕ)
    → (sl_misplaced action ltp sl ≡ false) ↔ IsProtective action ltp sl
sl_misplaced_iff action ltp none = (ground arith, λ h. absurd h)
sl_misplaced_iff OrderAction.buy ltp (some sl) = ground arith
sl_misplaced_iff OrderAction.sell ltp (some sl) = ground arith

is_buy_iff : (a : OrderAction) → (is_buy a ≡ true) ↔ (a ≡ OrderAction.buy)
is_buy_iff a = ground arith

-- A check behind a test passes exactly when the test implies what the check wants.
gate : (a b : Bool) (P : Type 0) → (b ≡ false) ↔ P → ((a && b) ≡ false) ↔ (a ≡ true → P)
gate true b P h = (λ e _. h.0 e, λ k. h.1 (k refl))
gate false b P h = (λ _ e. absurd (false≢true e), λ _. refl)

and_iff : (a b : Bool) → ((a && b) ≡ true) ↔ ((a ≡ true) × (b ≡ true))
and_iff a b = ground arith

module _ (now : ℕ) (rules : List DisciplineRule) (d : OrderData) (ltp : ℕ)
    (session : TradingSession) (account : VirtualAccount) (positions : List VirtualPosition) where
  mandatory_sl_iff :
      (fails_mandatory_sl rules d ltp ≡ false)
      ↔ (IsEnabled DisciplineRuleCode.mandatory_sl rules → IsProtective d.action ltp d.sl_price)
  unfolding fails_mandatory_sl
  mandatory_sl_iff = gate _ _ _ (sl_misplaced_iff d.action ltp d.sl_price)

  setup_tag_iff :
      (fails_setup_tag rules d ≡ false)
      ↔ (IsEnabled DisciplineRuleCode.mandatory_setup_tag rules → d.setup_tag ≢ none)
  unfolding fails_setup_tag
  setup_tag_iff = gate _ _ _ (ground arith)

  buy_gate :
      (a b : Bool) (P : Type 0)
      → (b ≡ false) ↔ P
      → (((a && is_buy d.action) && b) ≡ false) ↔ (a ≡ true → d.action ≡ OrderAction.buy → P)
  buy_gate a b P h =
      let act = is_buy_iff d.action in
      let both = and_iff a (is_buy d.action) in
      let outer = gate (a && is_buy d.action) b P h in
      (
        λ e x y. outer.0 e (both.1 (x, act.1 y)),
        λ k. outer.1 (λ x. k (both.0 x).0 (act.0 (both.0 x).1)),
      )

  averaging_down_iff : (fails_averaging_down rules d positions ≡ false) ↔ (
      IsEnabled DisciplineRuleCode.no_averaging_down rules
      → d.action ≡ OrderAction.buy
      → All (IsOther d) positions)
  unfolding fails_averaging_down
  averaging_down_iff = buy_gate _ _ _ (exists-same_contract d positions)

  direction_flip_iff : (fails_direction_flip rules d positions ≡ false) ↔ (
      IsEnabled DisciplineRuleCode.no_direction_flip rules
      → d.action ≡ OrderAction.buy
      → All (IsAligned d) positions)
  unfolding fails_direction_flip
  direction_flip_iff = buy_gate _ _ _ (exists-other_side d positions)

  max_trades_iff : (fails_max_trades rules session ≡ false) ↔ (
      session.trades_count < max_trades_of (rule_for DisciplineRuleCode.max_trades_per_day rules))
  unfolding fails_max_trades
  max_trades_iff = ground arith

  max_daily_loss_iff :
      (fails_max_daily_loss rules session account ≡ false)
      ↔ (neg (max_loss_of rules account) <ℤ session.realized_pnl)
  unfolding fails_max_daily_loss
  max_daily_loss_iff = ground arith

  cooldown_iff : ((check_cooldown now rules session).0 ≡ false) ↔ (
      (cooldown_minutes_of (rule_for DisciplineRuleCode.revenge_cooldown rules) ≡ 0)
      ⊎ (session.is_cooldown_active ≡ false)
      ⊎ IsOver now session.cooldown_until)
  unfolding check_cooldown
  cooldown_iff = (ground arith, ground arith)

  -- The engine lets an order through exactly when the order, the session, the account and the open
  -- positions satisfy all seven rules as the user has set them: no more is refused, and no less.
  pub check_order_iff :
      ((check_order now rules d ltp session account positions).0 ≡ none)
      ↔ Complies now rules d ltp session account positions
  unfolding check_order
  check_order_iff = (
    λ h. record {
      is_protected = mandatory_sl_iff.0 (ground arith);
      is_tagged = setup_tag_iff.0 (ground arith);
      has_room = max_trades_iff.0 (ground arith);
      is_solvent = max_daily_loss_iff.0 (ground arith);
      is_calm = cooldown_iff.0 (ground arith);
      is_single = averaging_down_iff.0 (ground arith);
      is_one_way = direction_flip_iff.0 (ground arith);
    },
    λ c.
        let e1 = mandatory_sl_iff.1 c.is_protected in
        let e2 = setup_tag_iff.1 c.is_tagged in
        let e3 = max_trades_iff.1 c.has_room in
        let e4 = max_daily_loss_iff.1 c.is_solvent in
        let e5 = cooldown_iff.1 c.is_calm in
        let e6 = averaging_down_iff.1 c.is_single in
        let e7 = direction_flip_iff.1 c.is_one_way in ground arith,
  )
