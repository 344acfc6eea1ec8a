-- ===== src/Models/Terms.antt =====
-- The closed vocabularies of backend/app/core/constants.py and of the check constraints of
-- backend/app/models: each class of string constants is a data type.
use strikefluency.Prelude.{Bool, true, false}

pub data Instrument : Type 0 where
  nifty banknifty sensex : Instrument

pub data OptionType : Type 0 where
  ce pe : OptionType

pub data OrderAction : Type 0 where
  buy sell : OrderAction

pub data OrderStatus : Type 0 where
  open_order closed cancelled sl_hit target_hit : OrderStatus

pub data PendingOrderStatus : Type 0 where
  pending filled cancelled expired rejected : PendingOrderStatus

pub data ExitReason : Type 0 where
  manual emergency_exit sl_hit target_hit limit_exit eod_squareoff : ExitReason

pub data ProductType : Type 0 where
  intraday nrml : ProductType

pub data SetupTag : Type 0 where
  oi_based price_action level_trade expiry_play other : SetupTag

pub data Tier : Type 0 where
  tier_1 tier_2 tier_3 : Tier

pub data DisciplineRuleCode : Type 0 where
  max_trades_per_day mandatory_sl no_averaging_down no_direction_flip : DisciplineRuleCode
  revenge_cooldown max_daily_loss mandatory_setup_tag : DisciplineRuleCode

pub data LedgerTxnType : Type 0 where
  initial_credit trade_debit trade_credit charge refund manual_adjustment reset : LedgerTxnType

pub data LedgerRef : Type 0 where
  virtual_order pending_order strategy_position account manual : LedgerRef

-- `==` on the constants that the services compare.
abbrev pub instrument_eq : Instrument → Instrument → Bool
instrument_eq Instrument.nifty Instrument.nifty = true
instrument_eq Instrument.banknifty Instrument.banknifty = true
instrument_eq Instrument.sensex Instrument.sensex = true
instrument_eq _ _ = false

abbrev pub option_type_eq : OptionType → OptionType → Bool
option_type_eq OptionType.ce OptionType.ce = true
option_type_eq OptionType.pe OptionType.pe = true
option_type_eq _ _ = false

abbrev pub is_buy : OrderAction → Bool
is_buy OrderAction.buy = true
is_buy OrderAction.sell = false

abbrev pub action_eq : OrderAction → OrderAction → Bool
action_eq OrderAction.buy OrderAction.buy = true
action_eq OrderAction.sell OrderAction.sell = true
action_eq _ _ = false

abbrev pub product_eq : ProductType → ProductType → Bool
product_eq ProductType.intraday ProductType.intraday = true
product_eq ProductType.nrml ProductType.nrml = true
product_eq _ _ = false

abbrev pub tag_eq : SetupTag → SetupTag → Bool
tag_eq SetupTag.oi_based SetupTag.oi_based = true
tag_eq SetupTag.price_action SetupTag.price_action = true
tag_eq SetupTag.level_trade SetupTag.level_trade = true
tag_eq SetupTag.expiry_play SetupTag.expiry_play = true
tag_eq SetupTag.other SetupTag.other = true
tag_eq _ _ = false

abbrev pub is_open_status : OrderStatus → Bool
is_open_status OrderStatus.open_order = true
is_open_status _ = false

abbrev pub is_pending_status : PendingOrderStatus → Bool
is_pending_status PendingOrderStatus.pending = true
is_pending_status _ = false

abbrev pub rule_code_eq : DisciplineRuleCode → DisciplineRuleCode → Bool
rule_code_eq DisciplineRuleCode.max_trades_per_day DisciplineRuleCode.max_trades_per_day = true
rule_code_eq DisciplineRuleCode.mandatory_sl DisciplineRuleCode.mandatory_sl = true
rule_code_eq DisciplineRuleCode.no_averaging_down DisciplineRuleCode.no_averaging_down = true
rule_code_eq DisciplineRuleCode.no_direction_flip DisciplineRuleCode.no_direction_flip = true
rule_code_eq DisciplineRuleCode.revenge_cooldown DisciplineRuleCode.revenge_cooldown = true
rule_code_eq DisciplineRuleCode.max_daily_loss DisciplineRuleCode.max_daily_loss = true
rule_code_eq DisciplineRuleCode.mandatory_setup_tag DisciplineRuleCode.mandatory_setup_tag = true
rule_code_eq _ _ = false
