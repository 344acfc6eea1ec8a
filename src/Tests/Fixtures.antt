-- ===== src/Tests/Fixtures.antt =====
-- One user on Monday, 5 January 1970, at 10:00 IST: an account of one lakh with its opening credit,
-- a live option chain with one strike, an order payload, and the same account with an open order.
use strikefluency.Market.{Source, OptionChain, Settings, Env}
use strikefluency.Models.Terms.{
  Tier, LedgerTxnType, LedgerRef, Instrument, OptionType, OrderAction, OrderStatus, ProductType,
  SetupTag,
}
use strikefluency.Orders.Request.{OrderData}
use strikefluency.Models.Records.{
  Rows, TradingSession, VirtualAccount, VirtualFundLedger, VirtualOrder, VirtualPosition,
}
use strikefluency.Prelude.{refl, ◌≤ℤ◌, ◌+ℤ◌, false, none, [], arith, pos, some, true, ◌∷◌, ℕ}
use strikefluency.Pricing.{Draw, IsUniform}
use strikefluency.Ledger.Balance.{IsReconciled}

abbrev pub now : ℕ
now = 361_800_000_000

abbrev pub quotes : OptionChain
quotes = record {
  atm_strike = some 22_000;
  strikes = record { strike = 22_000; ce = some 10_000; pe = some 9000 } ∷ [];
  source = some Source.live;
  age_ms = some 500;
  as_of = none;
  timestamp = none;
}

abbrev pub production : Settings
production = record {
  is_production = true;
  market_tick_stale_seconds = 10;
  market_order_block_seconds = 15;
  default_cooldown_minutes = 15;
}

abbrev pub lowest : Draw
lowest lo hi = lo

pub lowest-IsUniform : IsUniform lowest
lowest-IsUniform lo hi h = (omega arith, h)

abbrev pub desk : Env
desk = record {
  now = now;
  today = 4;
  settings = production;
  get_option_chain = λ _. some quotes;
  provider_check = λ _. true;
  draw = lowest;
}

-- The same desk on a Sunday.
abbrev pub sunday : Env
sunday = record desk { now = 275_400_000_000; today = 3 }

abbrev pub account : VirtualAccount
account = record {
  id = 1;
  balance = pos 10_000_000;
  initial_balance = 10_000_000;
  tier = Tier.tier_1;
  consecutive_disciplined_trades = 0;
  discipline_score = 10_000;
  discipline_mode_enabled = true;
  capital_unlocked = false;
}

abbrev pub opening_credit : VirtualFundLedger
opening_credit = record {
  transaction_type = LedgerTxnType.initial_credit;
  amount = pos 10_000_000;
  balance_before = pos 0;
  balance_after = pos 10_000_000;
  reference_type = LedgerRef.account;
  reference_id = 1;
}

abbrev pub fresh_rows : Rows
fresh_rows = record {
  account = account;
  orders = [];
  positions = [];
  sessions = [];
  pendings = [];
  rules = [];
  ledger = opening_credit ∷ [];
  journal = [];
  violations = [];
  scores = [];
  leverage_enabled = none;
  next_id = 2;
  db_orders = [];
  db_scores = [];
}

pub fresh_rows-IsReconciled : IsReconciled fresh_rows
unfolding ◌+ℤ◌
fresh_rows-IsReconciled =
    let floor : pos 0 ≤ℤ pos 10_000_000 = omega arith in ((refl, refl, floor, refl), floor)

abbrev pub payload : OrderData
payload = record {
  client_order_id = some 77;
  instrument = Instrument.nifty;
  expiry_date = 11;
  strike_price = 22_000;
  option_type = OptionType.ce;
  action = OrderAction.buy;
  quantity = 1;
  lot_size = some 65;
  product_type = none;
  sl_price = some 9000;
  target_price = some 12_000;
  sl_is_exact = true;
  target_is_exact = true;
  setup_tag = some SetupTag.price_action;
}

abbrev pub held_order : VirtualOrder
held_order = record {
  id = 2;
  client_order_id = some 77;
  instrument = Instrument.nifty;
  expiry_date = 11;
  strike_price = 22_000;
  option_type = OptionType.ce;
  action = OrderAction.buy;
  quantity = 1;
  lot_size = 65;
  entry_ltp = 10_000;
  entry_price = 10_050;
  exit_price = none;
  sl_price = some 9000;
  target_price = some 12_000;
  exit_limit_price = none;
  status = OrderStatus.open_order;
  product_type = ProductType.intraday;
  trading_day = 4;
  entry_time = 361_700_000_000;
  exit_time = none;
  pnl = none;
  brokerage = 2500;
  entry_brokerage = 2500;
  slippage_points = 50;
  setup_tag = SetupTag.price_action;
  exit_reason = none;
  is_discipline_compliant = true;
  was_free_play = false;
  strategy_id = none;
}

abbrev pub held_position : VirtualPosition
held_position = record {
  order_id = 2;
  instrument = Instrument.nifty;
  expiry_date = 11;
  strike_price = 22_000;
  option_type = OptionType.ce;
  quantity = 1;
  avg_entry_price = 10_050;
  current_ltp = 10_000;
  unrealized_pnl = pos 0;
  margin_blocked = 130_650;
  is_open = true;
  closed_at = none;
}

abbrev pub held_rows : Rows
held_rows = record fresh_rows {
  orders = held_order ∷ [];
  positions = held_position ∷ [];
  next_id = 3;
}

-- The same, with the balance spent: a loss of more than the margin is not covered.
abbrev pub spent_rows : Rows
spent_rows = record held_rows {
  account = record account { balance = pos 0 };
  positions = record held_position { margin_blocked = 100 } ∷ [];
}

abbrev pub session : TradingSession
session = record {
  session_date = 4;
  trades_count = 1;
  realized_pnl = pos 0;
  is_cooldown_active = false;
  cooldown_until = none;
  last_sl_hit_at = none;
}
