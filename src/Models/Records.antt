-- ===== src/Models/Records.antt =====
-- The tables of backend/app/models that the trading services read and write, as one user's rows.
-- Every query of those services filters on `user_id`, so the columns `user_id`, `tenant_id` and
-- `account_id` are left out: one `Rows` holds what one user owns. A uuid is a number, a
-- NUMERIC(_, 2) column a whole number of paise, a date a day number, a datetime a number of
-- microseconds since the epoch (UTC).
use strikefluency.Prelude.{ℕ, ℤ, Bool, Option, List}
use strikefluency.Models.Terms.{
  Instrument, OptionType, OrderAction, OrderStatus, PendingOrderStatus, ExitReason, ProductType,
  SetupTag, Tier, DisciplineRuleCode, LedgerTxnType, LedgerRef,
}

-- backend/app/models/virtual_account.py
pub record VirtualAccount : Type 0 where
  pub id : ℕ
  pub balance : ℤ
  pub initial_balance : ℕ
  pub tier : Tier
  pub consecutive_disciplined_trades : ℕ
  -- In hundredths of a percent.
  pub discipline_score : ℕ
  pub discipline_mode_enabled : Bool
  pub capital_unlocked : Bool

-- backend/app/models/virtual_order.py
pub record VirtualOrder : Type 0 where
  pub id : ℕ
  pub client_order_id : Option ℕ
  pub instrument : Instrument
  pub expiry_date : ℕ
  pub strike_price : ℕ
  pub option_type : OptionType
  pub action : OrderAction
  pub quantity : ℕ
  pub lot_size : ℕ
  pub entry_ltp : ℕ
  pub entry_price : ℕ
  pub exit_price : Option ℕ
  pub sl_price : Option ℕ
  pub target_price : Option ℕ
  pub exit_limit_price : Option ℕ
  pub status : OrderStatus
  pub product_type : ProductType
  pub trading_day : ℕ
  pub entry_time : ℕ
  pub exit_time : Option ℕ
  pub pnl : Option ℤ
  pub brokerage : ℕ
  pub entry_brokerage : ℕ
  pub slippage_points : ℕ
  pub setup_tag : SetupTag
  pub exit_reason : Option ExitReason
  pub is_discipline_compliant : Bool
  pub was_free_play : Bool
  pub strategy_id : Option ℕ

-- backend/app/models/virtual_position.py
pub record VirtualPosition : Type 0 where
  pub order_id : ℕ
  pub instrument : Instrument
  pub expiry_date : ℕ
  pub strike_price : ℕ
  pub option_type : OptionType
  pub quantity : ℕ
  pub avg_entry_price : ℕ
  pub current_ltp : ℕ
  pub unrealized_pnl : ℤ
  pub margin_blocked : ℕ
  pub is_open : Bool
  pub closed_at : Option ℕ

-- backend/app/models/trading_session.py
pub record TradingSession : Type 0 where
  pub session_date : ℕ
  pub trades_count : ℕ
  pub realized_pnl : ℤ
  pub is_cooldown_active : Bool
  pub cooldown_until : Option ℕ
  pub last_sl_hit_at : Option ℕ

-- backend/app/models/pending_order.py
pub record PendingOrder : Type 0 where
  pub id : ℕ
  pub client_order_id : Option ℕ
  pub instrument : Instrument
  pub expiry_date : ℕ
  pub strike_price : ℕ
  pub option_type : OptionType
  pub action : OrderAction
  pub quantity : ℕ
  pub lot_size : ℕ
  pub product_type : ProductType
  pub limit_price : ℕ
  pub placed_ltp : ℕ
  pub sl_price : Option ℕ
  pub target_price : Option ℕ
  pub setup_tag : SetupTag
  pub status : PendingOrderStatus
  pub margin_blocked : ℕ
  pub trading_day : ℕ
  pub filled_order_id : Option ℕ
  pub fill_price : Option ℕ
  pub filled_at : Option ℕ
  pub closed_at : Option ℕ

-- backend/app/models/discipline_rule.py; the JSON `rule_value` by the keys that are read, with
-- `loss_pct` in hundredths of a percent.
pub record DisciplineRule : Type 0 where
  pub rule_code : DisciplineRuleCode
  pub is_active : Bool
  pub enabled : Option Bool
  pub max_trades : Option ℕ
  pub loss_pct : Option ℕ
  pub cooldown_minutes : Option ℕ

-- backend/app/models/virtual_fund_ledger.py
pub record VirtualFundLedger : Type 0 where
  pub transaction_type : LedgerTxnType
  pub amount : ℤ
  pub balance_before : ℤ
  pub balance_after : ℤ
  pub reference_type : LedgerRef
  pub reference_id : ℕ

-- backend/app/models/journal_entry.py, as `_create_journal_entry` fills it
pub record JournalEntry : Type 0 where
  pub order_id : ℕ
  pub entry_price : ℕ
  pub exit_price : Option ℕ
  pub pnl : ℤ
  pub brokerage : ℕ
  pub setup_tag : SetupTag
  pub exit_reason : ExitReason
  pub is_discipline_compliant : Bool
  pub duration_minutes : ℕ
  pub trade_date : ℕ

-- backend/app/models/discipline_violation.py
pub record DisciplineViolation : Type 0 where
  pub rule_code : DisciplineRuleCode
  pub session_date : ℕ
  pub was_blocked : Bool

-- backend/app/models/discipline_score.py
pub record DisciplineScore : Type 0 where
  pub score_date : ℕ
  pub score : ℕ
  pub trades_analyzed : ℕ
  pub violations_count : ℕ
  pub consecutive_disciplined_streak : ℕ

-- What one user owns, the rows of a table in the order of their creation. The account is created
-- with the user. `next_id` is the supply of fresh uuids, and `leverage_enabled` the one key of
-- the user's settings that the services read. The database session has `autoflush=False`
-- (backend/app/database.py): a query that filters or selects columns runs on what was last
-- flushed, not on the objects as they are. `db_orders` and `db_scores` are the two tables as last
-- flushed, for the queries that see the difference.
pub record Rows : Type 0 where
  pub account : VirtualAccount
  pub orders : List VirtualOrder
  pub positions : List VirtualPosition
  pub sessions : List TradingSession
  pub pendings : List PendingOrder
  pub rules : List DisciplineRule
  pub ledger : List VirtualFundLedger
  pub journal : List JournalEntry
  pub violations : List DisciplineViolation
  pub scores : List DisciplineScore
  pub leverage_enabled : Option Bool
  pub next_id : ℕ
  pub db_orders : List VirtualOrder
  pub db_scores : List DisciplineScore

-- `db.flush()`
abbrev pub flush : Rows → Rows
flush s = record s { db_orders = s.orders; db_scores = s.scores }
