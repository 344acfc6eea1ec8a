-- ===== src/Orders/Close.antt =====
-- `close_position` of virtual_order_service.py, in the order of its steps.
use strikefluency.Prelude.{
  find, none, pos, smaller, [], larger, ◌-ℤ◌, ◌==◌, false, if◌then◌else◌, some, true, ◌∷◌, Bool,
  Option, modify_first, ℤ, ◌++◌, ℕ, ◌+◌, ◌-◌, ◌/◌,
}
use strikefluency.Models.Terms.{
  is_open_status, OrderStatus, ExitReason, OrderAction, LedgerRef, LedgerTxnType,
}
use strikefluency.Models.Records.{VirtualOrder, VirtualPosition, TradingSession, JournalEntry, Rows}
use strikefluency.Orders.Queries.{of_order, find_order, put_order}
use strikefluency.Market.{get_ltp_from_chain, OptionChain, Env}
use strikefluency.Pricing.{calculate_slippage, calculate_pnl, calculate_brokerage}
use strikefluency.Action.{
  runtime_error, or_raise, gets, ◌>>=◌, ◌>>◌, order_already_closed, modify, pure, order_not_found,
  ◌>>◌, raise, Action,
}
use strikefluency.Sessions.{
  get_or_create_today, activate_cooldown, set_session, update_realized_pnl,
}
use strikefluency.Clock.{require_market_open}
use strikefluency.Discipline.{update_discipline_score}
use strikefluency.Ledger.{release_margin, settle_pnl}

-- What the close comes to: the fill of the exit, its brokerage, and the P&L net of it.
pub record Exit : Type 0 where
  pub fill_price : ℕ
  pub exit_brokerage : ℕ
  pub net_pnl : ℤ

abbrev pub opposite : OrderAction → OrderAction
opposite OrderAction.buy = OrderAction.sell
opposite OrderAction.sell = OrderAction.buy

-- The premium to exit at: the caller's, else the quote, else the last stored mark, else the entry.
abbrev pub exit_ltp_of : Option ℕ → Option ℕ → Option VirtualPosition → VirtualOrder → ℕ
exit_ltp_of (some given) quoted position o = given
exit_ltp_of none (some quoted) position o = quoted
exit_ltp_of none none (some p) o = p.current_ltp
exit_ltp_of none none none o = o.entry_ltp

-- A LIMIT exit is never filled worse than the instruction.
abbrev pub limited : ExitReason → OrderAction → Option ℕ → ℕ → ℕ
limited ExitReason.limit_exit OrderAction.sell (some limit) fill = larger fill limit
limited ExitReason.limit_exit OrderAction.buy (some limit) fill = smaller fill limit
limited _ exit_action limit fill = fill

abbrev exit_at : VirtualOrder → ℕ → Exit
exit_at o fill_price =
    let costs = (calculate_brokerage fill_price o.quantity o.lot_size (opposite o.action)).total in
    record {
      fill_price = fill_price;
      exit_brokerage = costs;
      net_pnl = calculate_pnl o.action o.entry_price fill_price o.quantity o.lot_size -ℤ pos costs;
    }

unfoldable pub exit_for :
    Env → VirtualOrder → Option VirtualPosition → ExitReason → Option ℕ → OptionChain → Exit
exit_for env o position reason exit_ltp chain =
    let (quoted, atm_strike) = get_ltp_from_chain chain o.strike_price o.option_type in
    let (slipped, _) =
      calculate_slippage env.draw (exit_ltp_of exit_ltp quoted position o) o.strike_price atm_strike
        (opposite o.action) o.instrument in
    exit_at o (limited reason (opposite o.action) o.exit_limit_price slipped)

abbrev pub status_of : ExitReason → OrderStatus
status_of ExitReason.sl_hit = OrderStatus.sl_hit
status_of ExitReason.target_hit = OrderStatus.target_hit
status_of _ = OrderStatus.closed

abbrev pub is_sl_hit : ExitReason → Bool
is_sl_hit ExitReason.sl_hit = true
is_sl_hit _ = false

abbrev pub close_order : Env → ExitReason → Exit → VirtualOrder → VirtualOrder
close_order env reason x o = record o {
  status = status_of reason;
  exit_price = some x.fill_price;
  exit_time = some env.now;
  pnl = some x.net_pnl;
  exit_reason = some reason;
  brokerage = o.brokerage + x.exit_brokerage;
}

abbrev pub close_row : Env → Exit → VirtualPosition → VirtualPosition
close_row env x p = record p {
  is_open = false;
  closed_at = some env.now;
  current_ltp = x.fill_price;
}

abbrev pub put_position : ℕ → (VirtualPosition → VirtualPosition) → Rows → Rows
put_position id f s = record s { positions = modify_first (of_order id) f s.positions }

abbrev pub margin_of : Option VirtualPosition → ℕ
margin_of none = 0
margin_of (some p) = p.margin_blocked

-- The margin is released unless it is zero.
unfoldable pub release : ℕ → ℕ → Action (Unit {0})
release margin id =
    if margin == 0
    then pure tt
    else release_margin LedgerTxnType.trade_credit margin LedgerRef.virtual_order id

-- A stop-loss exit starts the cooldown and marks the order; the score follows. Trades placed in
-- free play do neither.
unfoldable pub discipline_effects : Env → VirtualOrder → ExitReason → TradingSession → Rows → Rows
discipline_effects env o reason session s =
    if o.was_free_play
    then s
    else if is_sl_hit reason
    then update_discipline_score env false (
        put_order o.id (λ o. record o { is_discipline_compliant = false })
          (set_session (activate_cooldown env.now env.settings.default_cooldown_minutes session) s))
    else update_discipline_score env o.is_discipline_compliant s

abbrev pub compliant_after : VirtualOrder → ExitReason → Bool
compliant_after o reason =
    if o.was_free_play
    then o.is_discipline_compliant
    else if is_sl_hit reason
    then false
    else o.is_discipline_compliant

-- `_create_journal_entry`
abbrev pub journal_entry : Env → VirtualOrder → ExitReason → Exit → JournalEntry
journal_entry env o reason x = record {
  order_id = o.id;
  entry_price = o.entry_price;
  exit_price = some x.fill_price;
  pnl = x.net_pnl;
  brokerage = o.brokerage + x.exit_brokerage;
  setup_tag = o.setup_tag;
  exit_reason = reason;
  is_discipline_compliant = compliant_after o reason;
  duration_minutes = (env.now - o.entry_time) / 60_000_000;
  trade_date = env.today;
}

abbrev pub add_journal : JournalEntry → Rows → Rows
add_journal entry s = record s { journal = s.journal ++ (entry ∷ []) }

-- What follows the money: the session, the discipline effects and the journal.
abbrev pub wrap_up : Env → VirtualOrder → ExitReason → TradingSession → Exit → Rows → Rows
wrap_up env o reason session x s =
    let session' = update_realized_pnl x.net_pnl session in
    add_journal (journal_entry env o reason x)
      (discipline_effects env o reason session' (set_session session' s))

abbrev pub closed_rows : Env → VirtualOrder → ExitReason → Exit → Rows → Rows
closed_rows env o reason x s =
    put_position o.id (close_row env x) (put_order o.id (close_order env reason x) s)

unfoldable pub settle :
    Env
    → VirtualOrder
    → Option VirtualPosition
    → ExitReason
    → TradingSession
    → Exit
    → Action VirtualOrder
settle env o position reason session x = do
  modify (closed_rows env o reason x)
  release (margin_of position) o.id
  settle_pnl x.net_pnl LedgerRef.virtual_order o.id
  modify (wrap_up env o reason session x)
  pure (record (close_order env reason x o) { is_discipline_compliant = compliant_after o reason })

-- An exit is not held to the freshness of the quote; a provider that raises stops it.
unfoldable pub close_open : Env → VirtualOrder → ExitReason → Option ℕ → Action VirtualOrder
close_open env o reason exit_ltp = do
  position ← gets (λ s. find (of_order o.id) s.positions)
  session ← get_or_create_today env.today
  chain ← or_raise (env.get_option_chain o.instrument) runtime_error
  settle env o position reason session (exit_for env o position reason exit_ltp chain)

unfoldable pub close_found : Env → Option VirtualOrder → ExitReason → Option ℕ → Action VirtualOrder
close_found env none reason exit_ltp = raise order_not_found
close_found env (some o) reason exit_ltp =
    if is_open_status o.status then close_open env o reason exit_ltp else raise order_already_closed

unfoldable pub close_position : Env → ℕ → ExitReason → Option ℕ → Action VirtualOrder
close_position env order_id reason exit_ltp =
    require_market_open env.now >> λ s. close_found env (find_order order_id s) reason exit_ltp s
