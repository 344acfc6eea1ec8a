-- ===== src/Strategies/SquareOff.antt =====
-- `close_leg`, `square_off` and `_close_if_all_legs_done` of
-- backend/app/services/strategy_execution_service.py: a strategy's exits, and the end of its
-- position with the last open leg.
use strikefluency.Strategies.Book.{
  set_position, flush_book, no_such_leg, strategy_position_of, update, found_or_fail, leg_not_open,
  not_executed, set_strategy, get_strategy, done_with, of_strategy, LegRow, done, fail_if, service,
  Run, StrategyBook, StrategyPosition, StrategyRow, ◌>>=◌, ◌>>◌,
}
use strikefluency.Action.{Action, modify, pure}
use strikefluency.Strategies.Quote.{Desk}
use strikefluency.Prelude.{
  Bool, find, [], none, true, ◌∷◌, exists, not, some, ◌==◌, List, if◌then◌else◌, modify_first, pos,
  Option, false, ◌+ℤ◌, ◌-ℤ◌, ℕ, ℤ,
}
use strikefluency.Models.Terms.{LedgerTxnType, LedgerRef, ExitReason}
use strikefluency.Strategies.Draft.{is_executed, StrategyStatus}
use strikefluency.Ledger.{release_margin, settle_pnl}
use strikefluency.Clock.{require_market_open}
use strikefluency.Strategies.Exit.{leg_has_id, close_single_leg, row_is_open}
use strikefluency.Sessions.{update_realized_pnl, set_session, get_or_create_today}

abbrev pub add_realized : ℤ → StrategyPosition → StrategyPosition
add_realized pnl p = record p { realized_pnl = p.realized_pnl +ℤ pnl }

abbrev pub ended : ℕ → StrategyPosition → StrategyPosition
ended now p = record p { is_open = false; unrealized_pnl = pos 0; closed_at = some now }

-- The realized P&L less the entry brokerage.
abbrev pub net_of : StrategyPosition → ℤ
net_of p = p.realized_pnl -ℤ pos p.brokerage

abbrev pub give_back : StrategyPosition → Action (Unit {0})
give_back p =
    if p.margin_blocked == 0
    then pure tt
    else release_margin LedgerTxnType.trade_credit p.margin_blocked LedgerRef.strategy_position p.id

-- The margin and the P&L go to the account, and the net to the day.
unfoldable pub pay_out : Desk → StrategyPosition → Run (Unit {0})
pay_out desk p = do
  service (give_back p)
  service (settle_pnl (net_of p) LedgerRef.strategy_position p.id)
  session ← service (get_or_create_today desk.env.today)
  service (modify (set_session (update_realized_pnl (net_of p) session)))
  update (set_position (ended desk.env.now p))

abbrev pub pay_out_open : Desk → Option StrategyPosition → Run (Unit {0})
pay_out_open desk none b = (done tt, b)
pay_out_open desk (some p) b = if p.is_open then pay_out desk p b else (done tt, b)

abbrev pub close_strategy : StrategyRow → StrategyRow
close_strategy o = record o { status = StrategyStatus.strategy_closed }

-- `_close_if_all_legs_done`
unfoldable pub close_if_all_legs_done : Desk → StrategyRow → Run (Unit {0})
close_if_all_legs_done desk orm b =
    if exists row_is_open orm.legs
    then (done tt, b)
    else let b' = set_strategy (close_strategy orm) b in
      pay_out_open desk (strategy_position_of orm.id b') b'

abbrev pub realize : ℕ → ℤ → StrategyBook → StrategyBook
realize id pnl b = record b {
  positions = modify_first (of_strategy id) (add_realized pnl) b.positions;
}

unfoldable pub close_found_leg : Desk → StrategyRow → Option ℕ → LegRow → Run (Unit {0})
close_found_leg desk orm given row = do
  fail_if (not (row_is_open row)) leg_not_open
  closing ← close_single_leg desk orm row given ExitReason.manual
  update (realize orm.id closing.1)
  close_if_all_legs_done desk closing.0
  flush_book

unfoldable pub close_leg : Desk → ℕ → ℕ → Option ℕ → Run (Unit {0})
close_leg desk id leg_id given = do
  service (require_market_open desk.env.now)
  orm ← get_strategy id
  row ← found_or_fail no_such_leg (find (leg_has_id leg_id) orm.legs)
  close_found_leg desk orm given row

-- One turn of the loop: a leg that is open is closed, and its result added.
abbrev pub close_if : Bool → Desk → ExitReason → LegRow → StrategyRow × ℤ → Run (StrategyRow × ℤ)
close_if false desk reason row acc = done_with acc
close_if true desk reason row (orm, total) =
    close_single_leg desk orm row none reason >>= λ closing.
    done_with (closing.0, total +ℤ closing.1)

-- The loop over the legs, on the strategy object as it changes, and the sum of what they realize.
unfoldable pub close_open_legs :
    Desk → ExitReason → List LegRow → StrategyRow × ℤ → Run (StrategyRow × ℤ)
close_open_legs desk reason [] acc = done_with acc
close_open_legs desk reason (row ∷ legs) acc =
    close_if (row_is_open row) desk reason row acc >>= close_open_legs desk reason legs

unfoldable pub square_off_found : Desk → ExitReason → StrategyRow → Run (Unit {0})
square_off_found desk reason orm = do
  fail_if (not (is_executed orm.status)) not_executed
  closing ← close_open_legs desk reason orm.legs (orm, pos 0)
  update (realize orm.id closing.1)
  close_if_all_legs_done desk closing.0
  flush_book

unfoldable pub square_off : Desk → ExitReason → ℕ → Run (Unit {0})
square_off desk reason id = do
  service (require_market_open desk.env.now)
  orm ← get_strategy id
  square_off_found desk reason orm
