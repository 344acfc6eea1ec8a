-- ===== src/Strategies/Marking.antt =====
-- `mark_to_market` and `auto_square_off_expiry` of
-- backend/app/services/strategy_execution_service.py, for the user whose rows these are.
use strikefluency.Strategies.Book.{
  strategy_has_id, leg_to_domain, of_strategy, done, done_with, Run, StrategyPosition, StrategyRow,
  LegRow, ◌>>=◌,
}
use strikefluency.Prelude.{
  suc, ◌-ℤ◌, map, ◌*ℤ◌, [], leb, ◌+ℤ◌, find, length, none, ◌&&◌, ◌∷◌, exists, false, if◌then◌else◌,
  pos, select, some, Bool, ℤ, List, Option, ℕ,
}
use strikefluency.Strategies.Quote.{quote_leg, Desk}
use strikefluency.Models.Terms.{ExitReason, Instrument}
use strikefluency.Strategies.Exit.{row_is_open}
use strikefluency.Strategies.Payoff.{signed_quantity}
use strikefluency.Models.Records.{flush}
use strikefluency.Strategies.SquareOff.{square_off}
use strikefluency.Strategies.Builder.{given_or}

abbrev pub leg_gain : LegRow → Option ℕ → ℤ
leg_gain row none = pos 0
leg_gain row (some ltp) =
    signed_quantity (leg_to_domain row) *ℤ (pos ltp -ℤ pos (given_or row.entry_price 0))

-- An open leg with a usable quote counts, at the quote.
abbrev pub mark_leg : Desk → Instrument → LegRow → ℤ
mark_leg desk underlying row =
    if row_is_open row then leg_gain row (quote_leg desk underlying (leg_to_domain row)) else pos 0

unfoldable pub mark_legs : Desk → Instrument → List LegRow → ℤ
mark_legs desk underlying [] = pos 0
mark_legs desk underlying (row ∷ legs) =
    mark_leg desk underlying row +ℤ mark_legs desk underlying legs

abbrev mark_with : Desk → StrategyPosition → Option StrategyRow → StrategyPosition
mark_with desk p none = p
mark_with desk p (some orm) = record p { unrealized_pnl = mark_legs desk orm.underlying orm.legs }

abbrev wanted : Option ℕ → StrategyPosition → Bool
wanted none p = p.is_open
wanted (some id) p = p.is_open && of_strategy id p

abbrev mark_position : Desk → Option ℕ → List StrategyRow → StrategyPosition → StrategyPosition
mark_position desk only strategies p =
    if wanted only p then mark_with desk p (find (strategy_has_id p.strategy_id) strategies) else p

abbrev is_there : List StrategyRow → StrategyPosition → Bool
is_there strategies p = exists (strategy_has_id p.strategy_id) strategies

-- The marked rows, and how many were marked.
unfoldable pub mark_to_market : Desk → Option ℕ → Run ℕ
mark_to_market desk only b = (
  done (length (select (λ p. wanted only p && is_there b.strategies p) b.positions)),
  record b {
    rows = flush b.rows;
    positions = map (mark_position desk only b.strategies) b.positions;
  },
)

-- An open leg whose expiry has come.
abbrev pub expires_by : ℕ → LegRow → Bool
expires_by day row = row_is_open row && leb row.expiry_date day

abbrev pub expiring : ℕ → Option StrategyRow → Bool
expiring day none = false
expiring day (some orm) = exists (expires_by day) orm.legs

abbrev expire_position : Desk → ℕ → StrategyPosition → ℕ → Run ℕ
expire_position desk day p count b =
    if expiring day (find (strategy_has_id p.strategy_id) b.strategies)
    then (square_off desk ExitReason.eod_squareoff p.strategy_id >>= λ _. done_with (suc count)) b
    else (done count, b)

unfoldable pub expire_positions : Desk → ℕ → List StrategyPosition → ℕ → Run ℕ
expire_positions desk day [] count = done_with count
expire_positions desk day (p ∷ ps) count =
    expire_position desk day p count >>= expire_positions desk day ps

-- The positions that are open when it starts, in their order; an error stops the loop.
unfoldable pub auto_square_off_expiry : Desk → ℕ → Run ℕ
auto_square_off_expiry desk day b =
    expire_positions desk day (select (λ p. p.is_open) b.positions) 0 b
