-- ===== src/Tests/TwoCloses.antt =====
-- Two open orders of one contract, closed one after the other on a day that has its session.
use strikefluency.Orders.Close.{discipline_effects, release, exit_for, settle}
use strikefluency.Tests.Fixtures.{now, quotes, session, held_position, held_rows, desk, held_order}
use strikefluency.Orders.TwoCloses.{close_position_twice}
use strikefluency.Action.{err, ok, Result}
use strikefluency.Discipline.{score_of, count_compliant, update_discipline_score, recent_orders}
use strikefluency.Models.Records.{DisciplineScore, Rows, VirtualOrder}
use strikefluency.Prelude.{
  neg, scale, ◌*ℤ◌, ◌-ℤ◌, ◌+ℤ◌, arith, refl, ◌++◌, [], some, true, none, ◌∷◌, ◌≡◌, ◌≢◌, List,
}
use strikefluency.Orders.Queries.{find_order}
use strikefluency.Sessions.{update_realized_pnl, set_session, get_or_create_today, find_today}
use strikefluency.Clock.{current_trading_day, require_market_open, is_market_open}
use strikefluency.Orders.Close.{close_open, close_found, close_position}
use strikefluency.Models.Terms.{ExitReason, OrderStatus}
use strikefluency.Market.{get_ltp_from_chain}
use strikefluency.Pricing.{calculate_pnl, calculate_brokerage, calculate_slippage}
use strikefluency.Ledger.{post, settle_pnl, release_margin}

abbrev past_order : VirtualOrder
past_order = record held_order {
  id = 1;
  status = OrderStatus.closed;
  exit_time = some 361_750_000_000;
}

abbrev other_order : VirtualOrder
other_order = record held_order { id = 3; client_order_id = none }

abbrev both_orders : List VirtualOrder
both_orders = past_order ∷ (held_order ∷ (other_order ∷ []))

abbrev two_rows : Rows
two_rows = record held_rows {
  orders = both_orders;
  positions = held_position ∷ (record held_position { order_id = 3 } ∷ []);
  sessions = session ∷ [];
  db_orders = both_orders;
  next_id = 4;
}

some_closed : recent_orders two_rows.db_orders ≢ []
unfolding recent_orders
some_closed e = ground arith

abbrev closed_of : Result VirtualOrder → VirtualOrder
closed_of (ok o) = o
closed_of (err e) = held_order

abbrev once : Result VirtualOrder × Rows
once = close_position desk 2 ExitReason.manual none two_rows

abbrev twice : Result VirtualOrder × Rows
twice = close_position desk 3 ExitReason.manual none once.1

first_found : find_order 2 two_rows ≡ some held_order
unfolding find_order
first_found = refl

first_returned : once.0 ≡ ok (closed_of once.0)
unfolding close_position close_found close_open settle exit_for release discipline_effects
    require_market_open is_market_open get_or_create_today find_today find_order set_session
    update_realized_pnl update_discipline_score recent_orders count_compliant score_of
    calculate_slippage calculate_brokerage calculate_pnl get_ltp_from_chain release_margin
    settle_pnl post current_trading_day ◌+ℤ◌ ◌-ℤ◌ ◌*ℤ◌ scale neg
first_returned = refl

second_found : find_order 3 once.1 ≡ some other_order
unfolding close_position close_found close_open settle exit_for release discipline_effects
    require_market_open is_market_open get_or_create_today find_today find_order set_session
    update_realized_pnl update_discipline_score recent_orders count_compliant score_of
    calculate_slippage calculate_brokerage calculate_pnl get_ltp_from_chain release_margin
    settle_pnl post current_trading_day ◌+ℤ◌ ◌-ℤ◌ ◌*ℤ◌ scale neg
second_found = refl

second_returned : twice.0 ≡ ok (closed_of twice.0)
unfolding close_position close_found close_open settle exit_for release discipline_effects
    require_market_open is_market_open get_or_create_today find_today find_order set_session
    update_realized_pnl update_discipline_score recent_orders count_compliant score_of
    calculate_slippage calculate_brokerage calculate_pnl get_ltp_from_chain release_margin
    settle_pnl post current_trading_day ◌+ℤ◌ ◌-ℤ◌ ◌*ℤ◌ scale neg
second_returned = refl

day_there : find_today 4 two_rows.sessions ≡ some session
unfolding find_today
day_there = refl

open_now : is_market_open now ≡ true
unfolding is_market_open
open_now = refl

close_position_twice_example :
    (d : DisciplineScore) × (e : DisciplineScore) × (twice.1.scores ≡ ([] ++ (d ∷ [])) ++ (e ∷ []))
    × (d.score_date ≡ 4)
    × (e.score_date ≡ 4)
close_position_twice_example =
    close_position_twice desk two_rows held_order other_order (closed_of once.0) (closed_of twice.0)
      ExitReason.manual ExitReason.manual none none session quotes quotes open_now day_there
      some_closed refl (omega arith) refl refl first_found refl refl refl refl first_returned
      second_found second_returned
