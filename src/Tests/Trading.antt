-- ===== src/Tests/Trading.antt =====
-- Orders placed, repeated, closed, refused and protected on the concrete desk.
use strikefluency.Models.Terms.{ExitReason}
use strikefluency.Tests.Fixtures.{
  desk, quotes, payload, lowest-IsUniform, fresh_rows, held_order, held_position, held_rows, now,
}
use strikefluency.Prelude.{
  neg, ◌+ℤ◌, false, none, refl, true, Bool, arith, some, ◌≡◌, ◌≤ℤ◌, pos, ◌≤◌,
}
use strikefluency.Orders.CloseOutcome.{close_position-Settles, Settles}
use strikefluency.Orders.Queries.{margin_for, find_order}
use strikefluency.Models.Records.{Rows, VirtualOrder}
use strikefluency.Orders.Placement.{place_order-Placed, Placed}
use strikefluency.Orders.Editing.{update_order_protection-Edited, Edited}
use strikefluency.Market.{get_ltp_from_chain, fetch_orderable, Env}
use strikefluency.Action.{err, ok, Result}
use strikefluency.Clock.{current_trading_day, require_market_open, is_market_open}
use strikefluency.Orders.Place.{
  ticket_for, new_position, new_order, fill, book, gate_discipline, place_quoted, place_new,
  replay_or_place, place_order,
}
use strikefluency.Orders.Protected.{Protectable}
use strikefluency.Orders.Request.{lot_size_of}
use strikefluency.Orders.Close.{close_position, exit_for}
use strikefluency.Orders.Idempotence.{place_order_repeated}
use strikefluency.Orders.Protection.{update_order_protection, with_protection}
use strikefluency.Sessions.{set_session, increment_trade_count, get_or_create_today}
use strikefluency.Discipline.{
  max_loss_of, fails_direction_flip, fails_averaging_down, check_cooldown, rule_for,
  fails_max_daily_loss, fails_max_trades, fails_setup_tag, fails_mandatory_sl, check_order, enforce,
}
use strikefluency.Pricing.{calculate_slippage, calculate_brokerage}
use strikefluency.Ledger.{post, charge, block_margin}

one_lot : 1 ≤ payload.quantity
one_lot = omega arith

full_lot : 3 ≤ lot_size_of payload
full_lot = omega arith

open_now : is_market_open now ≡ true
unfolding is_market_open
open_now = refl

place_order-Placed_example : Placed payload fresh_rows (place_order desk payload fresh_rows)
place_order-Placed_example =
    place_order-Placed desk payload lowest-IsUniform one_lot full_lot fresh_rows

-- The order that the payload places on the fresh rows.
abbrev first_of : Result (VirtualOrder × Bool) × Rows → VirtualOrder × Bool
first_of (ok (o, b), s) = (o, b)
first_of (err e, s) = (held_order, false)

abbrev first_order : VirtualOrder
first_order = (first_of (place_order desk payload fresh_rows)).0

abbrev first_rows : Rows
first_rows = (place_order desk payload fresh_rows).1

first_placed : place_order desk payload fresh_rows ≡ (ok (first_order, false), first_rows)
unfolding place_order require_market_open is_market_open replay_or_place place_new
    get_or_create_today fetch_orderable place_quoted get_ltp_from_chain gate_discipline enforce
    check_order fails_mandatory_sl fails_setup_tag fails_max_trades fails_max_daily_loss rule_for
    check_cooldown fails_averaging_down fails_direction_flip max_loss_of book fill new_order
    new_position ticket_for margin_for calculate_brokerage calculate_slippage block_margin charge
    post current_trading_day increment_trade_count set_session ◌+ℤ◌ neg
first_placed = refl

-- The same desk a minute later.
abbrev later : Env
later = record desk { now = 361_860_000_000 }

open_later : is_market_open later.now ≡ true
unfolding is_market_open
open_later = refl

place_order_repeated_example :
    place_order later payload first_rows ≡ (ok (first_order, true), first_rows)
place_order_repeated_example =
    place_order_repeated desk later payload 77 fresh_rows first_order false first_rows
      lowest-IsUniform one_lot full_lot refl first_placed open_later

held_found : find_order 2 held_rows ≡ some held_order
unfolding find_order
held_found = refl

funded : pos 0 ≤ℤ held_rows.account.balance
funded = omega arith

close_position-Settles_example :
    Settles desk held_order ExitReason.manual
      (exit_for desk held_order (some held_position) ExitReason.manual none quotes)
      130_650
      held_rows
      (close_position desk 2 ExitReason.manual none held_rows)
close_position-Settles_example =
    close_position-Settles desk held_order ExitReason.manual none quotes held_rows refl funded
      held_found open_now refl

update_order_protection-Edited_example :
    Edited
      (λ o p. Protectable o p (some 9500) none held_rows)
      (with_protection (some 9500) none)
      2
      held_rows
      (update_order_protection 2 (some 9500) none held_rows)
update_order_protection-Edited_example = update_order_protection-Edited 2 (some 9500) none held_rows
