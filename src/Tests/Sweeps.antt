-- ===== src/Tests/Sweeps.antt =====
-- The automatic exits on the concrete desk.
use strikefluency.Models.Terms.{Instrument, ExitReason, OrderAction}
use strikefluency.Tests.Fixtures.{
  desk, sunday, quotes, held_order, held_position, held_rows, spent_rows, now,
}
use strikefluency.Orders.Protection.{
  protect, guarded, reference_price, update_order_protection, with_protection,
}
use strikefluency.AutoExit.Sweep.{decide_exit, exit_if, scan_and_exit}
use strikefluency.Orders.Queries.{of_order, find_order}
use strikefluency.Orders.Close.{Exit, exit_for}
use strikefluency.Prelude.{
  scale, ◌-ℤ◌, false, ◌≢◌, ◌&&◌, arith, none, refl, true, ◌<ℤ◌, ◌↔◌, find, some, ◌+ℤ◌, ◌≡◌, ◌≤ℤ◌,
  pos,
}
use strikefluency.Clock.{is_market_open}
use strikefluency.Orders.Closing.{Abandoned}
use strikefluency.Market.{get_ltp_from_chain, is_tradeable, OptionChain}
use strikefluency.AutoExit.Held.{scan_and_exit-held, SameButMarks}
use strikefluency.AutoExit.Swallowed.{exit_if-forgives}
use strikefluency.Action.{ok}
use strikefluency.AutoExit.Levels.{decide_exit_iff, IsDue}
use strikefluency.AutoExit.Quiet.{update_order_protection-quiet}
use strikefluency.Pricing.{calculate_brokerage, calculate_slippage, calculate_pnl}

decide_exit_iff_example :
    (decide_exit held_order 8900 ≡ some ExitReason.sl_hit)
    ↔ IsDue OrderAction.buy (some 9000) (some 12_000) none 8900 (some ExitReason.sl_hit)
decide_exit_iff_example = decide_exit_iff held_order 8900 (some ExitReason.sl_hit)

shut :
    (i : Instrument) (chain : OptionChain)
    → sunday.get_option_chain i ≡ some chain
    → (is_market_open sunday.now && is_tradeable sunday chain) ≡ false
unfolding is_market_open
shut i chain e = refl

scan_and_exit-held_example :
    ((scan_and_exit sunday held_rows).0 ≡ 0)
    × SameButMarks held_rows (scan_and_exit sunday held_rows).1
scan_and_exit-held_example = scan_and_exit-held sunday held_rows shut

saved :
    (update_order_protection 2 (some 9500) none held_rows).0
    ≡ ok (with_protection (some 9500) none held_order)
unfolding update_order_protection guarded find_order protect
saved = refl

update_order_protection-quiet_example :
    let o = with_protection (some 9500) none held_order in
    (decide_exit o (reference_price held_position o) ≢ some ExitReason.sl_hit)
    × (decide_exit o (reference_price held_position o) ≢ some ExitReason.target_hit)
update_order_protection-quiet_example =
    update_order_protection-quiet 2 (some 9500) none held_rows
      (with_protection (some 9500) none held_order) held_position saved refl

open_now : is_market_open now ≡ true
unfolding is_market_open
open_now = refl

spent_found : find_order 2 spent_rows ≡ some held_order
unfolding find_order
spent_found = refl

bare : pos 0 ≤ℤ spent_rows.account.balance
bare = omega arith

-- The exit at a premium of 80 rupees, and the loss that it makes.
abbrev loss_exit : Exit
loss_exit =
    exit_for desk held_order (find (of_order 2) spent_rows.positions) ExitReason.sl_hit (some 8000)
      quotes

uncovered : pos 0 +ℤ pos 100 +ℤ loss_exit.net_pnl <ℤ pos 0
unfolding exit_for ◌+ℤ◌ ◌-ℤ◌ calculate_pnl scale calculate_slippage calculate_brokerage
    get_ltp_from_chain
uncovered = omega arith

exit_if-forgives_example :
    ((exit_if desk held_order 8000 (some ExitReason.sl_hit) spent_rows).0 ≡ 0)
    × Abandoned desk held_order ExitReason.sl_hit loss_exit 100 spent_rows
        (exit_if desk held_order 8000 (some ExitReason.sl_hit) spent_rows).1
exit_if-forgives_example =
    exit_if-forgives desk held_order ExitReason.sl_hit 8000 quotes spent_rows refl bare spent_found
      open_now refl uncovered
