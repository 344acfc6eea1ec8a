-- ===== src/Tests/Resting.antt =====
-- Limit orders on the concrete desk: one that rests, one that is parked, and what becomes of them.
use strikefluency.Ledger.Wallet.{post_all-move_all, move_all, Posting, post_all}
use strikefluency.Prelude.{
  ℕ, neg, ◌+ℤ◌, false, [], negsuc, ◌&&◌, none, refl, true, ◌<◌, ◌∷◌, Bool, arith, round_half_even,
  some, ◌≡◌, ◌≤ℤ◌, All, List, pos, ◌≤◌,
}
use strikefluency.Pending.Expiry.{
  expire_pending_orders-Expired, expired_if, Expired, IsSettled, HasDistinctIds,
}
use strikefluency.Desk.Invariant.{Inv, IsSized}
use strikefluency.Desk.Reach.{
  Reach-settles, start, park_limit, fill_sweep, cancel, next, Reach-Inv, happen, Reach,
}
use strikefluency.Pending.Trigger.{payload_of, try_fill, is_triggered, scan_and_fill}
use strikefluency.Pending.Park.{
  new_pending, park, park_quoted, limit_of, park_new, cancel_pending_order, replay_or_park,
  PendingData, expire_pending_orders, find_pending, money, place_pending_order,
}
use strikefluency.Action.{err, ok, Result}
use strikefluency.Clock.{current_trading_day, require_market_open, is_market_open}
use strikefluency.Models.Records.{PendingOrder, Rows}
use strikefluency.Pending.Parking.{place_pending_order_repeated, place_pending_order-Rests, Rests}
use strikefluency.Pending.Filling.{try_fill-Tried, Tried}
use strikefluency.Pending.Cancelling.{cancel_pending_order-Cancelled, Cancelled}
use strikefluency.Tests.Fixtures.{
  now, lowest-IsUniform, desk, fresh_rows, fresh_rows-IsReconciled, payload, sunday,
}
use strikefluency.Orders.Request.{lot_size_of}
use strikefluency.Market.{get_ltp_from_chain, fetch_orderable, is_tradeable, OptionChain}
use strikefluency.Models.Terms.{
  PendingOrderStatus, SetupTag, LedgerRef, ProductType, OrderAction, is_pending_status,
  LedgerTxnType, OptionType, Instrument,
}
use strikefluency.Pending.Sweeping.{scan_and_fill-held}
use strikefluency.Ledger.Balance.{total}
use strikefluency.Orders.Place.{gate_discipline, ticket_for}
use strikefluency.Sessions.{set_session, get_or_create_today}
use strikefluency.Pending.Slipping.{fill_price_above_limit}
use strikefluency.Pending.Reserve.{worth, reserved}
use strikefluency.Discipline.{
  max_loss_of, fails_direction_flip, fails_averaging_down, check_cooldown, rule_for,
  fails_max_daily_loss, fails_max_trades, fails_setup_tag, fails_mandatory_sl, check_order, enforce,
}
use strikefluency.Orders.Queries.{margin_for}
use strikefluency.Ledger.{post, block_margin}

abbrev parked : PendingOrder
parked = record {
  id = 2;
  client_order_id = some 88;
  instrument = Instrument.nifty;
  expiry_date = 11;
  strike_price = 22_000;
  option_type = OptionType.ce;
  action = OrderAction.buy;
  quantity = 1;
  lot_size = 65;
  product_type = ProductType.intraday;
  limit_price = 10_000;
  placed_ltp = 10_500;
  sl_price = some 9000;
  target_price = some 12_000;
  setup_tag = SetupTag.price_action;
  status = PendingOrderStatus.pending;
  margin_blocked = 130_000;
  trading_day = 4;
  filled_order_id = none;
  fill_price = none;
  filled_at = none;
  closed_at = none;
}

abbrev pub resting_rows : Rows
resting_rows = record fresh_rows { pendings = parked ∷ []; next_id = 3 }

floor : pos 0 ≤ℤ resting_rows.account.balance
floor = omega arith

apart : HasDistinctIds resting_rows.pendings
apart = (tt, tt)

settled : All IsSettled resting_rows.pendings
settled = (λ gone. absurd (ground arith), tt)

sized : IsSized parked
sized = (omega arith, omega arith)

pub resting_rows-Inv : Inv resting_rows
resting_rows-Inv = record {
  reconciled = fresh_rows-IsReconciled;
  book = record {
    distinct = apart;
    issued = (omega arith, tt);
    settled = settled;
    sized = (sized, tt);
  };
}

cancel_pending_order-Cancelled_example :
    Cancelled desk 2 resting_rows (cancel_pending_order desk 2 resting_rows)
cancel_pending_order-Cancelled_example = cancel_pending_order-Cancelled desk 2 resting_rows floor

-- A purchase at 95.254 rupees.
abbrev bid : PendingData
bid = record { terms = payload; limit_price = 952_540 }

bid_limit : 0 < limit_of bid
unfolding money round_half_even
bid_limit = omega arith

one_lot : 1 ≤ bid.terms.quantity
one_lot = omega arith

full_lot : 3 ≤ lot_size_of bid.terms
full_lot = omega arith

place_pending_order-Rests_example : Rests bid fresh_rows (place_pending_order desk bid fresh_rows)
place_pending_order-Rests_example =
    place_pending_order-Rests desk bid bid_limit one_lot full_lot fresh_rows

abbrev first_of : Result (PendingOrder × Bool) × Rows → PendingOrder
first_of (ok (p, b), s) = p
first_of (err e, s) = parked

abbrev first_pending : PendingOrder
first_pending = first_of (place_pending_order desk bid fresh_rows)

abbrev first_rows : Rows
first_rows = (place_pending_order desk bid fresh_rows).1

first_parked : place_pending_order desk bid fresh_rows ≡ (ok (first_pending, false), first_rows)
unfolding place_pending_order require_market_open is_market_open replay_or_park park_new
    get_or_create_today fetch_orderable park_quoted get_ltp_from_chain gate_discipline enforce
    check_order fails_mandatory_sl fails_setup_tag fails_max_trades fails_max_daily_loss rule_for
    check_cooldown fails_averaging_down fails_direction_flip max_loss_of park new_pending money
    round_half_even margin_for block_margin post current_trading_day set_session ◌+ℤ◌ neg
first_parked = refl

open_now : is_market_open now ≡ true
unfolding is_market_open
open_now = refl

place_pending_order_repeated_example :
    place_pending_order desk bid first_rows ≡ (ok (first_pending, true), first_rows)
place_pending_order_repeated_example =
    place_pending_order_repeated desk desk bid 77 fresh_rows first_pending false first_rows
      bid_limit one_lot full_lot refl first_parked open_now

expire_pending_orders-Expired_example :
    (s' : Rows) × (expire_pending_orders desk none resting_rows ≡ (ok 1, s'))
    × Expired 130_000 (expired_if desk none parked ∷ []) resting_rows s'
expire_pending_orders-Expired_example =
    expire_pending_orders-Expired desk none resting_rows apart floor

parked_found : find_pending 2 resting_rows ≡ some parked
parked_found = refl

try_fill-Tried_example : Tried desk parked resting_rows (try_fill desk 2 resting_rows)
try_fill-Tried_example =
    try_fill-Tried desk parked resting_rows lowest-IsUniform sized.0 sized.1 floor parked_found refl

fill_price_above_limit_example :
    (is_triggered parked 10_000 ≡ true)
    × (10_000 < (ticket_for desk (payload_of parked) none 10_000 22_000).fill_price)
fill_price_above_limit_example =
    fill_price_above_limit desk parked none 22_000 lowest-IsUniform refl (omega arith)

shut :
    (i : Instrument) (chain : OptionChain)
    → sunday.get_option_chain i ≡ some chain
    → (is_market_open sunday.now && is_tradeable sunday chain) ≡ false
unfolding is_market_open
shut i chain e = refl

scan_and_fill-held_example : scan_and_fill sunday resting_rows ≡ (0, resting_rows)
scan_and_fill-held_example = scan_and_fill-held sunday resting_rows shut

fresh_rows-Inv : Inv fresh_rows
fresh_rows-Inv = record {
  reconciled = fresh_rows-IsReconciled;
  book = record { distinct = tt; issued = tt; settled = tt; sized = tt };
}

-- A limit order is parked, the sweep runs, and the order is cancelled.
abbrev busy_rows : Rows
busy_rows =
    happen desk (cancel 2) (happen desk fill_sweep (happen desk (park_limit bid) fresh_rows))

busy : Reach fresh_rows busy_rows
busy = next desk (cancel 2) lowest-IsUniform tt (
    next desk fill_sweep lowest-IsUniform tt
      (next desk (park_limit bid) lowest-IsUniform (bid_limit, one_lot, full_lot) start))

Reach-Inv_example : Inv busy_rows
Reach-Inv_example = Reach-Inv fresh_rows busy_rows busy fresh_rows-Inv

Reach-settles_example :
    let t' = (expire_pending_orders desk none busy_rows).1 in
    ((n : ℕ) × ((expire_pending_orders desk none busy_rows).0 ≡ ok n))
    × All (λ p. is_pending_status p.status ≡ false) t'.pendings
    × (reserved t' ≡ 0)
    × (t'.account.balance ≡ worth busy_rows)
    × (t'.account.balance ≡ total t'.ledger)
Reach-settles_example = Reach-settles desk fresh_rows busy_rows fresh_rows-Inv busy

-- A debit, one that is not covered, and a credit.
abbrev postings : List Posting
postings =
    record {
      txn_type = LedgerTxnType.trade_debit;
      amount = negsuc 99_999;
      ref = LedgerRef.virtual_order;
      id = 2;
    }
    ∷ (record {
      txn_type = LedgerTxnType.trade_debit;
      amount = negsuc 10_000_000;
      ref = LedgerRef.virtual_order;
      id = 3;
    }
        ∷ (record {
          txn_type = LedgerTxnType.trade_credit;
          amount = pos 500;
          ref = LedgerRef.virtual_order;
          id = 2;
        }
            ∷ []))

post_all-move_all_example :
    let (ends, s') = post_all postings fresh_rows in
    (ends ≡ (move_all postings (total fresh_rows.ledger)).0)
    × (total s'.ledger ≡ (move_all postings (total fresh_rows.ledger)).1)
    × (s'.account.balance ≡ (move_all postings (total fresh_rows.ledger)).1)
post_all-move_all_example = post_all-move_all postings fresh_rows fresh_rows-IsReconciled
