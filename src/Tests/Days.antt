-- ===== src/Tests/Days.antt =====
-- The end of the day, the emergency exit, the master switch and the guard of the authentication
-- routes on concrete rows and times.
use strikefluency.EndOfDay.Emergency.{emergency_exit_buy_positions-Emptied, Emptied}
use strikefluency.Prelude.{
  ◌+ℤ◌, refl, ◌≤◌, none, true, ◌<ℤ◌, some, ◌∷◌, ◌≡◌, ◌≢◌, [], arith, false, ℕ, ◌≤ℤ◌, List, pos,
  ◌-ℤ◌,
}
use strikefluency.RateLimit.Sliding.{admit_all-sliding, sliding, IsMonotone}
use strikefluency.Models.Terms.{Instrument}
use strikefluency.Clock.{is_market_open}
use strikefluency.EndOfDay.Sweeps.{
  emergency_exit_buy_positions, settle_expiring_options, square_off_standalone,
}
use strikefluency.RateLimit.Window.{admit, admit_all}
use strikefluency.DisciplineMode.Unlocking.{set_mode-Switched, Switched}
use strikefluency.DisciplineMode.Switch.{target_balance, set_mode}
use strikefluency.Ledger.Balance.{IsReconciled}
use strikefluency.Tests.Fixtures.{now, held_order, fresh_rows-IsReconciled, desk, held_rows}
use strikefluency.Tests.Resting.{resting_rows-Inv, resting_rows}
use strikefluency.Action.{market_closed, err, request}
use strikefluency.EndOfDay.Emptied.{
  settle_expiring_options-AllDone, square_off_standalone-AllDone, Swept, AllDone,
}
use strikefluency.Pending.Park.{expire_pending_orders}
use strikefluency.Desk.Overfunded.{set_mode-overfunds}

open_now : is_market_open now ≡ true
unfolding is_market_open
open_now = refl

priced : (i : Instrument) → desk.get_option_chain i ≢ none
priced i = ground arith

held_rows-IsReconciled : IsReconciled held_rows
held_rows-IsReconciled = fresh_rows-IsReconciled

square_off_standalone-AllDone_example :
    let (n, s') = square_off_standalone desk held_rows in
    AllDone (held_order ∷ []) s' × (n ≤ 1) × Swept held_rows s'
square_off_standalone-AllDone_example =
    square_off_standalone-AllDone desk held_rows open_now priced held_rows-IsReconciled

-- On the day that the contract expires.
settle_expiring_options-AllDone_example :
    let (n, s') = settle_expiring_options desk (some 11) held_rows in
    AllDone (held_order ∷ []) s' × Swept held_rows s'
settle_expiring_options-AllDone_example =
    settle_expiring_options-AllDone desk (some 11) held_rows open_now priced held_rows-IsReconciled

emergency_exit_buy_positions-Emptied_example :
    Emptied held_rows (request (emergency_exit_buy_positions desk) held_rows)
    × (is_market_open now ≡ false
        → request (emergency_exit_buy_positions desk) held_rows ≡ (err market_closed, held_rows))
emergency_exit_buy_positions-Emptied_example =
    emergency_exit_buy_positions-Emptied desk held_rows priced held_rows-IsReconciled

funded : pos 0 ≤ℤ held_rows.account.balance
funded = omega arith

set_mode-Switched_example : Switched 5000 false held_rows (set_mode 5000 false held_rows)
set_mode-Switched_example = set_mode-Switched 5000 held_rows funded false

-- One lakh in the balance and a limit order that holds 1300 rupees.
below : resting_rows.account.balance <ℤ target_balance 0 resting_rows
unfolding ◌-ℤ◌
below = omega arith

set_mode-overfunds_example :
    let s' = (set_mode 0 false resting_rows).1 in
    (expire_pending_orders desk none s').1.account.balance
    ≡ target_balance 0 resting_rows +ℤ pos 130_000
set_mode-overfunds_example = set_mode-overfunds desk 0 resting_rows resting_rows-Inv below

-- Five in a minute: the sixth is refused, and the next passes once the first is a minute old.
abbrev tries : List ℕ
tries = 0 ∷ (1 ∷ (2 ∷ (3 ∷ (10 ∷ (59 ∷ (60 ∷ []))))))

in_order : IsMonotone 0 tries
in_order = (
  omega arith,
  (omega arith, (omega arith, (omega arith, (omega arith, (omega arith, (omega arith, tt)))))),
)

admit_all-sliding_example : admit_all 5 60 [] tries ≡ sliding 5 60 [] tries
admit_all-sliding_example = admit_all-sliding 5 60 (omega arith) tries in_order

sixth_refused :
    admit_all 5 60 [] tries ≡ true ∷ (true ∷ (true ∷ (true ∷ (true ∷ (false ∷ (true ∷ []))))))
unfolding admit
sixth_refused = refl
