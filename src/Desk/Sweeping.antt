-- ===== src/Desk/Sweeping.antt =====
-- What the sweep of open orders does to the invariant: it commits whatever each close came to.
use strikefluency.Models.Records.{VirtualOrder, Rows}
use strikefluency.AutoExit.Sweep.{
  decide_exit, counted, sweep_order, sweep_quoted, exit_if, scan_and_exit, sweep,
}
use strikefluency.Market.{get_ltp_from_chain, is_tradeable, OptionChain, Env}
use strikefluency.Action.{err, ok, Result}
use strikefluency.Desk.Invariant.{Inv}
use strikefluency.Prelude.{
  inl, inr, Bool-cases, none, ◌&&◌, ◌≤ℤ◌, pos, [], some, Bool, Option, ◌∷◌, ℕ, List,
}
use strikefluency.Desk.Continuing.{
  close_position-Continues, Continues-refl, SameButMarks-Continues, Continues-Inv, Continues,
}
use strikefluency.Models.Terms.{ExitReason}
use strikefluency.Clock.{is_market_open}
use strikefluency.Orders.Protection.{update_position_ltp}
use strikefluency.Orders.Close.{close_position}
use strikefluency.AutoExit.Held.{update_position_ltp-SameButMarks}

counted-Continues :
    (s : Rows) (r : Result VirtualOrder × Rows) → Continues s r.1 → Continues s (counted r).1
counted-Continues s (ok o, s') h = h
counted-Continues s (err e, s') h = h

exit_if-Continues :
    (env : Env) (o : VirtualOrder) (ltp : ℕ) (reason : Option ExitReason) (s : Rows)
    → pos 0 ≤ℤ s.account.balance
    → Continues s (exit_if env o ltp reason s).1
unfolding exit_if
exit_if-Continues env o ltp none s floor = Continues-refl s
exit_if-Continues env o ltp (some reason) s floor =
    counted-Continues s (close_position env o.id reason (some ltp) s)
      (close_position-Continues env reason (some ltp) s floor o.id)

module _ (env : Env) (o : VirtualOrder) where
  sweep_quoted-Inv :
      (may_trigger : Bool) (ltp : Option ℕ) (s : Rows)
      → Inv s
      → Inv (sweep_quoted env may_trigger o ltp s).1
  unfolding sweep_quoted
  sweep_quoted-Inv may_trigger none s inv = inv
  sweep_quoted-Inv may_trigger (some ltp) s inv =
      let marked = update_position_ltp o.id ltp s in
      let inv' =
        Continues-Inv s marked
          (SameButMarks-Continues s marked (update_position_ltp-SameButMarks o.id ltp s)) inv in
      elim (Bool-cases may_trigger) [
        | inr idle ↦ rw idle inv'
        | inl may ↦ rw may (
            Continues-Inv marked _
              (exit_if-Continues env o ltp (decide_exit o ltp) marked inv'.reconciled.1) inv')
      ]

  sweep_order-Inv :
      (chain : Option OptionChain) (s : Rows) → Inv s → Inv (sweep_order env chain o s).1
  unfolding sweep_order
  sweep_order-Inv none s inv = inv
  sweep_order-Inv (some chain) s inv =
      sweep_quoted-Inv (is_market_open env.now && is_tradeable env chain)
        ((get_ltp_from_chain chain o.strike_price o.option_type).0) s inv

sweep-Inv :
    (env : Env) (os : List VirtualOrder) (n : ℕ) (s : Rows) → Inv s → Inv (sweep env os n s).1
unfolding sweep
sweep-Inv env [] n s inv = inv
sweep-Inv env (o ∷ os) n s inv =
    sweep-Inv env os _ _ (sweep_order-Inv env o (env.get_option_chain o.instrument) s inv)

pub scan_and_exit-Inv : (env : Env) (s : Rows) → Inv s → Inv (scan_and_exit env s).1
unfolding scan_and_exit
scan_and_exit-Inv env s inv = sweep-Inv env _ 0 s inv
