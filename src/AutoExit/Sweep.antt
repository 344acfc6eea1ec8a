-- ===== src/AutoExit/Sweep.antt =====
-- `_decide_exit` and `scan_and_exit`. A sweep runs in the one transaction of its tick, and catches
-- what a close raises without a savepoint, so what the close wrote before it raised stays in the
-- transaction that the tick commits (`_auto_exit_tick` of market_scheduler.py). The orders of one
-- user are swept in the order of the query; its list of orders was read before the first close.
use strikefluency.Market.{by_instrument, get_ltp_from_chain, is_tradeable, OptionChain, Env}
use strikefluency.Prelude.{
  none, [], leb, ◌&&◌, false, if◌then◌else◌, select, some, ◌+◌, Bool, ℕ, ◌∷◌, List, Option,
}
use strikefluency.Models.Records.{Rows, VirtualOrder}
use strikefluency.Models.Terms.{OrderAction, is_buy, ExitReason, is_open_status}
use strikefluency.Action.{err, ok, Result}
use strikefluency.Orders.Close.{close_position}
use strikefluency.Orders.Protection.{update_position_ltp}
use strikefluency.Clock.{is_market_open}
use strikefluency.Discipline.{is_none}

abbrev pub crossed_below : Option ℕ → ℕ → Bool
crossed_below none ltp = false
crossed_below (some level) ltp = leb ltp level

abbrev pub crossed_above : Option ℕ → ℕ → Bool
crossed_above none ltp = false
crossed_above (some level) ltp = leb level ltp

-- `_decide_exit`, from the direction and the three levels of the order.
abbrev pub decide : OrderAction → Option ℕ → Option ℕ → Option ℕ → ℕ → Option ExitReason
decide action sl tgt exit_limit ltp =
    if is_buy action
    then (if crossed_below sl ltp
        then some ExitReason.sl_hit
        else if crossed_above tgt ltp
        then some ExitReason.target_hit
        else if crossed_above exit_limit ltp
        then some ExitReason.limit_exit
        else none)
    else (if crossed_above sl ltp
        then some ExitReason.sl_hit
        else if crossed_below tgt ltp
        then some ExitReason.target_hit
        else if crossed_below exit_limit ltp
        then some ExitReason.limit_exit
        else none)

unfoldable pub decide_exit : VirtualOrder → ℕ → Option ExitReason
decide_exit o ltp = decide o.action o.sl_price o.target_price o.exit_limit_price ltp

-- The rows and the number of orders closed, whatever a close came to.
abbrev pub counted : Result VirtualOrder × Rows → ℕ × Rows
counted (ok _, s) = (1, s)
counted (err _, s) = (0, s)

unfoldable pub exit_if : Env → VirtualOrder → ℕ → Option ExitReason → Rows → ℕ × Rows
exit_if env o ltp none s = (0, s)
exit_if env o ltp (some reason) s = counted (close_position env o.id reason (some ltp) s)

-- One order of the sweep. No close of another order changes the fields of this one that are read.
unfoldable pub sweep_quoted : Env → Bool → VirtualOrder → Option ℕ → Rows → ℕ × Rows
sweep_quoted env may_trigger o none s = (0, s)
sweep_quoted env may_trigger o (some ltp) s =
    let s' = update_position_ltp o.id ltp s in
    if may_trigger then exit_if env o ltp (decide_exit o ltp) s' else (0, s')

unfoldable pub sweep_order : Env → Option OptionChain → VirtualOrder → Rows → ℕ × Rows
sweep_order env none o s = (0, s)
sweep_order env (some chain) o s =
    sweep_quoted env (is_market_open env.now && is_tradeable env chain) o
      (get_ltp_from_chain chain o.strike_price o.option_type).0 s

unfoldable pub sweep : Env → List VirtualOrder → ℕ → Rows → ℕ × Rows
sweep env [] closed s = (closed, s)
sweep env (o ∷ os) closed s =
    let (n, s') = sweep_order env (env.get_option_chain o.instrument) o s in
    sweep env os (closed + n) s'

abbrev pub is_standing : VirtualOrder → Bool
is_standing o = is_open_status o.status && is_none o.strategy_id

unfoldable pub scan_and_exit : Env → Rows → ℕ × Rows
scan_and_exit env s =
    sweep env (by_instrument (λ o. o.instrument) (select is_standing s.orders)) 0 s
