-- ===== src/Pending/Slipping.antt =====
-- The price that a limit order is filled at.
use strikefluency.Pending.Trigger.{is_triggered, payload_of}
use strikefluency.Orders.Place.{ticket_for}
use strikefluency.Pricing.{IsUniform, calculate_slippage}
use strikefluency.Market.{Env}
use strikefluency.Models.Records.{PendingOrder}
use strikefluency.Prelude.{arith, ◌<◌, true, ◌≤◌, ◌≡◌, ℕ, Bool, Option}
use strikefluency.Models.Terms.{OrderAction}
use strikefluency.Pricing.SlippageBounds.{slippage_points_bands}

-- A purchase that rests at a limit of 1.01 rupees or more is triggered when the premium is exactly
-- its limit, and with slippage draws within their bounds the order that is then placed fills above
-- the limit.
pub fill_price_above_limit :
    (env : Env) (p : PendingOrder) (leverage : Option Bool) (atm : ℕ)
    → IsUniform env.draw
    → p.action ≡ OrderAction.buy
    → 101 ≤ p.limit_price
    → (is_triggered p p.limit_price ≡ true)
      × (p.limit_price < (ticket_for env (payload_of p) leverage p.limit_price atm).fill_price)
unfolding ticket_for calculate_slippage
fill_price_above_limit env p leverage atm uniform purchase enough =
    ground (arith, slippage_points_bands env.draw p.limit_price uniform)
