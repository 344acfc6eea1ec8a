-- ===== src/Pricing/BrokerageBounds.antt =====
-- What the charges of one order leg amount to.
use strikefluency.Prelude.{ℕ, ◌+◌, ◌*◌, ◌≤◌, ◌<◌, ◌≡◌, arith}
use strikefluency.Models.Terms.{OrderAction}
use strikefluency.Pricing.Brokerage.{calculate_brokerage}

-- The total of a leg is the sum of its parts and at least the flat fee with its tax; a purchase
-- pays no transaction tax; and each charge is the exact rate of the turnover to within half a
-- paisa, with the tax taken on the flat fee and the exchange charges alone.
pub calculate_brokerage_exact :
    (ltp quantity lot_size : ℕ) (action : OrderAction)
    → let b = calculate_brokerage ltp quantity lot_size action in
      let turnover = ltp * quantity * lot_size in
      (b.total ≡ b.flat_brokerage + b.stt + b.exchange_charges + b.sebi_charges + b.gst)
      × (2360 ≤ b.total)
      × (action ≡ OrderAction.buy → b.stt ≡ 0)
      × (action ≡ OrderAction.sell
          → (b.stt * 10_000 ≤ turnover * 5 + 5000) × (turnover * 5 < b.stt * 10_000 + 5000))
      × (b.exchange_charges * 100_000 ≤ turnover * 53 + 50_000)
      × (turnover * 53 < b.exchange_charges * 100_000 + 50_000)
      × (b.sebi_charges * 1_000_000 ≤ turnover + 500_000)
      × (turnover < b.sebi_charges * 1_000_000 + 500_000)
      × (b.gst * 100 ≤ (2000 + b.exchange_charges) * 18 + 50)
      × ((2000 + b.exchange_charges) * 18 < b.gst * 100 + 50)
unfolding calculate_brokerage
calculate_brokerage_exact ltp quantity lot_size action = ground arith

turnover_mono : (p q n l : ℕ) → p ≤ q → p * n * l ≤ q * n * l
turnover_mono p q n l h = let one : p * n ≤ q * n = grind arith in grind arith

-- A dearer premium never costs less: the total charges of a leg do not fall when its price rises.
calculate_brokerage_mono :
    (p q quantity lot_size : ℕ) (action : OrderAction)
    → p ≤ q
    → (calculate_brokerage p quantity lot_size action).total
      ≤ (calculate_brokerage q quantity lot_size action).total
unfolding calculate_brokerage
calculate_brokerage_mono p q quantity lot_size action h =
    ground (arith, turnover_mono p q quantity lot_size h)
