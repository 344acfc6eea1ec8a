-- ===== src/Tests/Pricing.antt =====
-- The pricing functions, the clock and the market gates on concrete prices and instants.
use strikefluency.Models.Terms.{OrderAction, Instrument}
use strikefluency.Tests.Fixtures.{desk, quotes, lowest, lowest-IsUniform, now}
use strikefluency.Pricing.{
  spec_strike_interval, BrokerageBreakdown, calculate_brokerage, calculate_slippage,
}
use strikefluency.Prelude.{◌⊎◌, some, ℕ, ◌<◌, refl, true, ◌+◌, ◌*◌, ◌≡◌, ◌≤◌}
use strikefluency.Market.{age_ms, is_live_source, is_tradeable}
use strikefluency.Pricing.SlippageBounds.{apart, calculate_slippage_bands}
use strikefluency.Market.Gates.{is_tradeable-production_iff}
use strikefluency.Pricing.BrokerageBounds.{calculate_brokerage_exact}

abbrev leg : BrokerageBreakdown
leg = calculate_brokerage 10_000 1 65 OrderAction.sell

calculate_brokerage_exact_example :
    (leg.total ≡ leg.flat_brokerage + leg.stt + leg.exchange_charges + leg.sebi_charges + leg.gst)
    × (2360 ≤ leg.total)
    × (OrderAction.sell ≡ OrderAction.buy → leg.stt ≡ 0)
    × (OrderAction.sell ≡ OrderAction.sell
        → (leg.stt * 10_000 ≤ 10_000 * 1 * 65 * 5 + 5000)
          × (10_000 * 1 * 65 * 5 < leg.stt * 10_000 + 5000))
    × (leg.exchange_charges * 100_000 ≤ 10_000 * 1 * 65 * 53 + 50_000)
    × (10_000 * 1 * 65 * 53 < leg.exchange_charges * 100_000 + 50_000)
    × (leg.sebi_charges * 1_000_000 ≤ 10_000 * 1 * 65 + 500_000)
    × (10_000 * 1 * 65 < leg.sebi_charges * 1_000_000 + 500_000)
    × (leg.gst * 100 ≤ (2000 + leg.exchange_charges) * 18 + 50)
    × ((2000 + leg.exchange_charges) * 18 < leg.gst * 100 + 50)
calculate_brokerage_exact_example = calculate_brokerage_exact 10_000 1 65 OrderAction.sell

abbrev bought : ℕ
bought = (calculate_slippage lowest 10_000 22_000 22_000 OrderAction.buy Instrument.nifty).0

abbrev sold : ℕ
sold = (calculate_slippage lowest 10_000 22_000 22_000 OrderAction.sell Instrument.nifty).0

calculate_slippage_bands_example :
    (apart 22_000 22_000 < 6 * spec_strike_interval Instrument.nifty
      → (10_000 * 10_050 ≤ bought * 10_000 + 5000)
        × (bought * 10_000 ≤ 10_000 * 10_150 + 5000)
        × (10_000 * 9850 ≤ sold * 10_000 + 5000)
        × ((sold ≡ 5) ⊎ (sold * 10_000 ≤ 10_000 * 9950 + 5000)))
    × (6 * spec_strike_interval Instrument.nifty ≤ apart 22_000 22_000
        → (10_000 * 10_200 ≤ bought * 10_000 + 5000)
          × (bought * 10_000 ≤ 10_000 * 10_400 + 5000)
          × (10_000 * 9600 ≤ sold * 10_000 + 5000)
          × ((sold ≡ 5) ⊎ (sold * 10_000 ≤ 10_000 * 9800 + 5000)))
    × (5 ≤ sold)
calculate_slippage_bands_example =
    calculate_slippage_bands lowest 10_000 22_000 22_000 Instrument.nifty lowest-IsUniform

is_tradeable-production_iff_example :
    (is_tradeable desk quotes ≡ true
      → (is_live_source quotes ≡ true)
        × ((age : ℕ) × (age_ms now quotes ≡ some age) × (age ≤ 15 * 1000)))
    × ((age : ℕ)
        → is_live_source quotes ≡ true
        → age_ms now quotes ≡ some age
        → age ≤ 15 * 1000
        → is_tradeable desk quotes ≡ true)
is_tradeable-production_iff_example = is_tradeable-production_iff desk quotes refl
