-- ===== src/Pricing/SlippageBounds.antt =====
-- The simulated fill against the quote.
use strikefluency.Prelude.{
  refl, inr, inl, ltb, Bool-cases, larger, ◌⊎◌, ◌-◌, ℕ, ◌+◌, ◌*◌, ◌≤◌, ◌<◌, ◌≡◌, true, false, arith,
}
use strikefluency.Models.Terms.{OrderAction, Instrument}
use strikefluency.Pricing.Slippage.{
  Draw, IsUniform, slippage_points_of, is_liquid, calculate_slippage,
}
use strikefluency.Pricing.Instruments.{spec_strike_interval}

mul_mono : (a b c : ℕ) → b ≤ c → a * b ≤ a * c
mul_mono a b c h = grind arith

-- With draws within their bounds, within five strikes of the money the slippage is from 0.5% to 1.5% of the premium, and beyond
-- that from 2% to 4%, to the nearest paisa.
pub slippage_points_bands :
    (draw : Draw) (ltp : ℕ)
    → IsUniform draw
    → let near = slippage_points_of draw ltp true in
      let far = slippage_points_of draw ltp false in
      (ltp * 50 ≤ near * 10_000 + 5000)
      × (near * 10_000 ≤ ltp * 150 + 5000)
      × (ltp * 200 ≤ far * 10_000 + 5000)
      × (far * 10_000 ≤ ltp * 400 + 5000)
unfolding slippage_points_of
slippage_points_bands draw ltp u =
    let n = u 50 150 (omega arith) in
    let f = u 200 400 (omega arith) in
    ground (
      arith,
      mul_mono ltp 50 (draw 50 150) n.0,
      mul_mono ltp (draw 50 150) 150 n.1,
      mul_mono ltp 200 (draw 200 400) f.0,
      mul_mono ltp (draw 200 400) 400 f.1,
    )

-- A fill against a positive quote has a positive price.
pub calculate_slippage-pos :
    (draw : Draw) (ltp strike atm_strike : ℕ) (action : OrderAction) (instrument : Instrument)
    → 0 < ltp
    → 0 < (calculate_slippage draw ltp strike atm_strike action instrument).0
unfolding calculate_slippage
calculate_slippage-pos draw ltp strike atm_strike action instrument h = ground arith

-- The distance of two strikes.
abbrev pub apart : ℕ → ℕ → ℕ
apart a b = (a - b) + (b - a)

is_liquid-apart :
    (strike atm_strike : ℕ) (instrument : Instrument)
    → let step = spec_strike_interval instrument in
      (apart strike atm_strike < 6 * step → is_liquid strike atm_strike instrument ≡ true)
      × (6 * step ≤ apart strike atm_strike → is_liquid strike atm_strike instrument ≡ false)
unfolding is_liquid spec_strike_interval
is_liquid-apart strike atm_strike Instrument.nifty = ground arith
is_liquid-apart strike atm_strike Instrument.banknifty = ground arith
is_liquid-apart strike atm_strike Instrument.sensex = ground arith

near_bounds :
    (ltp points : ℕ)
    → ltp * 50 ≤ points * 10_000 + 5000
    → points * 10_000 ≤ ltp * 150 + 5000
    → let sold = larger 5 (ltp - points) in
      (ltp * 10_050 ≤ (ltp + points) * 10_000 + 5000)
      × ((ltp + points) * 10_000 ≤ ltp * 10_150 + 5000)
      × (ltp * 9850 ≤ sold * 10_000 + 5000)
      × ((sold ≡ 5) ⊎ (sold * 10_000 ≤ ltp * 9950 + 5000))
near_bounds ltp points lo hi = elim (Bool-cases (ltb 5 (ltp - points))) [
  | inl over ↦ rw over (omega arith, omega arith, ground arith, inr (ground arith))
  | inr floor ↦ rw floor (omega arith, omega arith, ground arith, inl refl)
]

far_bounds :
    (ltp points : ℕ)
    → ltp * 200 ≤ points * 10_000 + 5000
    → points * 10_000 ≤ ltp * 400 + 5000
    → let sold = larger 5 (ltp - points) in
      (ltp * 10_200 ≤ (ltp + points) * 10_000 + 5000)
      × ((ltp + points) * 10_000 ≤ ltp * 10_400 + 5000)
      × (ltp * 9600 ≤ sold * 10_000 + 5000)
      × ((sold ≡ 5) ⊎ (sold * 10_000 ≤ ltp * 9800 + 5000))
far_bounds ltp points lo hi = elim (Bool-cases (ltb 5 (ltp - points))) [
  | inl over ↦ rw over (omega arith, omega arith, ground arith, inr (ground arith))
  | inr floor ↦ rw floor (omega arith, omega arith, ground arith, inl refl)
]

-- With draws within their bounds: within five strikes of the money, an interval of less than six
-- steps, a purchase is filled from 0.5% to 1.5% above the quote and beyond that from 2% to 4%
-- above; a sale is filled at most as far below, and at least as far unless it is filled at the
-- floor of five paise, which it never goes below. Each bound holds to half a paisa.
pub calculate_slippage_bands :
    (draw : Draw) (ltp strike atm_strike : ℕ) (instrument : Instrument)
    → IsUniform draw
    → let bought = (calculate_slippage draw ltp strike atm_strike OrderAction.buy instrument).0 in
      let sold = (calculate_slippage draw ltp strike atm_strike OrderAction.sell instrument).0 in
      let step = spec_strike_interval instrument in
      (apart strike atm_strike < 6 * step
        → (ltp * 10_050 ≤ bought * 10_000 + 5000)
          × (bought * 10_000 ≤ ltp * 10_150 + 5000)
          × (ltp * 9850 ≤ sold * 10_000 + 5000)
          × ((sold ≡ 5) ⊎ (sold * 10_000 ≤ ltp * 9950 + 5000)))
      × (6 * step ≤ apart strike atm_strike
          → (ltp * 10_200 ≤ bought * 10_000 + 5000)
            × (bought * 10_000 ≤ ltp * 10_400 + 5000)
            × (ltp * 9600 ≤ sold * 10_000 + 5000)
            × ((sold ≡ 5) ⊎ (sold * 10_000 ≤ ltp * 9800 + 5000)))
      × (5 ≤ sold)
unfolding calculate_slippage
calculate_slippage_bands draw ltp strike atm_strike instrument u =
    let (near, far) = is_liquid-apart strike atm_strike instrument in
    let b = slippage_points_bands draw ltp u in
    (
      λ h. rw (near h) (near_bounds ltp (slippage_points_of draw ltp true) b.0 b.1),
      λ h. rw (far h) (far_bounds ltp (slippage_points_of draw ltp false) b.2 b.3),
      ground arith,
    )
