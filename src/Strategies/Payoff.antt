-- ===== src/Strategies/Payoff.antt =====
-- backend/app/strategy/payoff.py: profit and loss at expiry. A price is a number of hundredths of a
-- point and an amount a number of paise, so the sums are exact where the source computes with
-- floats; the slope past the last price, whose sign the source tests on the float, is a parameter. A
-- call that raises is none. The grid that a chart draws (`_display_prices`) is left out.
pub mod Climb
pub mod Slope
pub mod Prices
pub mod Extremes
pub mod Curve
use strikefluency.Models.Terms.{OrderAction}
use strikefluency.Strategies.Draft.{OptionContract, Leg, Strategy, LegInstrumentType}
use strikefluency.Prelude.{
  neg, round_half_even, ◌||◌, negsuc, ◌&&◌, ◌++◌, ◌-ℤ◌, ◌/◌, [], eqb_ℤ, exists, larger, larger_ℤ,
  ltb, ltb_ℤ, neg_part, pos, smaller_ℤ, ◌+ℤ◌, ◌-◌, ◌==◌, Bool, if◌then◌else◌, none, pos_part, scale,
  some, ◌*ℤ◌, ◌*◌, ◌+◌, ◌∷◌, List, Option, ℕ, ℤ,
}
use strikefluency.Strategies.Builder.{is_empty}

-- `Leg.sign`
abbrev pub sign : Option OrderAction → ℤ
sign (some OrderAction.buy) = pos 1
sign _ = negsuc 0

-- `Leg.quantity` and `Leg.signed_quantity`
abbrev pub leg_quantity : Leg → ℤ
leg_quantity leg = scale leg.lots leg.lot_size

abbrev pub signed_quantity : Leg → ℤ
signed_quantity leg = sign leg.action *ℤ leg_quantity leg

-- The value of a type that has a strike; the subtraction stops at 0, as the `max` does.
abbrev pub intrinsic : Option LegInstrumentType → Option ℕ → ℕ → Option ℕ
intrinsic (some LegInstrumentType.ce) (some strike) spot = some (spot - strike)
intrinsic (some LegInstrumentType.pe) (some strike) spot = some (strike - spot)
intrinsic (some LegInstrumentType.fut) strike spot = some spot
intrinsic _ _ spot = none

unfoldable pub value_at_expiry : OptionContract → ℕ → Option ℕ
value_at_expiry c spot = intrinsic c.instrument_type c.strike spot

abbrev pub gain : ℤ → Option ℕ → Option ℕ → Option ℤ
gain quantity (some entry) (some value) = some (quantity *ℤ (pos value -ℤ pos entry))
gain quantity _ _ = none

unfoldable pub leg_pnl_at : Leg → ℕ → Option ℤ
leg_pnl_at leg spot = gain (signed_quantity leg) leg.entry_price (value_at_expiry leg.contract spot)

abbrev pub add_opt : Option ℤ → Option ℤ → Option ℤ
add_opt (some a) (some b) = some (a +ℤ b)
add_opt _ _ = none

abbrev pub legs_pnl_at : List Leg → ℕ → Option ℤ
legs_pnl_at [] spot = some (pos 0)
legs_pnl_at (leg ∷ legs) spot = add_opt (leg_pnl_at leg spot) (legs_pnl_at legs spot)

abbrev pub strategy_pnl_at : Strategy → ℕ → Option ℤ
strategy_pnl_at s spot = legs_pnl_at s.legs spot

-- `sorted` of a set.
abbrev pub insert_sorted : ℕ → List ℕ → List ℕ
insert_sorted x [] = x ∷ []
insert_sorted x (y ∷ ys) =
    let rest = insert_sorted x ys in
    if x == y then y ∷ ys else if ltb x y then x ∷ y ∷ ys else y ∷ rest

abbrev pub insert_opt : Option ℕ → List ℕ → List ℕ
insert_opt none xs = xs
insert_opt (some x) xs = insert_sorted x xs

-- `_strikes`
abbrev pub strikes_of : List Leg → List ℕ
strikes_of [] = []
strikes_of (leg ∷ legs) = insert_opt leg.contract.strike (strikes_of legs)

abbrev pub last_or : ℕ → List ℕ → ℕ
last_or d [] = d
last_or d (x ∷ xs) = last_or x xs

-- 2000 points, or a tenth of the strike, past the last strike.
abbrev pub far_price : List ℕ → ℕ → ℕ
far_price [] spot = spot * 2
far_price (k ∷ ks) spot = let last = last_or k ks in last + larger 200000 (last / 10)

-- `_analysis_prices`
abbrev pub analysis_prices : List Leg → ℕ → List ℕ
analysis_prices legs spot =
    let ks = strikes_of legs in insert_sorted 0 (insert_sorted (far_price ks spot) ks)

abbrev pub cons_opt : Option ℤ → Option (List ℤ) → Option (List ℤ)
cons_opt (some y) (some ys) = some (y ∷ ys)
cons_opt _ _ = none

abbrev pub pnls_at : List Leg → List ℕ → Option (List ℤ)
pnls_at legs [] = some []
pnls_at legs (p ∷ ps) = cons_opt (legs_pnl_at legs p) (pnls_at legs ps)

abbrev pub subtract_opt : Option ℤ → Option ℤ → Option ℤ
subtract_opt (some a) (some b) = some (a -ℤ b)
subtract_opt _ _ = none

-- `_right_tail_slope`, in paise for a point.
abbrev pub right_tail_slope : List Leg → ℕ → Option ℤ
right_tail_slope legs far = subtract_opt (legs_pnl_at legs (far + 100)) (legs_pnl_at legs far)

abbrev pub max_of : ℤ → List ℤ → ℤ
max_of y [] = y
max_of y (z ∷ zs) = larger_ℤ y (max_of z zs)

abbrev pub min_of : ℤ → List ℤ → ℤ
min_of y [] = y
min_of y (z ∷ zs) = smaller_ℤ y (min_of z zs)

pub record PayoffResult : Type 0 where
  pub max_profit : Option ℤ
  pub max_loss : Option ℤ
  pub breakevens : List ℕ
  pub net_premium : Option ℤ

abbrev pub magnitude : ℤ → ℕ
magnitude y = pos_part y + neg_part y

abbrev pub opposite_signs : ℤ → ℤ → Bool
opposite_signs a b = ltb_ℤ a (pos 0) && ltb_ℤ (pos 0) b || (ltb_ℤ (pos 0) a && ltb_ℤ b (pos 0))

-- A price as a fraction: the numerator and the denominator.
abbrev pub Crossing : Type 0
Crossing = ℕ × ℕ

-- Where the line from (x0, y0) to (x1, y1) meets zero.
abbrev pub crossing : ℕ → ℕ → ℤ → ℤ → Crossing
crossing x0 x1 y0 y1 =
    let steps = magnitude y0 + magnitude y1 in (x0 * steps + (x1 - x0) * magnitude y0, steps)

abbrev pub crossings : ℕ → ℤ → List ℕ → List ℤ → List Crossing
crossings x0 y0 (x1 ∷ xs) (y1 ∷ ys) =
    let rest = crossings x1 y1 xs ys in
    if eqb_ℤ y0 (pos 0)
    then (x0, 1) ∷ rest
    else if opposite_signs y0 y1
    then crossing x0 x1 y0 y1 ∷ rest
    else rest
crossings x0 y0 _ _ = if eqb_ℤ y0 (pos 0) then (x0, 1) ∷ [] else []

-- Less than a hundredth of a point apart.
abbrev is_near : Crossing → ℕ → Bool
is_near (n, d) seen = ltb n (seen * d + d) && ltb (seen * d) (n + d)

abbrev unique_prices : List ℕ → List Crossing → List ℕ
unique_prices seen [] = seen
unique_prices seen ((n, d) ∷ cs) =
    unique_prices
      (if exists (is_near (n, d)) seen then seen else seen ++ (round_half_even n d ∷ [])) cs

unfoldable pub find_breakevens : List ℕ → List ℤ → List ℕ
find_breakevens (x ∷ xs) (y ∷ ys) = unique_prices [] (crossings x y xs ys)
find_breakevens _ _ = []

abbrev premium_paid : ℤ → Option ℕ → Option ℤ
premium_paid quantity none = none
premium_paid quantity (some entry) = some (pos 0 -ℤ quantity *ℤ pos entry)

-- `Leg.premium`
abbrev pub premium : Leg → Option ℤ
premium leg = premium_paid (signed_quantity leg) leg.entry_price

abbrev pub premiums : List Leg → Option ℤ
premiums [] = some (pos 0)
premiums (leg ∷ legs) = add_opt (premium leg) (premiums legs)

-- `Strategy.net_premium`
unfoldable pub net_premium : List Leg → Option ℤ
net_premium [] = none
net_premium legs = premiums legs

-- `1e-9` in units of 2^-82 rupee, of which a float of that size or more is a whole number.
abbrev pub tolerance : ℕ
tolerance = 4_835_703_278_458_517

-- The slope of the legs past a price as the float arithmetic has it, in those units, rounded away
-- from zero where it is smaller than the tolerance.
abbrev pub FloatSlope : Type 0
FloatSlope = List Leg → ℕ → ℤ

-- The slope as the source has it, none where a leg cannot be priced.
abbrev pub measured : FloatSlope → List Leg → ℕ → Option ℤ → Option ℤ
measured float legs far none = none
measured float legs far (some _) = some (float legs far)

-- The curve from its points: the P&L at the analysis prices, and the slope past the last of them as
-- measured.
abbrev pub curve_of : List Leg → List ℕ → Option (List ℤ) → Option ℤ → Option PayoffResult
curve_of legs prices (some (y ∷ ys)) (some slope) = some record {
  max_profit = if ltb_ℤ (pos tolerance) slope then none else some (max_of y ys);
  max_loss = if ltb_ℤ slope (neg tolerance) then none else some (min_of y ys);
  breakevens = find_breakevens prices (y ∷ ys);
  net_premium = net_premium legs;
}
curve_of legs prices _ _ = none

unfoldable pub payoff_curve : FloatSlope → Strategy → ℕ → Option PayoffResult
payoff_curve float s spot =
    let prices = analysis_prices s.legs spot in
    if is_empty s.legs
    then none
    else curve_of s.legs prices (pnls_at s.legs prices)
        (measured float s.legs (last_or 0 prices) (right_tail_slope s.legs (last_or 0 prices)))
