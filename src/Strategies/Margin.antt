-- ===== src/Strategies/Margin.antt =====
-- backend/app/strategy/margin.py: the margin that a strategy blocks. A sum of money is a number of
-- ten-thousandths of a paisa, in which every percentage of the module is whole, where the source
-- computes with floats; the total is rounded to paise. Labels and notes are left out. The lots of
-- a leg are positive and an option leg has a strike, as `validate_leg` requires.
pub mod Uncharged
use strikefluency.Strategies.Draft.{leg_type_eq, Leg, LegInstrumentType, Strategy}
use strikefluency.Prelude.{
  ◌/◌, smaller, none, zero, ◌&&◌, ◌++◌, ◌+◌, leb, ltb, ltb_ℤ, not, pos, some, suc, Bool, [],
  if◌then◌else◌, larger, pos_part, round_half_even, select, sum_of, ℤ, ◌*◌, ◌-◌, ◌∷◌, List, Option,
  ℕ,
}
use strikefluency.Strategies.Builder.{is_empty, given_or}
use strikefluency.Strategies.Payoff.{sign, leg_quantity, net_premium}

-- 7.5 % and 2 % of the notional of a naked short, 12 % of a future, in ten-thousandths.
abbrev span_pct : ℕ
span_pct = 750

abbrev exposure_pct : ℕ
exposure_pct = 200

abbrev futures_margin_pct : ℕ
futures_margin_pct = 1200

abbrev pub is_short : Leg → Bool
is_short leg = ltb_ℤ (sign leg.action) (pos 0)

abbrev pub is_future : Leg → Bool
is_future leg = leg_type_eq leg.contract.instrument_type (some LegInstrumentType.fut)

abbrev pub has_type : LegInstrumentType → Leg → Bool
has_type t leg = leg_type_eq leg.contract.instrument_type (some t)

-- `notional`, in paise.
abbrev pub notional : Leg → ℕ → ℕ
notional leg spot = spot * pos_part (leg_quantity leg)

unfoldable pub naked_leg_margin : Leg → ℕ → ℕ
naked_leg_margin leg spot =
    if not (is_short leg)
    then 0
    else if is_future leg
    then notional leg spot * futures_margin_pct
    else notional leg spot * (span_pct + exposure_pct)

abbrev pub strike_of : Leg → ℕ
strike_of leg = given_or leg.contract.strike 0

-- `_risk_width`; the subtraction stops at 0.
unfoldable pub risk_width : LegInstrumentType → ℕ → ℕ → ℕ
risk_width LegInstrumentType.ce short_strike long_strike = long_strike - short_strike
risk_width _ short_strike long_strike = short_strike - long_strike

abbrev pub repeat {ℓ} : {A : Type ℓ} → ℕ → A → List A
repeat zero a = []
repeat (suc n) a = a ∷ repeat n a

-- `_expand_to_lots`
abbrev pub expand_to_lots : List Leg → List Leg
expand_to_lots [] = []
expand_to_lots (leg ∷ legs) =
    repeat (pos_part leg.lots) (record leg { lots = pos 1 }) ++ expand_to_lots legs

-- The first leg of least width, and the others.
abbrev pub pick_best : (Leg → ℕ) → Leg → List Leg → Leg × List Leg
pick_best w l [] = (l, [])
pick_best w l (m ∷ ms) =
    let (best, rest) = pick_best w m ms in
    if leb (w l) (w best) then (l, m ∷ ms) else (best, l ∷ rest)

pub record HedgePair : Type 0 where
  pub short : Leg
  pub long : Leg
  pub width : ℕ
  pub quantity : ℕ
  -- In paise.
  pub margin : ℕ

abbrev pub hedge : LegInstrumentType → Leg → Leg → HedgePair
hedge t short long =
    let width = risk_width t (strike_of short) (strike_of long) in
    let quantity = pos_part (leg_quantity short) in
    record {
      short = short;
      long = long;
      width = width;
      quantity = quantity;
      margin = width * quantity;
    }

abbrev pub width_to : LegInstrumentType → Leg → Leg → ℕ
width_to t short long = risk_width t (strike_of short) (strike_of long)

-- The loop over the shorts, on the longs that are still available.
abbrev pub pair_shorts : LegInstrumentType → List Leg → List Leg → List HedgePair × List Leg
pair_shorts t [] longs = ([], [])
pair_shorts t (s ∷ ss) [] = let (pairs, unhedged) = pair_shorts t ss [] in (pairs, s ∷ unhedged)
pair_shorts t (s ∷ ss) (l ∷ ls) =
    let (best, rest) = pick_best (width_to t s) l ls in
    let (pairs, unhedged) = pair_shorts t ss rest in (hedge t s best ∷ pairs, unhedged)

-- `_pair_hedges`
unfoldable pub pair_hedges : List Leg → LegInstrumentType → List HedgePair × List Leg
pair_hedges legs t =
    let of_type = select (has_type t) legs in
    pair_shorts t (expand_to_lots (select is_short of_type))
      (expand_to_lots (select (λ l. not (is_short l)) of_type))

-- One side's spread margin, in paise, and its naked margin.
abbrev pub spread_side : List Leg → LegInstrumentType → ℕ
spread_side legs t = sum_of (λ p. p.margin) (pair_hedges legs t).0

abbrev pub naked_side : List Leg → LegInstrumentType → ℕ → ℕ
naked_side legs t spot = sum_of (λ l. naked_leg_margin l spot) (pair_hedges legs t).1

-- The larger side in full, and three tenths of the smaller.
abbrev pub naked_total : ℕ → ℕ → ℕ
naked_total ce pe = if ltb 0 ce && ltb 0 pe then larger ce pe + 3 * smaller ce pe / 10 else ce + pe

abbrev pub futures_total : List Leg → ℕ → ℕ
futures_total legs spot = sum_of (λ l. naked_leg_margin l spot) (select is_future legs)

-- In paise.
abbrev pub premium_credit : Option ℤ → ℕ → ℕ
premium_credit none spread = 0
premium_credit (some net) spread =
    if ltb_ℤ (pos 0) net && ltb 0 spread then smaller (pos_part net) spread else 0

pub record MarginEstimate : Type 0 where
  -- In paise.
  pub total : ℕ
  pub naked_margin : ℕ
  pub spread_margin : ℕ
  pub futures_margin : ℕ
  pub premium_credit_used : ℕ
  pub hedged_pairs : List HedgePair
  pub naked_legs : List Leg

-- A buffer of a tenth, and the rounding of ten-thousandths of a paisa.
unfoldable pub buffered : ℕ → ℕ
buffered subtotal = round_half_even (subtotal * 11) 100000

abbrev pub estimate_of : List Leg → ℕ → MarginEstimate
estimate_of legs spot =
    let calls = pair_hedges legs LegInstrumentType.ce in
    let puts = pair_hedges legs LegInstrumentType.pe in
    let spread =
      larger (spread_side legs LegInstrumentType.ce) (spread_side legs LegInstrumentType.pe) in
    let naked =
      naked_total (naked_side legs LegInstrumentType.ce spot)
        (naked_side legs LegInstrumentType.pe spot) in
    let futures = futures_total legs spot in
    let credit = premium_credit (net_premium legs) spread in
    record {
      total = buffered ((spread - credit) * 10000 + naked + futures);
      naked_margin = round_half_even naked 10000;
      spread_margin = spread;
      futures_margin = round_half_even futures 10000;
      premium_credit_used = credit;
      hedged_pairs = calls.0 ++ puts.0;
      naked_legs = calls.1 ++ puts.1;
    }

unfoldable pub estimate_margin : Strategy → ℕ → Option MarginEstimate
estimate_margin s spot = if is_empty s.legs then none else some (estimate_of s.legs spot)
