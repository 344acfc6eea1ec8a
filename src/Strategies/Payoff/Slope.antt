-- ===== src/Strategies/Payoff/Slope.antt =====
-- How the P&L moves from one price to the next: by a slope that changes at strikes alone.
use strikefluency.Strategies.Payoff.{
  gain, value_at_expiry, leg_pnl_at, legs_pnl_at, signed_quantity, add_opt, intrinsic,
}
use strikefluency.Strategies.Draft.{Leg, LegInstrumentType}
use strikefluency.Prelude.{
  neg_part, pos_part, ap, ◌∙◌, *ℤ_step, ◌<◌, ◌⊎◌, All, int_laws, refl, ◌*ℤ◌, ◌-◌, ◌≤◌, none, arith,
  ◌-ℤ◌, [], leb, suc, if◌then◌else◌, ◌+ℤ◌, ◌≡◌, some, ◌∷◌, Option, pos, List, ℕ, ℤ,
}

-- The P&L that one more hundredth of a point brings, above `spot`.
abbrev slope_of : ℤ → Option LegInstrumentType → Option ℕ → ℕ → ℤ
slope_of q (some LegInstrumentType.ce) (some strike) spot = if leb strike spot then q else pos 0
slope_of q (some LegInstrumentType.pe) (some strike) spot =
    if leb strike spot then pos 0 else pos 0 -ℤ q
slope_of q _ _ spot = q

abbrev pub leg_slope : Leg → ℕ → ℤ
leg_slope leg spot =
    slope_of (signed_quantity leg) leg.contract.instrument_type leg.contract.strike spot

abbrev pub slope : List Leg → ℕ → ℤ
slope [] spot = pos 0
slope (leg ∷ legs) spot = leg_slope leg spot +ℤ slope legs spot

gap_step : (q : ℤ) (v w e : ℕ) → w ≡ suc v → q *ℤ (pos w -ℤ pos e) ≡ q *ℤ (pos v -ℤ pos e) +ℤ q
gap_step q v w e h = *ℤ_step q (pos v -ℤ pos e) (pos w -ℤ pos e) (omega (int_laws, h))

gap_back :
    (q : ℤ) (v w e : ℕ) → v ≡ suc w → q *ℤ (pos w -ℤ pos e) ≡ q *ℤ (pos v -ℤ pos e) +ℤ (pos 0 -ℤ q)
gap_back q v w e h = let k = gap_step q w v e h in omega (int_laws, ap pos_part k, ap neg_part k)

gap_same : (q : ℤ) (v w e : ℕ) → v ≡ w → q *ℤ (pos w -ℤ pos e) ≡ q *ℤ (pos v -ℤ pos e) +ℤ pos 0
gap_same q v w e h = rw h (omega int_laws)

regroup : (a b d e : ℤ) → a +ℤ d +ℤ (b +ℤ e) ≡ a +ℤ b +ℤ (d +ℤ e)
regroup a b d e = omega int_laws

zero_right : (a : ℤ) → a ≡ a +ℤ pos 0
zero_right a = omega int_laws

some_eq : (a b : ℤ) → a ≡ b → some a ≡ some b
some_eq a b h = cc

gain_step :
    (q : ℤ) (t : Option LegInstrumentType) (strike entry : Option ℕ) (spot : ℕ) (p : ℤ)
    → gain q entry (intrinsic t strike spot) ≡ some p
    → gain q entry (intrinsic t strike (suc spot)) ≡ some (p +ℤ slope_of q t strike spot)
gain_step q t strike none spot p h = ground arith
gain_step q none strike (some e) spot p h = ground arith
gain_step q (some LegInstrumentType.ce) none (some e) spot p h = ground arith
gain_step q (some LegInstrumentType.pe) none (some e) spot p h = ground arith
gain_step q (some LegInstrumentType.ce) (some k) (some e) spot p h =
    ground (arith, gap_step q (spot - k) (suc spot - k) e, gap_same q (spot - k) (suc spot - k) e)
gain_step q (some LegInstrumentType.pe) (some k) (some e) spot p h =
    ground (arith, gap_back q (k - spot) (k - suc spot) e, gap_same q (k - spot) (k - suc spot) e)
gain_step q (some LegInstrumentType.fut) strike (some e) spot p h =
    ground (arith, gap_step q spot (suc spot) e)

leg_step :
    (leg : Leg) (spot : ℕ) (p : ℤ)
    → leg_pnl_at leg spot ≡ some p
    → leg_pnl_at leg (suc spot) ≡ some (p +ℤ leg_slope leg spot)
unfolding leg_pnl_at value_at_expiry
leg_step leg spot p =
    gain_step (signed_quantity leg) leg.contract.instrument_type leg.contract.strike leg.entry_price
      spot p

add_step :
    (x y x' y' : Option ℤ) (d e p : ℤ)
    → ((a : ℤ) → x ≡ some a → x' ≡ some (a +ℤ d))
    → ((b : ℤ) → y ≡ some b → y' ≡ some (b +ℤ e))
    → add_opt x y ≡ some p
    → add_opt x' y' ≡ some (p +ℤ (d +ℤ e))
add_step none y x' y' d e p hx hy h = ground arith
add_step (some a) none x' y' d e p hx hy h = ground arith
add_step (some a) (some b) x' y' d e p hx hy h =
    let e' : a +ℤ b ≡ p = ground arith in
    rw (hx a refl) (rw (hy b refl) (some_eq _ _ (regroup a b d e ∙ ap (λ z. z +ℤ (d +ℤ e)) e')))

pub legs_step :
    (legs : List Leg) (spot : ℕ) (p : ℤ)
    → legs_pnl_at legs spot ≡ some p
    → legs_pnl_at legs (suc spot) ≡ some (p +ℤ slope legs spot)
legs_step [] spot p h = h ∙ some_eq _ _ (zero_right p)
legs_step (leg ∷ legs) spot p h =
    add_step _ _ _ _ (leg_slope leg spot) (slope legs spot) p (leg_step leg spot)
      (legs_step legs spot) h

-- No strike of the leg lies strictly between `a` and `b`.
abbrev pub Clears : ℕ → ℕ → Option ℕ → Type 0
Clears a b none = Unit
Clears a b (some k) = (k ≤ a) ⊎ (b ≤ k)

abbrev pub LegsClear : ℕ → ℕ → List Leg → Type 0
LegsClear a b = All (λ leg. Clears a b leg.contract.strike)

slope_of_between :
    (q : ℤ) (t : Option LegInstrumentType) (strike : Option ℕ) (a b s : ℕ)
    → Clears a b strike
    → a ≤ s
    → s < b
    → slope_of q t strike s ≡ slope_of q t strike a
slope_of_between q none strike a b s h l u = refl
slope_of_between q (some LegInstrumentType.fut) strike a b s h l u = refl
slope_of_between q (some LegInstrumentType.ce) none a b s h l u = refl
slope_of_between q (some LegInstrumentType.pe) none a b s h l u = refl
slope_of_between q (some LegInstrumentType.ce) (some k) a b s h l u = ground arith
slope_of_between q (some LegInstrumentType.pe) (some k) a b s h l u = ground arith

pub slope_between :
    (legs : List Leg) (a b s : ℕ) → LegsClear a b legs → a ≤ s → s < b → slope legs s ≡ slope legs a
slope_between [] a b s h l u = refl
slope_between (leg ∷ legs) a b s (h, hs) l u =
    rw
      (slope_of_between (signed_quantity leg) leg.contract.instrument_type leg.contract.strike a b s
        h l u)
      (rw (slope_between legs a b s hs l u) refl)
