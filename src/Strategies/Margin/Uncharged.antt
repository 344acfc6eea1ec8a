-- ===== src/Strategies/Margin/Uncharged.antt =====
-- A strategy that only buys.
use strikefluency.Strategies.Draft.{LegInstrumentType, Strategy, Leg}
use strikefluency.Strategies.Margin.{
  premium_credit, buffered, estimate_of, has_type, futures_total, MarginEstimate, is_short,
  estimate_margin, naked_leg_margin, pair_hedges,
}
use strikefluency.Prelude.{
  ◌∙◌, ap, sym, ◌+◌, inr, ◌*◌, inl, ◌-◌, round_half_even, Bool-cases, arith, refl, ◌∷◌, [], false,
  select, some, All, ◌≡◌, Bool, ℕ, List,
}
use strikefluency.Strategies.Builder.{is_empty}
use strikefluency.Strategies.Payoff.{net_premium}

abbrev pub IsLong : Leg → Type 0
IsLong leg = is_short leg ≡ false

select-long :
    (p : Leg → Bool) (legs : List Leg) → All IsLong legs → select is_short (select p legs) ≡ []
select-long p [] h = refl
select-long p (l ∷ ls) (h, hs) = ground (arith, select-long p ls hs)

pair_hedges-long :
    (legs : List Leg) (t : LegInstrumentType) → All IsLong legs → pair_hedges legs t ≡ ([], [])
unfolding pair_hedges
pair_hedges-long legs t h = rw (select-long (has_type t) legs h) refl

naked_leg_margin-long : (leg : Leg) (spot : ℕ) → IsLong leg → naked_leg_margin leg spot ≡ 0
unfolding naked_leg_margin
naked_leg_margin-long leg spot h = rw h refl

futures_total-long : (legs : List Leg) (spot : ℕ) → All IsLong legs → futures_total legs spot ≡ 0
futures_total-long [] spot h = refl
futures_total-long (l ∷ ls) spot (h, hs) =
    ground (arith, futures_total-long ls spot hs, naked_leg_margin-long l spot h)

nothing_buffered :
    (spread credit : ℕ) → spread ≡ 0 → buffered ((spread - credit) * 10000 + 0 + 0) ≡ 0
unfolding buffered round_half_even
nothing_buffered spread credit e =
    let z : (spread - credit) * 10000 + 0 + 0 ≡ 0 = omega arith in rw z refl

total-long : (legs : List Leg) (spot : ℕ) → All IsLong legs → (estimate_of legs spot).total ≡ 0
total-long legs spot h = rw (pair_hedges-long legs LegInstrumentType.ce h) (
    rw (pair_hedges-long legs LegInstrumentType.pe h) (
      rw (futures_total-long legs spot h)
        (nothing_buffered 0 (premium_credit (net_premium legs) 0) refl)))

-- A strategy whose legs are all bought, options and futures alike, is charged nothing.
pub estimate_margin-long :
    (s : Strategy) (spot : ℕ) (e : MarginEstimate)
    → All IsLong s.legs
    → estimate_margin s spot ≡ some e
    → e.total ≡ 0
unfolding estimate_margin
estimate_margin-long s spot e h k = elim (Bool-cases (is_empty s.legs)) [
  | inl empty ↦ absurd (ground arith)
  | inr filled ↦
      let same : estimate_of s.legs spot ≡ e = ground arith in
      sym (ap (λ m. m.total) same) ∙ total-long s.legs spot h
]
