-- ===== src/Strategies/Payoff/Curve.antt =====
-- What `payoff_curve` returns as the maximum and the minimum.
use mathlib.Core.Path.{subst}
use strikefluency.Prelude.{
  neg, false, int_laws, true, ◌-ℤ◌, ◌+◌, ◌<ℤ◌, ap, ◌∙◌, ◌⊎◌, larger_ℤ, smaller_ℤ, sym, inr, none,
  inl, pos, refl, Bool-cases, ltb_ℤ, Option-cases, [], if◌then◌else◌, arith, map, some, ◌∷◌, ◌≡◌,
  All, Option, ◌≤ℤ◌, ℤ, List, ℕ,
}
use strikefluency.Strategies.Draft.{Strategy, Leg}
use strikefluency.Strategies.Payoff.{
  measured, FloatSlope, tolerance, last_or, analysis_prices, payoff_curve, right_tail_slope,
  legs_pnl_at, curve_of, PayoffResult, max_of, min_of, pnls_at,
}
use strikefluency.Strategies.Payoff.Extremes.{
  tail_moves, bounded_above, bounded_below, unbounded_above, unbounded_below, IsWorst, IsBest,
  prices, some_inj, far, climb-Pays, climb, Pays,
}
use strikefluency.Strategies.Payoff.Climb.{≤ℤ_refl}
use strikefluency.Strategies.Payoff.Slope.{slope}
use strikefluency.Strategies.Builder.{is_empty}
use strikefluency.Strategies.Payoff.Prices.{analysis_prices-all}

All-weaken :
    (g : ℕ → ℤ) (a b : ℤ) (xs : List ℕ) → a ≤ℤ b → All (λ z. g z ≤ℤ a) xs → All (λ z. g z ≤ℤ b) xs
All-weaken g a b [] l h = tt
All-weaken g a b (x ∷ xs) l (h, hs) = (omega arith, All-weaken g a b xs l hs)

All-weaken_below :
    (g : ℕ → ℤ) (a b : ℤ) (xs : List ℕ) → b ≤ℤ a → All (λ z. a ≤ℤ g z) xs → All (λ z. b ≤ℤ g z) xs
All-weaken_below g a b [] l h = tt
All-weaken_below g a b (x ∷ xs) l (h, hs) = (omega arith, All-weaken_below g a b xs l hs)

larger_facts :
    (a b : ℤ)
    → (a ≤ℤ larger_ℤ a b) × (b ≤ℤ larger_ℤ a b) × ((larger_ℤ a b ≡ a) ⊎ (larger_ℤ a b ≡ b))
larger_facts a b = elim (Bool-cases (ltb_ℤ a b)) [
  | inl l ↦ rw l (ground arith, omega arith, inr refl)
  | inr l ↦ rw l (omega arith, ground arith, inl refl)
]

smaller_facts :
    (a b : ℤ)
    → (smaller_ℤ a b ≤ℤ a) × (smaller_ℤ a b ≤ℤ b) × ((smaller_ℤ a b ≡ a) ⊎ (smaller_ℤ a b ≡ b))
smaller_facts a b = elim (Bool-cases (ltb_ℤ b a)) [
  | inl l ↦ rw l (ground arith, omega arith, inr refl)
  | inr l ↦ rw l (omega arith, ground arith, inl refl)
]

module _ (g : ℕ → ℤ) where
  max_of-map :
      (x : ℕ) (xs : List ℕ)
      → All (λ z. g z ≤ℤ max_of (g x) (map g xs)) (x ∷ xs)
        × ((z : ℕ) × (g z ≡ max_of (g x) (map g xs)))
  max_of-map x [] = ((≤ℤ_refl (g x), tt), (x, refl))
  max_of-map x (y ∷ ys) =
      let top = max_of (g y) (map g ys) in
      let (below, (z, reached)) = max_of-map y ys in
      let (left, right, either) = larger_facts (g x) top in
      (
        (left, All-weaken g top (larger_ℤ (g x) top) (y ∷ ys) right below),
        elim either [ inl e ↦ (x, sym e) | inr e ↦ (z, reached ∙ sym e) ],
      )

  min_of-map :
      (x : ℕ) (xs : List ℕ)
      → All (λ z. min_of (g x) (map g xs) ≤ℤ g z) (x ∷ xs)
        × ((z : ℕ) × (g z ≡ min_of (g x) (map g xs)))
  min_of-map x [] = ((≤ℤ_refl (g x), tt), (x, refl))
  min_of-map x (y ∷ ys) =
      let low = min_of (g y) (map g ys) in
      let (above, (z, reached)) = min_of-map y ys in
      let (left, right, either) = smaller_facts (g x) low in
      (
        (left, All-weaken_below g low (smaller_ℤ (g x) low) (y ∷ ys) right above),
        elim either [ inl e ↦ (x, sym e) | inr e ↦ (z, reached ∙ sym e) ],
      )

pnls_at-climb :
    (legs : List Leg) (p : ℤ)
    → Pays legs 0 p
    → (xs : List ℕ) → pnls_at legs xs ≡ some (map (climb legs p) xs)
pnls_at-climb legs p h [] = refl
pnls_at-climb legs p h (x ∷ xs) = rw (climb-Pays legs p h x) (rw (pnls_at-climb legs p h xs) refl)

-- The prices at which a list of points was computed are priced.
pnls_at-priced :
    (legs : List Leg) (xs : List ℕ) (ys : List ℤ)
    → pnls_at legs xs ≡ some ys
    → All (λ x. (p : ℤ) × Pays legs x p) xs
pnls_at-priced legs [] ys h = tt
pnls_at-priced legs (x ∷ xs) ys h = elim (Option-cases (legs_pnl_at legs x)) [
  | inl missing ↦ absurd (ground arith)
  | inr (p, hit) ↦ elim (Option-cases (pnls_at legs xs)) [
    | inl missing ↦ absurd (ground arith)
    | inr (zs, rest) ↦ ((p, hit), pnls_at-priced legs xs zs rest)
  ]
]

curve_of-inv :
    (legs : List Leg) (prices : List ℕ) (o : Option (List ℤ)) (t : Option ℤ) (r : PayoffResult)
    → curve_of legs prices o t ≡ some r
    → (y : ℤ) × (ys : List ℤ) × (sl : ℤ) × (o ≡ some (y ∷ ys))
      × (t ≡ some sl)
      × (r.max_profit ≡ (if ltb_ℤ (pos tolerance) sl then none else some (max_of y ys)))
      × (r.max_loss ≡ (if ltb_ℤ sl (neg tolerance) then none else some (min_of y ys)))
curve_of-inv legs prices none t r h = absurd (ground arith)
curve_of-inv legs prices (some []) t r h = absurd (ground arith)
curve_of-inv legs prices (some (y ∷ ys)) none r h = absurd (ground arith)
curve_of-inv legs prices (some (y ∷ ys)) (some sl) r h =
    (y, ys, sl, refl, refl, ground arith, ground arith)

-- The points of a curve: none is above the greatest or below the least, and both are reached.
points_within :
    (legs : List Leg) (p y : ℤ) (xs : List ℕ) (ys : List ℤ)
    → Pays legs 0 p
    → pnls_at legs xs ≡ some (y ∷ ys)
    → All (λ z. climb legs p z ≤ℤ max_of y ys) xs
      × All (λ z. min_of y ys ≤ℤ climb legs p z) xs
      × ((z : ℕ) × Pays legs z (max_of y ys))
      × ((z : ℕ) × Pays legs z (min_of y ys))
points_within legs p y [] ys h k = absurd (ground arith)
points_within legs p y (x ∷ xs) ys h k =
    let g = climb legs p in
    let all : some (map g (x ∷ xs)) ≡ some (y ∷ ys) = sym (pnls_at-climb legs p h (x ∷ xs)) ∙ k in
    let head : g x ≡ y = ground arith in
    let tail : map g xs ≡ ys = ground arith in
    let (below, (t, top)) = max_of-map g x xs in
    let (above, (b, low)) = min_of-map g x xs in
    let max_eq : max_of (g x) (map g xs) ≡ max_of y ys = rw head (rw tail refl) in
    let min_eq : min_of (g x) (map g xs) ≡ min_of y ys = rw head (rw tail refl) in
    (
      All-weaken g _ (max_of y ys) (x ∷ xs) (rw max_eq (≤ℤ_refl (max_of y ys))) below,
      All-weaken_below g _ (min_of y ys) (x ∷ xs) (rw min_eq (≤ℤ_refl (min_of y ys))) above,
      (t, climb-Pays legs p h t ∙ ap some (top ∙ max_eq)),
      (b, climb-Pays legs p h b ∙ ap some (low ∙ min_eq)),
    )

difference_signs :
    (a b d : ℤ)
    → d ≡ b -ℤ a
    → (pos 0 <ℤ d → a <ℤ b) × (d ≤ℤ pos 0 → b ≤ℤ a) × (d <ℤ pos 0 → b <ℤ a) × (pos 0 ≤ℤ d → a ≤ℤ b)
difference_signs a b d e =
    rw e (λ h. omega int_laws, λ h. omega int_laws, λ h. omega int_laws, λ h. omega int_laws)

module _ (legs : List Leg) (p : ℤ) (spot : ℕ) (h : Pays legs 0 p) where
  abbrev end : ℕ
  end = far legs p spot

  tail_slope :
      (sl : ℤ)
      → right_tail_slope legs end ≡ some sl
      → sl ≡ climb legs p (end + 100) -ℤ climb legs p end
  tail_slope sl k =
      let next = climb-Pays legs p h (end + 100) in
      let here = climb-Pays legs p h end in some_inj _ _ (sym (rw next at (rw here at k)))

  climb-eq : (s : ℕ) (v : ℤ) → Pays legs s v → v ≡ climb legs p s
  climb-eq s v k = some_inj v (climb legs p s) (sym k ∙ climb-Pays legs p h s)

  -- The slope that is read past the last price has the sign of the slope there.
  tail_signs :
      (sl : ℤ)
      → right_tail_slope legs end ≡ some sl
      → (ltb_ℤ (pos 0) sl ≡ true → pos 0 <ℤ slope legs end)
        × (ltb_ℤ (pos 0) sl ≡ false → slope legs end ≤ℤ pos 0)
        × (ltb_ℤ sl (pos 0) ≡ true → slope legs end <ℤ pos 0)
        × (ltb_ℤ sl (pos 0) ≡ false → pos 0 ≤ℤ slope legs end)
  tail_signs sl tail =
      let t = tail_slope sl tail in
      let (up, flat, down, level) = tail_moves legs p spot in
      let signs = difference_signs (climb legs p end) (climb legs p (end + 100)) sl t in
      (
        λ e. ground (arith, signs, up, flat),
        λ e. ground (arith, signs, up, flat),
        λ e. ground (arith, signs, down, level),
        λ e. ground (arith, signs, down, level),
      )

  end-IsBest :
      (sl y : ℤ) (ys : List ℤ)
      → right_tail_slope legs end ≡ some sl
      → pnls_at legs (prices legs p spot) ≡ some (y ∷ ys)
      → IsBest legs (if ltb_ℤ (pos 0) sl then none else some (max_of y ys))
  end-IsBest sl y ys tail points = elim (Bool-cases (ltb_ℤ (pos 0) sl)) [
    | inl up ↦ rw up λ bound.
        let (n, above) = unbounded_above legs p spot bound ((tail_signs sl tail).0 up) in
        (n, climb legs p n, climb-Pays legs p h n, above)
    | inr flat ↦
        let (below, above, top, low) = points_within legs p y (prices legs p spot) ys h points in
        rw flat (
          λ s v k.
              rw (climb-eq s v k)
                (bounded_above legs p spot (max_of y ys) s ((tail_signs sl tail).1 flat) below),
          top,
        )
  ]

  end-IsWorst :
      (sl y : ℤ) (ys : List ℤ)
      → right_tail_slope legs end ≡ some sl
      → pnls_at legs (prices legs p spot) ≡ some (y ∷ ys)
      → IsWorst legs (if ltb_ℤ sl (pos 0) then none else some (min_of y ys))
  end-IsWorst sl y ys tail points = elim (Bool-cases (ltb_ℤ sl (pos 0))) [
    | inl down ↦ rw down λ bound.
        let (n, below) = unbounded_below legs p spot bound ((tail_signs sl tail).2 down) in
        (n, climb legs p n, climb-Pays legs p h n, below)
    | inr level ↦
        let (below, above, top, low) = points_within legs p y (prices legs p spot) ys h points in
        rw level (
          λ s v k.
              rw (climb-eq s v k)
                (bounded_below legs p spot (min_of y ys) s ((tail_signs sl tail).3 level) above),
          low,
        )
  ]

-- The float slope tells the sign of the exact one: it is beyond the tolerance on the side of a slope
-- that is not zero, and within it where the slope is zero.
pub record TellsSign (float exact : ℤ) : Type 0 where
  pub up : pos 0 <ℤ exact → pos tolerance <ℤ float
  pub not_up : exact ≤ℤ pos 0 → float ≤ℤ pos tolerance
  pub down : exact <ℤ pos 0 → float <ℤ neg tolerance
  pub not_down : pos 0 ≤ℤ exact → neg tolerance ≤ℤ float

TellsSign-tests :
    (float exact : ℤ)
    → TellsSign float exact
    → (ltb_ℤ (pos tolerance) float ≡ ltb_ℤ (pos 0) exact)
      × (ltb_ℤ float (neg tolerance) ≡ ltb_ℤ exact (pos 0))
TellsSign-tests float exact h = (
  elim (Bool-cases (ltb_ℤ (pos 0) exact)) [
    | inl up ↦ let k = h.up (ground arith) in rw up (ground arith)
    | inr flat ↦ let k = h.not_up (ground arith) in rw flat (ground arith)
  ],
  elim (Bool-cases (ltb_ℤ exact (pos 0))) [
    | inl down ↦ let k = h.down (ground arith) in rw down (ground arith)
    | inr flat ↦ let k = h.not_down (ground arith) in rw flat (ground arith)
  ],
)

measured-inv :
    (float : FloatSlope) (legs : List Leg) (far : ℕ) (exact : Option ℤ) (m : ℤ)
    → measured float legs far exact ≡ some m
    → (sl : ℤ) × (exact ≡ some sl) × (m ≡ float legs far)
measured-inv float legs far none m h = absurd (ground arith)
measured-inv float legs far (some sl) m h = (sl, refl, ground arith)

-- Where the payoff curve of a strategy is computed, and the float slope past the last price tells
-- the sign of the exact one, the maximum is the greatest profit or loss over all prices at expiry,
-- and is reached at one of them; it is none exactly where the P&L outgrows every bound. The minimum
-- is the least in the same sense.
pub payoff_curve-extremes :
    (float : FloatSlope) (s : Strategy) (spot : ℕ) (r : PayoffResult)
    → (let far = last_or 0 (analysis_prices s.legs spot) in
        (exact : ℤ) → right_tail_slope s.legs far ≡ some exact → TellsSign (float s.legs far) exact)
    → payoff_curve float s spot ≡ some r
    → IsBest s.legs r.max_profit × IsWorst s.legs r.max_loss
unfolding payoff_curve
payoff_curve-extremes float s spot r sound e = elim (Bool-cases (is_empty s.legs)) [
  | inl empty ↦ absurd (ground arith)
  | inr filled ↦
      let xs = analysis_prices s.legs spot in
      let end = last_or 0 xs in
      let (y, ys, m, points, tail, best, worst) =
        curve_of-inv s.legs xs (pnls_at s.legs xs)
          (measured float s.legs end (right_tail_slope s.legs end)) r (rw filled at e) in
      let (sl, exact, same) = measured-inv float s.legs end (right_tail_slope s.legs end) m tail in
      let tests = TellsSign-tests (float s.legs end) sl (sound sl exact) in
      let (p, h) =
        (analysis_prices-all (λ x. (p : ℤ) × Pays s.legs x p) s.legs spot
          (pnls_at-priced s.legs xs (y ∷ ys) points)).0 in
      (
        subst (IsBest s.legs)
            (sym (
              best
              ∙ ap (λ c. if ltb_ℤ (pos tolerance) c then none else some (max_of y ys)) same
              ∙ ap (λ b. if b then none else some (max_of y ys)) tests.0))
            (end-IsBest s.legs p spot h sl y ys exact points),
        subst (IsWorst s.legs)
            (sym (
              worst
              ∙ ap (λ c. if ltb_ℤ c (neg tolerance) then none else some (min_of y ys)) same
              ∙ ap (λ b. if b then none else some (min_of y ys)) tests.1))
            (end-IsWorst s.legs p spot h sl y ys exact points),
      )
]
