-- ===== src/Strategies/Payoff/Extremes.antt =====
-- The best and the worst outcome that a payoff curve names are those over all prices at expiry.
use strikefluency.Prelude.{
  inr, inl, [], leb, ◌+◌, Bool-cases, int_laws, neg_part, none, pos_part, refl, zero, ◌∷◌, arith,
  ◌+ℤ◌, ◌-ℤ◌, ◌<ℤ◌, ◌<◌, ◌≤ℤ◌, ◌⊎◌, Option, pos, suc, ◌≡◌, ◌≤◌, All, some, List, ℕ, ℤ,
}
use strikefluency.Strategies.Draft.{Leg}
use strikefluency.Strategies.Payoff.{analysis_prices, last_or, legs_pnl_at}
use strikefluency.Strategies.Payoff.Prices.{
  OnStrike, analysis_prices-IsSorted, sorted_le_last, analysis_prices-all, All-last, OnStrikes,
}
use strikefluency.Strategies.Payoff.Slope.{Clears, slope_between, LegsClear, legs_step, slope}
use strikefluency.Strategies.Payoff.Climb.{
  upper_beyond, upper_end, outgrows, nearest_above, nearest_below,
}

-- The P&L at `n`, climbed to from the P&L at zero.
abbrev pub climb : List Leg → ℤ → ℕ → ℤ
climb legs p zero = p
climb legs p (suc n) = climb legs p n +ℤ slope legs n

abbrev pub Pays : List Leg → ℕ → ℤ → Type 0
Pays legs spot p = legs_pnl_at legs spot ≡ some p

-- The greatest P&L over all prices; none where there is no bound.
abbrev pub IsBest : List Leg → Option ℤ → Type 0
IsBest legs (some m) =
    ((spot : ℕ) (p : ℤ) → Pays legs spot p → p ≤ℤ m) × ((spot : ℕ) × Pays legs spot m)
IsBest legs none = (bound : ℤ) → (spot : ℕ) × (p : ℤ) × Pays legs spot p × (bound <ℤ p)

abbrev pub IsWorst : List Leg → Option ℤ → Type 0
IsWorst legs (some m) =
    ((spot : ℕ) (p : ℤ) → Pays legs spot p → m ≤ℤ p) × ((spot : ℕ) × Pays legs spot m)
IsWorst legs none = (bound : ℤ) → (spot : ℕ) × (p : ℤ) × Pays legs spot p × (p <ℤ bound)

pub climb-Pays : (legs : List Leg) (p : ℤ) → Pays legs 0 p → (n : ℕ) → Pays legs n (climb legs p n)
climb-Pays legs p h zero = h
climb-Pays legs p h (suc n) = legs_step legs n (climb legs p n) (climb-Pays legs p h n)

pub some_inj : (a b : ℤ) → some a ≡ some b → a ≡ b
some_inj a b h = ground arith

-- Between two prices that clear every strike the slope is that of the first.
clear_between :
    (a b : ℕ) (legs : List Leg) → OnStrikes (λ k. (k ≤ a) ⊎ (b ≤ k)) legs → LegsClear a b legs
clear_between a b [] h = tt
clear_between a b (leg ∷ legs) (h, hs) =
    (clear_leg leg.contract.strike h, clear_between a b legs hs)
  where
    clear_leg : (k : Option ℕ) → OnStrike (λ k'. (k' ≤ a) ⊎ (b ≤ k')) k → Clears a b k
    clear_leg none h' = tt
    clear_leg (some k) h' = h'

zip_sides :
    (a b s : ℕ) (xs : List ℕ)
    → All (λ x. (x ≤ a) ⊎ (s < x)) xs
    → All (λ x. (b ≤ x) ⊎ (x < s)) xs
    → All (λ x. (x ≤ a) ⊎ (b ≤ x)) xs
zip_sides a b s [] h k = tt
zip_sides a b s (x ∷ xs) (h, hs) (k, ks) =
    let side : (x ≤ a) ⊎ (b ≤ x) = ground arith in (side, zip_sides a b s xs hs ks)

beyond_last : (far b : ℕ) (legs : List Leg) → OnStrikes (λ k. k ≤ far) legs → LegsClear far b legs
beyond_last far b [] h = tt
beyond_last far b (leg ∷ legs) (h, hs) =
    (clear_leg leg.contract.strike h, beyond_last far b legs hs)
  where
    clear_leg : (k : Option ℕ) → OnStrike (λ k'. k' ≤ far) k → Clears far b k
    clear_leg none h' = tt
    clear_leg (some k) h' = inl h'

module _ (legs : List Leg) (p : ℤ) (spot : ℕ) where
  abbrev pub prices : List ℕ
  prices = analysis_prices legs spot

  abbrev pub far : ℕ
  far = last_or 0 prices

  same_beyond : (m : ℕ) → far ≤ m → slope legs m ≡ slope legs far
  same_beyond m l =
      let strikes =
        analysis_prices-all (λ x. x ≤ far) legs spot
          (sorted_le_last 0 prices (analysis_prices-IsSorted legs spot)) in
      slope_between legs far (suc m) m (beyond_last far (suc m) legs strikes.2) l (omega arith)

  far-all : (Q : ℕ → Type 0) → All Q prices → Q far
  far-all Q qs = All-last Q 0 prices (analysis_prices-all Q legs spot qs).0 qs

  -- A price up to the last lies between two analysis prices that have no strike between them.
  nearest :
      (Q : ℕ → Type 0) (s : ℕ)
      → s ≤ far
      → All Q prices
      → (a : ℕ) × (b : ℕ) × Q a
        × Q b
        × (a ≤ s)
        × (s ≤ b)
        × ((m : ℕ) → a ≤ m → m < b → slope legs m ≡ slope legs a)
  nearest Q s l qs =
      let (a, la, qa, from, below) =
        nearest_below Q s prices 0 (omega arith) (analysis_prices-all Q legs spot qs).0 qs in
      let (b, lb, qb, upto, above) = nearest_above Q s prices far l (far-all Q qs) qs in
      let clear =
        clear_between a b legs
          (analysis_prices-all (λ x. (x ≤ a) ⊎ (b ≤ x)) legs spot
            (zip_sides a b s prices below above)).2 in
      (a, b, qa, qb, la, lb, λ m l' u. slope_between legs a b m clear l' u)

  step : (n : ℕ) → climb legs p (suc n) ≡ climb legs p n +ℤ slope legs n
  step n = refl

  mirrored : ℕ → ℤ
  mirrored n = pos 0 -ℤ climb legs p n

  mirrored_step : (n : ℕ) → mirrored (suc n) ≡ mirrored n +ℤ (pos 0 -ℤ slope legs n)
  unfolding mirrored
  mirrored_step n = omega int_laws

  pub bounded_above :
      (m : ℤ) (s : ℕ)
      → slope legs far ≤ℤ pos 0
      → All (λ x. climb legs p x ≤ℤ m) prices
      → climb legs p s ≤ℤ m
  bounded_above m s down qs = elim (Bool-cases (leb s far)) [
    | inl within ↦
        let l : s ≤ far = ground arith in
        let (a, b, qa, qb, la, lb, same) = nearest (λ x. climb legs p x ≤ℤ m) s l qs in
        let ends = upper_end (climb legs p) (slope legs) step a s b la lb same in omega arith
    | inr past ↦
        let l : far ≤ s = ground arith in
        let top = far-all (λ x. climb legs p x ≤ℤ m) qs in
        let fall = upper_beyond (climb legs p) (slope legs) step far s l same_beyond down in
        omega arith
  ]

  pub bounded_below :
      (m : ℤ) (s : ℕ)
      → pos 0 ≤ℤ slope legs far
      → All (λ x. m ≤ℤ climb legs p x) prices
      → m ≤ℤ climb legs p s
  unfolding mirrored
  bounded_below m s up qs = elim (Bool-cases (leb s far)) [
    | inl within ↦
        let l : s ≤ far = ground arith in
        let (a, b, qa, qb, la, lb, same) = nearest (λ x. m ≤ℤ climb legs p x) s l qs in
        let ends =
          upper_end mirrored (λ n. pos 0 -ℤ slope legs n) mirrored_step a s b la lb
            (λ k l' u. rw (same k l' u) refl) in
        omega int_laws
    | inr past ↦
        let l : far ≤ s = ground arith in
        let bottom = far-all (λ x. m ≤ℤ climb legs p x) qs in
        let rise =
          upper_beyond mirrored (λ n. pos 0 -ℤ slope legs n) mirrored_step far s l
            (λ k l'. rw (same_beyond k l') refl) (omega int_laws) in
        omega int_laws
  ]

  pub unbounded_above : (m : ℤ) → pos 0 <ℤ slope legs far → (n : ℕ) × (m <ℤ climb legs p n)
  unbounded_above m up =
      let n = suc (pos_part m + neg_part (climb legs p far)) in
      let grows = outgrows (climb legs p) (slope legs) step far n same_beyond up in
      (n + far, omega int_laws)

  pub unbounded_below : (m : ℤ) → slope legs far <ℤ pos 0 → (n : ℕ) × (climb legs p n <ℤ m)
  unfolding mirrored
  unbounded_below m down =
      let n = suc (neg_part m + pos_part (climb legs p far)) in
      let grows =
        outgrows mirrored (λ k. pos 0 -ℤ slope legs k) mirrored_step far n
          (λ k l'. rw (same_beyond k l') refl) (omega int_laws) in
      (n + far, omega int_laws)

  -- A hundred steps past the last price the P&L has moved the way that the slope points.
  pub tail_moves :
      (pos 0 <ℤ slope legs far → climb legs p far <ℤ climb legs p (far + 100))
      × (slope legs far ≤ℤ pos 0 → climb legs p (far + 100) ≤ℤ climb legs p far)
      × (slope legs far <ℤ pos 0 → climb legs p (far + 100) <ℤ climb legs p far)
      × (pos 0 ≤ℤ slope legs far → climb legs p far ≤ℤ climb legs p (far + 100))
  unfolding mirrored
  tail_moves =
      let e : 100 + far ≡ far + 100 = omega arith in
      let l : far ≤ far + 100 = omega arith in
      let back : ℕ → ℤ = λ n. pos 0 -ℤ slope legs n in
      (
        λ up.
            let grows =
              rw e at (outgrows (climb legs p) (slope legs) step far 100 same_beyond up) in
            omega int_laws,
        λ down. upper_beyond (climb legs p) (slope legs) step far (far + 100) l same_beyond down,
        λ down.
            let grows = rw e at (
              outgrows mirrored back mirrored_step far 100 (λ k l'. rw (same_beyond k l') refl)
                (omega int_laws)) in
            omega int_laws,
        λ up.
            let falls =
              upper_beyond mirrored back mirrored_step far (far + 100) l
                (λ k l'. rw (same_beyond k l') refl) (omega int_laws) in
            omega int_laws,
      )
