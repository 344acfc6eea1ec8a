-- ===== src/Strategies/Payoff/Climb.antt =====
-- A quantity that moves by known steps: where it rises, where it falls, and where its extremes are.
use strikefluency.Prelude.{
  [], ◌&&◌, leb, ◌∷◌, All, List, inr, inl, leb_ℤ, Bool-cases, zero, ◌+◌, ◌-◌, ◌⊎◌, int_laws, ◌<ℤ◌,
  ◌<◌, pos, ◌≤◌, ◌+ℤ◌, arith, ◌≡◌, suc, ◌≤ℤ◌, ℕ, ℤ,
}

pub ≤ℤ_refl : (a : ℤ) → a ≤ℤ a
≤ℤ_refl a = omega arith

module _ (g d : ℕ → ℤ) (step : (n : ℕ) → g (suc n) ≡ g n +ℤ d n) where
  step_up : (n : ℕ) → pos 0 ≤ℤ d n → g n ≤ℤ g (suc n)
  step_up n h = rw (step n) (omega int_laws)

  step_down : (n : ℕ) → d n ≤ℤ pos 0 → g (suc n) ≤ℤ g n
  step_down n h = rw (step n) (omega int_laws)

  rising : (a n : ℕ) → ((m : ℕ) → a ≤ m → m < n + a → pos 0 ≤ℤ d m) → g a ≤ℤ g (n + a)
  rising a zero h = let e : 0 + a ≡ a = omega arith in rw e (≤ℤ_refl (g a))
  rising a (suc n) h =
      let up = step_up (n + a) (h (n + a) (omega arith) (omega arith)) in
      let e : suc n + a ≡ suc (n + a) = omega arith in
      let below = rising a n (λ m l u. h m l (omega arith)) in rw e (omega arith)

  falling : (a n : ℕ) → ((m : ℕ) → a ≤ m → m < n + a → d m ≤ℤ pos 0) → g (n + a) ≤ℤ g a
  falling a zero h = let e : 0 + a ≡ a = omega arith in rw e (≤ℤ_refl (g a))
  falling a (suc n) h =
      let down = step_down (n + a) (h (n + a) (omega arith) (omega arith)) in
      let e : suc n + a ≡ suc (n + a) = omega arith in
      let above = falling a n (λ m l u. h m l (omega arith)) in rw e (omega arith)

  rising_to : (a b : ℕ) → a ≤ b → ((m : ℕ) → a ≤ m → m < b → pos 0 ≤ℤ d m) → g a ≤ℤ g b
  rising_to a b l h =
      let e : b - a + a ≡ b = omega arith in
      rw e at (rising a (b - a) (λ m l' u. h m l' (omega arith)))

  falling_to : (a b : ℕ) → a ≤ b → ((m : ℕ) → a ≤ m → m < b → d m ≤ℤ pos 0) → g b ≤ℤ g a
  falling_to a b l h =
      let e : b - a + a ≡ b = omega arith in
      rw e at (falling a (b - a) (λ m l' u. h m l' (omega arith)))

  -- Where the step stays the same, the ends are the extremes.
  pub upper_end :
      (a s b : ℕ)
      → a ≤ s
      → s ≤ b
      → ((m : ℕ) → a ≤ m → m < b → d m ≡ d a)
      → (g s ≤ℤ g a) ⊎ (g s ≤ℤ g b)
  upper_end a s b l u same = elim (Bool-cases (leb_ℤ (pos 0) (d a))) [
    | inl up ↦ inr (rising_to s b u (λ m l' u'. rw (same m (omega arith) u') (ground arith)))
    | inr down ↦ inl (falling_to a s l (λ m l' u'. rw (same m l' (omega arith)) (ground arith)))
  ]

  pub upper_beyond : (a s : ℕ) → a ≤ s → ((m : ℕ) → a ≤ m → d m ≡ d a) → d a ≤ℤ pos 0 → g s ≤ℤ g a
  upper_beyond a s l same down = falling_to a s l (λ m l' u. rw (same m l') down)

  -- Past `a` it outgrows every bound.
  pub outgrows :
      (a n : ℕ) → ((m : ℕ) → a ≤ m → d m ≡ d a) → pos 0 <ℤ d a → g a +ℤ pos n ≤ℤ g (n + a)
  outgrows a zero same up = let e : 0 + a ≡ a = omega arith in rw e (omega int_laws)
  outgrows a (suc n) same up =
      let below = outgrows a n same up in
      let e : suc n + a ≡ suc (n + a) = omega arith in
      rw e (rw (step (n + a)) (rw (same (n + a) (omega arith)) (omega int_laws)))

-- The nearest members of a list on either side of `s`: every member is at most the one or at
-- least the other.
module _ {κ} (Q : ℕ → Type κ) (s : ℕ) where
  pub nearest_below :
      (xs : List ℕ) (z : ℕ)
      → z ≤ s
      → Q z
      → All Q xs
      → (a : ℕ) × (a ≤ s) × Q a × (z ≤ a) × All (λ x. (x ≤ a) ⊎ (s < x)) xs
  nearest_below [] z l q qs = (z, l, q, omega arith, tt)
  nearest_below (x ∷ xs) z l q (qx, qs) = elim (Bool-cases (leb x s && leb z x)) [
    | inl closer ↦
        let l' : x ≤ s = ground arith in
        let (a, la, qa, from, rest) = nearest_below xs x l' qx qs in
        (a, la, qa, ground arith, (inl from, rest))
    | inr other ↦
        let (a, la, qa, from, rest) = nearest_below xs z l q qs in
        let side : (x ≤ a) ⊎ (s < x) = ground arith in (a, la, qa, from, (side, rest))
  ]

  pub nearest_above :
      (xs : List ℕ) (z : ℕ)
      → s ≤ z
      → Q z
      → All Q xs
      → (b : ℕ) × (s ≤ b) × Q b × (b ≤ z) × All (λ x. (b ≤ x) ⊎ (x < s)) xs
  nearest_above [] z l q qs = (z, l, q, omega arith, tt)
  nearest_above (x ∷ xs) z l q (qx, qs) = elim (Bool-cases (leb s x && leb x z)) [
    | inl closer ↦
        let l' : s ≤ x = ground arith in
        let (b, lb, qb, from, rest) = nearest_above xs x l' qx qs in
        (b, lb, qb, ground arith, (inl from, rest))
    | inr other ↦
        let (b, lb, qb, from, rest) = nearest_above xs z l q qs in
        let side : (b ≤ x) ⊎ (x < s) = ground arith in (b, lb, qb, from, (side, rest))
  ]
