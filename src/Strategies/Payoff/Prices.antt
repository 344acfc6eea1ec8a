-- ===== src/Strategies/Payoff/Prices.antt =====
-- The analysis prices: a sorted list of zero, every strike and a price past the last one.
use mathlib.Core.Path.{subst}
use strikefluency.Prelude.{
  ==_iff, sym, ltb, inr, inl, ◌==◌, Bool-cases, [], arith, none, ◌≤◌, All, some, ◌<◌, ◌∷◌, List,
  Option, ℕ,
}
use strikefluency.Strategies.Payoff.{
  far_price, analysis_prices, last_or, strikes_of, insert_opt, insert_sorted,
}
use strikefluency.Strategies.Draft.{Leg}

module _ {κ} (P : ℕ → Type κ) where
  pub All-insert_sorted : (x : ℕ) (xs : List ℕ) → P x → All P xs → All P (insert_sorted x xs)
  All-insert_sorted x [] p h = (p, tt)
  All-insert_sorted x (y ∷ ys) p (q, qs) = elim (Bool-cases (x == y)) [
    | inl same ↦ rw same (q, qs)
    | inr other ↦ rw other (elim (Bool-cases (ltb x y)) [
      | inl before ↦ rw before (p, (q, qs))
      | inr after ↦ rw after (q, All-insert_sorted x ys p qs)
    ])
  ]

  pub All-inserted : (x : ℕ) (xs : List ℕ) → All P (insert_sorted x xs) → P x × All P xs
  All-inserted x [] h = h
  All-inserted x (y ∷ ys) h = elim (Bool-cases (x == y)) [
    | inl same ↦ let (q, qs) = rw same at h in (subst P (sym ((==_iff x y).0 same)) q, (q, qs))
    | inr other ↦ elim (Bool-cases (ltb x y)) [
      | inl before ↦ rw (other, before) at h
      | inr after ↦
          let (q, qs) = rw (other, after) at h in
          let (p, rest) = All-inserted x ys qs in (p, (q, rest))
    ]
  ]

  pub All-last : (d : ℕ) (xs : List ℕ) → P d → All P xs → P (last_or d xs)
  All-last d [] p h = p
  All-last d (x ∷ xs) p (q, qs) = All-last x xs q qs

  abbrev pub OnStrike : Option ℕ → Type κ
  OnStrike none = Unit
  OnStrike (some k) = P k

  abbrev pub OnStrikes : List Leg → Type κ
  OnStrikes = All (λ leg. OnStrike leg.contract.strike)

  inserted_opt : (k : Option ℕ) (xs : List ℕ) → All P (insert_opt k xs) → OnStrike k × All P xs
  inserted_opt none xs h = (tt, h)
  inserted_opt (some k) xs h = All-inserted k xs h

  pub strikes_of-all : (legs : List Leg) → All P (strikes_of legs) → OnStrikes legs
  strikes_of-all [] h = tt
  strikes_of-all (leg ∷ legs) h =
      let (p, rest) = inserted_opt leg.contract.strike (strikes_of legs) h in
      (p, strikes_of-all legs rest)

  -- What holds of the analysis prices holds of zero, the far price and the strikes.
  pub analysis_prices-all :
      (legs : List Leg) (spot : ℕ)
      → All P (analysis_prices legs spot)
      → P 0 × P (far_price (strikes_of legs) spot) × OnStrikes legs
  analysis_prices-all legs spot h =
      let far = far_price (strikes_of legs) spot in
      let (zeroth, rest) = All-inserted 0 (insert_sorted far (strikes_of legs)) h in
      let (last, strikes) = All-inserted far (strikes_of legs) rest in
      (zeroth, last, strikes_of-all legs strikes)

abbrev pub IsSorted : List ℕ → Type 0
IsSorted [] = Unit
IsSorted (x ∷ xs) = All (λ y. x < y) xs × IsSorted xs

All_lt_trans : (a b : ℕ) (xs : List ℕ) → a < b → All (λ y. b < y) xs → All (λ y. a < y) xs
All_lt_trans a b [] l h = tt
All_lt_trans a b (x ∷ xs) l (h, hs) = (omega arith, All_lt_trans a b xs l hs)

pub insert_sorted-IsSorted : (x : ℕ) (xs : List ℕ) → IsSorted xs → IsSorted (insert_sorted x xs)
insert_sorted-IsSorted x [] h = (tt, tt)
insert_sorted-IsSorted x (y ∷ ys) (h, hs) = elim (Bool-cases (x == y)) [
  | inl same ↦ rw same (h, hs)
  | inr other ↦ rw other (elim (Bool-cases (ltb x y)) [
    | inl before ↦ let l : x < y = ground arith in rw before ((l, All_lt_trans x y ys l h), (h, hs))
    | inr after ↦
        let l : y < x = ground arith in
        rw after (All-insert_sorted (λ z. y < z) x ys l h, insert_sorted-IsSorted x ys hs)
  ])
]

insert_opt-IsSorted : (k : Option ℕ) (xs : List ℕ) → IsSorted xs → IsSorted (insert_opt k xs)
insert_opt-IsSorted none xs h = h
insert_opt-IsSorted (some k) xs h = insert_sorted-IsSorted k xs h

strikes_of-IsSorted : (legs : List Leg) → IsSorted (strikes_of legs)
strikes_of-IsSorted [] = tt
strikes_of-IsSorted (leg ∷ legs) =
    insert_opt-IsSorted leg.contract.strike (strikes_of legs) (strikes_of-IsSorted legs)

pub analysis_prices-IsSorted : (legs : List Leg) (spot : ℕ) → IsSorted (analysis_prices legs spot)
analysis_prices-IsSorted legs spot = insert_sorted-IsSorted 0 _ (
    insert_sorted-IsSorted (far_price (strikes_of legs) spot) (strikes_of legs)
      (strikes_of-IsSorted legs))

last_or_le : (x : ℕ) (xs : List ℕ) → All (λ y. x < y) xs → IsSorted xs → x ≤ last_or x xs
last_or_le x [] h hs = omega arith
last_or_le x (y ∷ ys) (l, h) (k, ks) = let rest = last_or_le y ys k ks in omega arith

-- Every price is at most the last.
pub sorted_le_last : (d : ℕ) (xs : List ℕ) → IsSorted xs → All (λ x. x ≤ last_or d xs) xs
sorted_le_last d [] h = tt
sorted_le_last d (x ∷ xs) (h, hs) = (last_or_le x xs h hs, sorted_le_last x xs hs)
