-- ===== src/Prelude/Lists.antt =====
-- Lists measured by native numbers, and the predicate that all elements satisfy.
use Prim.Native.Nat.{ℕ, zero, suc, ◌+◌}
use mathlib.Core.Path.{◌≡◌, refl, subst}
use mathlib.Core.Logic.{inl, inr}
use mathlib.Core.Bool.{Bool, true, false}
use mathlib.Core.List.{List, [], ◌∷◌, ◌++◌}
use mathlib.Core.Option.{Option, none, some}
use native.Mathlib.Omega.{arith}
use strikefluency.Prelude.Tests.{Bool-cases, if◌then◌else◌}

module _ {ℓ} {A : Type ℓ} where
  abbrev pub length : List A → ℕ
  length [] = 0
  length (x ∷ xs) = suc (length xs)

  abbrev pub take : ℕ → List A → List A
  take zero xs = []
  take (suc n) [] = []
  take (suc n) (x ∷ xs) = x ∷ take n xs

  -- The first element that passes a test: the `.first()` of a filtered query.
  abbrev pub find : (A → Bool) → List A → Option A
  find p [] = none
  find p (x ∷ xs) = if p x then some x else find p xs

  abbrev pub select : (A → Bool) → List A → List A
  select p [] = []
  select p (x ∷ xs) = let rest = select p xs in if p x then x ∷ rest else rest

  abbrev pub exists : (A → Bool) → List A → Bool
  exists p [] = false
  exists p (x ∷ xs) = if p x then true else exists p xs

  abbrev pub All {κ} : (A → Type κ) → List A → Type κ
  All P [] = Unit
  All P (x ∷ xs) = P x × All P xs

  pub length-append : (xs ys : List A) → length (xs ++ ys) ≡ length xs + length ys
  length-append [] ys = omega arith
  length-append (x ∷ xs) ys = omega (arith, length-append xs ys)

  -- A change to the object that `.first()` of a filtered query returned.
  abbrev pub modify_first : (A → Bool) → (A → A) → List A → List A
  modify_first p f [] = []
  modify_first p f (x ∷ xs) = let rest = modify_first p f xs in if p x then f x ∷ xs else x ∷ rest

  -- The sum of a quantity over the elements.
  abbrev pub sum_of : (A → ℕ) → List A → ℕ
  sum_of g [] = 0
  sum_of g (x ∷ xs) = g x + sum_of g xs

  pub sum_of-append : (g : A → ℕ) (xs ys : List A) → sum_of g (xs ++ ys) ≡ sum_of g xs + sum_of g ys
  sum_of-append g [] ys = omega arith
  sum_of-append g (x ∷ xs) ys = omega (arith, sum_of-append g xs ys)

  pub sum_of-modify_first :
      (g : A → ℕ) (p : A → Bool) (f : A → A) (x : A) (xs : List A)
      → find p xs ≡ some x
      → sum_of g (modify_first p f xs) + g x ≡ sum_of g xs + g (f x)
  sum_of-modify_first g p f x [] h = ground arith
  sum_of-modify_first g p f x (y ∷ ys) h = ground (arith, sum_of-modify_first g p f x ys)

  -- A change that keeps the quantity keeps the sum.
  pub sum_of-modify_first_same :
      (g : A → ℕ) (p : A → Bool) (f : A → A) (xs : List A)
      → ((x : A) → g (f x) ≡ g x)
      → sum_of g (modify_first p f xs) ≡ sum_of g xs
  sum_of-modify_first_same g p f [] h = refl
  sum_of-modify_first_same g p f (y ∷ ys) h =
      ground (arith, h y, sum_of-modify_first_same g p f ys h)

  pub find-modify_first :
      (p : A → Bool) (f : A → A) (x : A) (xs : List A)
      → find p xs ≡ some x
      → p (f x) ≡ true
      → find p (modify_first p f xs) ≡ some (f x)
  find-modify_first p f x [] h k = ground arith
  find-modify_first p f x (y ∷ ys) h k = ground (arith, find-modify_first p f x ys)

  -- A change that the test does not see leaves what it finds, where that is another element.
  pub find-modify_first_other :
      (q p : A → Bool) (f : A → A) (xs : List A)
      → ((x : A) → p x ≡ true → (q x ≡ false) × (q (f x) ≡ false))
      → find q (modify_first p f xs) ≡ find q xs
  find-modify_first_other q p f [] h = refl
  find-modify_first_other q p f (y ∷ ys) h = ground (arith, h y, find-modify_first_other q p f ys h)

  pub find-append :
      (p : A → Bool) (xs ys : List A) (x : A) → find p xs ≡ some x → find p (xs ++ ys) ≡ some x
  find-append p [] ys x h = ground arith
  find-append p (y ∷ xs) ys x h = ground (arith, find-append p xs ys x)

  pub find-append_none :
      (p : A → Bool) (xs ys : List A) → find p xs ≡ none → find p (xs ++ ys) ≡ find p ys
  find-append_none p [] ys h = refl
  find-append_none p (y ∷ xs) ys h = ground (arith, find-append_none p xs ys)

  pub find-holds : (p : A → Bool) (xs : List A) (x : A) → find p xs ≡ some x → p x ≡ true
  find-holds p [] x h = ground arith
  find-holds p (y ∷ xs) x h = ground (arith, find-holds p xs x)

  pub All-append {κ} : (P : A → Type κ) (xs ys : List A) → All P xs → All P ys → All P (xs ++ ys)
  All-append P [] ys h k = k
  All-append P (x ∷ xs) ys (h, hs) k = (h, All-append P xs ys hs k)

  pub All-modify_first {κ} :
      (P : A → Type κ) (p : A → Bool) (f : A → A) (xs : List A)
      → ((x : A) → P x → P (f x))
      → All P xs
      → All P (modify_first p f xs)
  All-modify_first P p f [] keep h = tt
  All-modify_first P p f (x ∷ xs) keep (h, hs) =
      ground (arith, keep x h, All-modify_first P p f xs keep hs)

  pub find-All {κ} :
      (P : A → Type κ) (p : A → Bool) (xs : List A) (x : A) → find p xs ≡ some x → All P xs → P x
  find-All P p [] x h k = absurd (ground arith)
  find-All P p (y ∷ xs) x h (k, ks) = elim (Bool-cases (p y)) [
    | inl hit ↦ let e : y ≡ x = ground arith in subst P e k
    | inr miss ↦ find-All P p xs x (rw miss at h) ks
  ]

  pub find-append_miss :
      (p : A → Bool) (xs : List A) (y : A) → p y ≡ false → find p (xs ++ (y ∷ [])) ≡ find p xs
  find-append_miss p [] y h = ground arith
  find-append_miss p (x ∷ xs) y h = ground (arith, find-append_miss p xs y h)
