-- ===== src/Strategies/Built.antt =====
-- Drafts as the builder makes them, and the check before an execution.
use mathlib.Core.Path.{subst}
use strikefluency.Models.Terms.{instrument_eq, Instrument}
use strikefluency.Prelude.{
  ◌<◌, none, ltb, inr, ◌∙◌, ==_iff, sym, inl, ◌||◌, All-append, Bool-cases, refl, ap, arith, ◌⊎◌,
  false, suc, true, [], ◌++◌, ◌==◌, ◌≤◌, All, Option, exists, length, ◌∷◌, ◌≡◌, Bool, List, ℕ,
}
use strikefluency.Strategies.Draft.{Leg, Strategy}
use strikefluency.Strategies.Builder.{
  has_leg_id, drop_first, max_strategy_legs, failed, require_draft, ◌&>◌, edit_leg, LegEdit,
  other_legs, remove_leg, shares_expiry, require, ValidationCode, validate_leg, Checked, add_leg,
  passed, validate_against_strategy,
}

-- A strategy that the builder's functions have made from an empty draft. The ids of legs are fresh
-- uuids.
pub data Drafted : Strategy → Type 0 where
  new_draft : (s : Strategy) → s.legs ≡ [] → Drafted s
  with_leg :
      (s t : Strategy) (leg : Leg)
      → All (λ l. (l.id == leg.id) ≡ false) s.legs
      → add_leg s leg ≡ passed t
      → Drafted s
      → Drafted t
  without_leg : (s t : Strategy) (id : ℕ) → remove_leg s id ≡ passed t → Drafted s → Drafted t
  with_edit :
      (s t : Strategy) (id : ℕ) (e : LegEdit) → edit_leg s id e ≡ passed t → Drafted s → Drafted t

-- A leg that stands in a strategy on the underlying.
abbrev pub IsFit : Instrument → Leg → Type 0
IsFit i l = (validate_leg l i ≡ passed tt) × (instrument_eq l.contract.underlying i ≡ true)

abbrev pub DistinctLegs : List Leg → Type 0
DistinctLegs [] = Unit
DistinctLegs (l ∷ ls) = All (λ k. (k.id == l.id) ≡ false) ls × DistinctLegs ls

abbrev pub AllAt : ℕ → List Leg → Type 0
AllAt e = All (λ (l : Leg). l.contract.expiry ≡ e)

pub record Sound (s : Strategy) : Type 0 where
  pub fit : All (IsFit s.underlying) s.legs
  pub few : length s.legs ≤ 10
  pub distinct : DistinctLegs s.legs
  pub shared : (s.allow_calendar ≡ true) ⊎ ((e : ℕ) × AllAt e s.legs)

module _ {A : Type 0} where
  pub passed_both :
      (x : Checked (Unit {0})) (k : Checked A) (a : A)
      → (x &> k) ≡ passed a
      → (x ≡ passed tt) × (k ≡ passed a)
  passed_both (passed tt) k a h = (refl, h)
  passed_both (failed c) k a h = absurd (ground arith)

  pub passed_eq : (a b : A) → passed a ≡ passed b → a ≡ b
  passed_eq a b h = cc

pub require-passed : (c : Bool) (code : ValidationCode) → require c code ≡ passed tt → c ≡ true
require-passed true code h = refl
require-passed false code h = absurd (ground arith)

-- What a leg has passed when it is added or edited.
pub against_lem :
    (leg : Leg) (s : Strategy) (ignored : Option ℕ)
    → validate_against_strategy leg s ignored ≡ passed tt
    → (instrument_eq leg.contract.underlying s.underlying ≡ true)
      × ((shares_expiry leg (other_legs ignored s.legs) || s.allow_calendar) ≡ true)
unfolding validate_against_strategy
against_lem leg s ignored h =
    let (same, rest) = passed_both _ _ tt h in
    (
      require-passed _ ValidationCode.underlying_mismatch same,
      require-passed _ ValidationCode.calendar_not_allowed rest,
    )

-- Among legs of one expiry, a leg that shares an expiry has that one.
pub shares_expiry-AllAt :
    (leg : Leg) (others : List Leg) (e : ℕ)
    → AllAt e others
    → exists (λ l. l.contract.expiry == leg.contract.expiry) others ≡ true
    → leg.contract.expiry ≡ e
shares_expiry-AllAt leg [] e h k = absurd (ground arith)
shares_expiry-AllAt leg (l ∷ ls) e (h, hs) k =
    elim (Bool-cases (l.contract.expiry == leg.contract.expiry)) [
      | inl same ↦ sym ((==_iff l.contract.expiry leg.contract.expiry).0 same) ∙ h
      | inr other ↦ shares_expiry-AllAt leg ls e hs (rw other at k)
    ]

distinct_snoc :
    (ls : List Leg) (leg : Leg)
    → DistinctLegs ls
    → All (λ l. (l.id == leg.id) ≡ false) ls
    → DistinctLegs (ls ++ (leg ∷ []))
distinct_snoc [] leg d h = (tt, tt)
distinct_snoc (l ∷ ls) leg (d, ds) (h, hs) =
    let apart : (leg.id == l.id) ≡ false = ground arith in
    (
      All-append (λ k. (k.id == l.id) ≡ false) ls (leg ∷ []) d (apart, tt),
      distinct_snoc ls leg ds hs,
    )

length-snoc : (ls : List Leg) (leg : Leg) → length (ls ++ (leg ∷ [])) ≡ suc (length ls)
length-snoc [] leg = refl
length-snoc (l ∷ ls) leg = ap suc (length-snoc ls leg)

shared_snoc :
    (ls : List Leg) (leg : Leg) (e : ℕ)
    → AllAt e ls
    → shares_expiry leg ls ≡ true
    → (e' : ℕ) × AllAt e' (ls ++ (leg ∷ []))
shared_snoc [] leg e h k = (leg.contract.expiry, (refl, tt))
shared_snoc (l ∷ ls) leg e h k = (
  e,
  All-append (λ (l : Leg). l.contract.expiry ≡ e) (l ∷ ls) (leg ∷ []) h
      (shares_expiry-AllAt leg (l ∷ ls) e h k, tt),
)

pub add_leg-Sound :
    (s t : Strategy) (leg : Leg)
    → All (λ l. (l.id == leg.id) ≡ false) s.legs
    → add_leg s leg ≡ passed t
    → Sound s
    → Sound t
unfolding add_leg
add_leg-Sound s t leg fresh h sound =
    let (_, h1) = passed_both (require_draft s) _ t h in
    let (room, h2) =
      passed_both (require (ltb (length s.legs) max_strategy_legs) ValidationCode.max_legs) _ t
        h1 in
    let (valid, h3) = passed_both (validate_leg leg s.underlying) _ t h2 in
    let (against, h4) = passed_both (validate_against_strategy leg s none) _ t h3 in
    let (same, shares) = against_lem leg s none against in
    let few : length s.legs < 10 = ground (arith, require-passed _ ValidationCode.max_legs room) in
    let added : Sound (record s { legs = s.legs ++ (leg ∷ []) }) = record {
      fit = All-append (IsFit s.underlying) s.legs (leg ∷ []) sound.fit ((valid, same), tt);
      few = rw (length-snoc s.legs leg) (omega arith);
      distinct = distinct_snoc s.legs leg sound.distinct fresh;
      shared = elim sound.shared [
        | inl calendar ↦ inl calendar
        | inr (e, at) ↦ elim (Bool-cases s.allow_calendar) [
          | inl calendar ↦ inl calendar
          | inr strict ↦
              let shared : shares_expiry leg s.legs ≡ true = ground (arith, shares, strict) in
              inr (shared_snoc s.legs leg e at shared)
        ]
      ];
    } in
    subst Sound (passed_eq _ t h4) added

All-drop_first :
    (P : Leg → Type 0) (p : Leg → Bool) (ls : List Leg) → All P ls → All P (drop_first p ls)
All-drop_first P p [] h = tt
All-drop_first P p (l ∷ ls) (h, hs) = elim (Bool-cases (p l)) [
  | inl hit ↦ rw hit hs
  | inr miss ↦ rw miss (h, All-drop_first P p ls hs)
]

length-drop_first : (p : Leg → Bool) (ls : List Leg) → length (drop_first p ls) ≤ length ls
length-drop_first p [] = omega arith
length-drop_first p (l ∷ ls) = ground (arith, length-drop_first p ls)

distinct_drop : (p : Leg → Bool) (ls : List Leg) → DistinctLegs ls → DistinctLegs (drop_first p ls)
distinct_drop p [] d = tt
distinct_drop p (l ∷ ls) (d, ds) = elim (Bool-cases (p l)) [
  | inl hit ↦ rw hit ds
  | inr miss ↦ rw miss (All-drop_first (λ k. (k.id == l.id) ≡ false) p ls d, distinct_drop p ls ds)
]

at_most : (m n : ℕ) → m ≤ n → n ≤ 10 → m ≤ 10
at_most m n h k = omega arith

pub remove_leg-Sound : (s t : Strategy) (id : ℕ) → remove_leg s id ≡ passed t → Sound s → Sound t
unfolding remove_leg
remove_leg-Sound s t id h sound =
    let (_, h1) = passed_both (require_draft s) _ t h in
    let (_, h2) =
      passed_both (require (exists (has_leg_id id) s.legs) ValidationCode.leg_not_found) _ t h1 in
    let p = has_leg_id id in
    let removed : Sound (record s { legs = drop_first p s.legs }) = record {
      fit = All-drop_first (IsFit s.underlying) p s.legs sound.fit;
      few = at_most _ _ (length-drop_first p s.legs) sound.few;
      distinct = distinct_drop p s.legs sound.distinct;
      shared = elim sound.shared [
        | inl calendar ↦ inl calendar
        | inr (e, at) ↦ inr (e, All-drop_first (λ l. l.contract.expiry ≡ e) p s.legs at)
      ];
    } in
    subst Sound (passed_eq _ t h2) removed
