-- ===== src/Strategies/Editing.antt =====
-- An edited leg in its draft.
use mathlib.Core.Path.{subst}
use strikefluency.Strategies.Builder.{
  other_legs, require_draft, validate_against_strategy, is_empty, candidate, edited, has_leg_id,
  passed, LegEdit, edit_found, edit_leg, validate_leg,
}
use strikefluency.Strategies.Draft.{same_key, Strategy, Leg}
use strikefluency.Prelude.{
  not, ==_iff, exists, find-All, ◌∙◌, Option-cases, false, true, ◌==◌, All-modify_first, inr, refl,
  [], inl, Bool-cases, arith, ◌∷◌, modify_first, select, some, All, find, length, ◌≡◌, Bool, List,
  ℕ,
}
use strikefluency.Models.Terms.{Instrument}
use strikefluency.Strategies.Built.{
  passed_eq, shares_expiry-AllAt, AllAt, against_lem, passed_both, DistinctLegs, IsFit, Sound,
}

-- What the snapshot of an edited leg does not touch.
edited_lem :
    (e : LegEdit) (l : Leg) (i : Instrument)
    → ((edited e l).id ≡ l.id)
      × ((edited e l).contract.expiry ≡ (candidate e l).contract.expiry)
      × ((edited e l).contract.underlying ≡ l.contract.underlying)
      × (validate_leg (edited e l) i ≡ validate_leg (candidate e l) i)
unfolding validate_leg
edited_lem e l i = elim (Bool-cases (same_key (candidate e l).contract l.contract)) [
  | inl same ↦ rw same (refl, refl, refl, refl)
  | inr other ↦ rw other (refl, refl, refl, refl)
]

All-modify_found :
    (P : Leg → Type 0) (p : Leg → Bool) (f : Leg → Leg) (ls : List Leg) (l : Leg)
    → find p ls ≡ some l
    → P (f l)
    → All P ls
    → All P (modify_first p f ls)
All-modify_found P p f [] l found h all = tt
All-modify_found P p f (k ∷ ls) l found h (a, all) = elim (Bool-cases (p k)) [
  | inl hit ↦ let same : l ≡ k = ground arith in rw hit (subst (λ x. P (f x)) same h, all)
  | inr miss ↦ rw miss (a, All-modify_found P p f ls l (rw miss at found) h all)
]

length-modify_first :
    (p : Leg → Bool) (f : Leg → Leg) (ls : List Leg) → length (modify_first p f ls) ≡ length ls
length-modify_first p f [] = refl
length-modify_first p f (l ∷ ls) = ground (arith, length-modify_first p f ls)

distinct_modify :
    (p : Leg → Bool) (f : Leg → Leg) (ls : List Leg)
    → ((l : Leg) → (f l).id ≡ l.id)
    → DistinctLegs ls
    → DistinctLegs (modify_first p f ls)
distinct_modify p f [] keep d = tt
distinct_modify p f (l ∷ ls) keep (d, ds) = elim (Bool-cases (p l)) [
  | inl hit ↦ rw hit (rw (keep l) d, ds)
  | inr miss ↦ rw miss (
    All-modify_first (λ k. (k.id == l.id) ≡ false) p f ls (λ k h. rw (keep k) h) d,
    distinct_modify p f ls keep ds,
  )
]

All-select : (P : Leg → Type 0) (p : Leg → Bool) (ls : List Leg) → All P ls → All P (select p ls)
All-select P p [] h = tt
All-select P p (l ∷ ls) (h, hs) = elim (Bool-cases (p l)) [
  | inl hit ↦ rw hit (h, All-select P p ls hs)
  | inr miss ↦ rw miss (All-select P p ls hs)
]

-- With no other leg, the edited leg is alone.
alone :
    (id : ℕ) (f : Leg → Leg) (ls : List Leg) (l : Leg)
    → DistinctLegs ls
    → is_empty (other_legs (some id) ls) ≡ true
    → find (has_leg_id id) ls ≡ some l
    → AllAt ((f l).contract.expiry) (modify_first (has_leg_id id) f ls)
alone id f [] l d empty found = tt
alone id f (k ∷ []) l d empty found = elim (Bool-cases (has_leg_id id k)) [
  | inl hit ↦ let same : l ≡ k = ground arith in rw (hit, same) (refl, tt)
  | inr miss ↦ absurd (ground (arith, miss))
]
alone id f (k ∷ (j ∷ ls)) l ((d, _), _) empty found =
    absurd (ground (arith, (==_iff k.id id).0, (==_iff j.id id).0, (==_iff j.id k.id).1))

edit_found-Sound :
    (s t : Strategy) (id : ℕ) (e : LegEdit) (l : Leg)
    → find (has_leg_id id) s.legs ≡ some l
    → IsFit s.underlying l
    → edit_found s id e (some l) ≡ passed t
    → Sound s
    → Sound t
unfolding edit_found
edit_found-Sound s t id e l found was h sound =
    let p = has_leg_id id in
    let (valid, h1) = passed_both (validate_leg (candidate e l) s.underlying) _ t h in
    let (against, h2) =
      passed_both (validate_against_strategy (candidate e l) s (some id)) _ t h1 in
    let (same, shares) = against_lem (candidate e l) s (some id) against in
    let (_, expiry, underlying, checks) = edited_lem e l s.underlying in
    let fit : IsFit s.underlying (edited e l) = (checks ∙ valid, rw underlying was.1) in
    let all_at : (d : ℕ)
        → (candidate e l).contract.expiry ≡ d
        → AllAt d s.legs
        → AllAt d (modify_first p (edited e) s.legs) =
      λ d here at.
        All-modify_found (λ l. l.contract.expiry ≡ d) p (edited e) s.legs l found (expiry ∙ here)
          at in
    let others = other_legs (some id) s.legs in
    let changed : Sound (record s { legs = modify_first p (edited e) s.legs }) = record {
      fit = All-modify_found (IsFit s.underlying) p (edited e) s.legs l found fit sound.fit;
      few = rw (length-modify_first p (edited e) s.legs) sound.few;
      distinct =
          distinct_modify p (edited e) s.legs (λ k. (edited_lem e k s.underlying).0) sound.distinct;
      shared = elim sound.shared [
        | inl calendar ↦ inl calendar
        | inr (d, at) ↦ elim (Bool-cases s.allow_calendar) [
          | inl calendar ↦ inl calendar
          | inr strict ↦ elim (Bool-cases (is_empty others)) [
            | inl empty ↦ inr (_, alone id (edited e) s.legs l sound.distinct empty found)
            | inr some_left ↦
                let there : exists (λ k. k.contract.expiry == (candidate e l).contract.expiry)
                      others
                    ≡ true =
                  ground (arith, shares, strict, some_left) in
                inr (
                  d,
                  all_at d
                      (shares_expiry-AllAt (candidate e l) others d
                        (All-select (λ k. k.contract.expiry ≡ d) (λ k. not (k.id == id)) s.legs at)
                        there)
                      at,
                )
          ]
        ]
      ];
    } in
    subst Sound (passed_eq _ t h2) changed

pub edit_leg-Sound :
    (s t : Strategy) (id : ℕ) (e : LegEdit) → edit_leg s id e ≡ passed t → Sound s → Sound t
unfolding edit_leg edit_found
edit_leg-Sound s t id e h sound =
    let (_, h1) = passed_both (require_draft s) _ t h in
    elim (Option-cases (find (has_leg_id id) s.legs)) [
      | inl missing ↦ absurd (ground (arith, rw missing at h1))
      | inr (l, found) ↦
          edit_found-Sound s t id e l found
            (find-All (IsFit s.underlying) (has_leg_id id) s.legs l found sound.fit)
            (rw found at h1) sound
    ]
