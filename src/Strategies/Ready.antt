-- ===== src/Strategies/Ready.antt =====
-- The check before an execution, on drafts that the builder made.
use mathlib.Core.Path.{subst}
use strikefluency.Strategies.Builder.{
  max_strategy_legs, ValidationCode, failed, passed, validate_legs, is_empty, validate_strategy,
}
use strikefluency.Models.Terms.{Instrument}
use strikefluency.Prelude.{
  sym, length, leb, refl, ==_iff, [], inl, true, ◌==◌, ◌∷◌, exists, false, inr, ◌||◌, All, arith,
  ◌≡◌, not, List, ℕ,
}
use strikefluency.Strategies.Draft.{is_calendar, Leg, Strategy}
use strikefluency.Strategies.Built.{
  with_edit, remove_leg-Sound, without_leg, add_leg-Sound, with_leg, IsFit, AllAt, new_draft,
  Drafted, Sound,
}
use strikefluency.Strategies.Editing.{edit_leg-Sound}

Drafted-Sound : (s : Strategy) → Drafted s → Sound s
Drafted-Sound s (new_draft s' bare) = record {
  fit = rw bare tt;
  few = rw bare (omega arith);
  distinct = rw bare tt;
  shared = inr (0, rw bare tt);
}
Drafted-Sound t (with_leg s t' leg fresh h run) =
    add_leg-Sound s t leg fresh h (Drafted-Sound s run)
Drafted-Sound t (without_leg s t' id h run) = remove_leg-Sound s t id h (Drafted-Sound s run)
Drafted-Sound t (with_edit s t' id e h run) = edit_leg-Sound s t id e h (Drafted-Sound s run)

validate_legs-fit :
    (i : Instrument) (ls : List Leg) → All (IsFit i) ls → validate_legs i ls ≡ passed tt
validate_legs-fit i [] h = refl
validate_legs-fit i (l ∷ ls) ((valid, same), hs) = rw (valid, same, validate_legs-fit i ls hs) refl

no_other :
    (e : ℕ) (ls : List Leg) → AllAt e ls → exists (λ k. not (k.contract.expiry == e)) ls ≡ false
no_other e [] h = refl
no_other e (l ∷ ls) (h, hs) = ground (arith, (==_iff l.contract.expiry e).1 h, no_other e ls hs)

one_expiry : (e : ℕ) (ls : List Leg) → AllAt e ls → is_calendar ls ≡ false
one_expiry e [] h = refl
one_expiry e (l ∷ ls) (h, hs) =
    subst (λ d. exists (λ k. not (k.contract.expiry == d)) ls ≡ false) (sym h) (no_other e ls hs)

calendar_lem : (s : Strategy) → Sound s → (not (is_calendar s.legs) || s.allow_calendar) ≡ true
calendar_lem s sound = elim sound.shared [
  | inl calendar ↦ ground (arith, calendar)
  | inr (e, at) ↦ let plain = one_expiry e s.legs at in ground (arith, plain)
]

-- A strategy that was made from an empty draft by adding, editing and removing legs, each with a
-- fresh id, passes the full check before its execution if it has a leg, and otherwise fails it for
-- want of one. So no accepted sequence of edits leaves a draft that cannot be executed for its
-- form: too many legs, a strike off the grid, another underlying or a mixture of expiries.
pub validate_strategy-Drafted :
    (s : Strategy)
    → Drafted s
    → (is_empty s.legs ≡ false → validate_strategy s ≡ passed tt)
      × (is_empty s.legs ≡ true → validate_strategy s ≡ failed ValidationCode.bad_quantity)
unfolding validate_strategy
validate_strategy-Drafted s run =
    let sound = Drafted-Sound s run in
    let few : leb (length s.legs) max_strategy_legs ≡ true = ground (arith, sound.few) in
    (
      λ legs.
          rw (legs, few, validate_legs-fit s.underlying s.legs sound.fit, calendar_lem s sound)
            refl,
      λ bare. rw bare refl,
    )
