-- ===== src/Orders/Protected.antt =====
-- Protection on an open order: when an edit is taken, and what it changes.
use strikefluency.Orders.Protection.{
  reference_price, mandatory_sl_enabled, with_protection, sl_missing, sl_wrong_side,
  target_wrong_side, zero_price, protect,
}
use strikefluency.Models.Records.{VirtualPosition, Rows, VirtualOrder}
use strikefluency.Models.Terms.{OrderAction}
use strikefluency.Prelude.{
  ◌∙◌, sym, inr, inl, Bool-cases, refl, arith, ◌↔◌, false, none, true, ◌<◌, ◌≡◌, some, ◌≢◌, ℕ,
  Option,
}
use strikefluency.Action.{err, ok, Result}
use strikefluency.Orders.Queries.{put_order}
use mathlib.Core.Bool.{false≢true}

abbrev IsBelow : Option ℕ → ℕ → Type 0
IsBelow none reference = Unit {0}
IsBelow (some p) reference = p < reference

abbrev IsAbove : Option ℕ → ℕ → Type 0
IsAbove none reference = Unit {0}
IsAbove (some p) reference = reference < p

-- The stop loss on the losing side of the reference price, the target on the winning side.
abbrev pub Brackets : OrderAction → ℕ → Option ℕ → Option ℕ → Type 0
Brackets OrderAction.buy reference sl target = IsBelow sl reference × IsAbove target reference
Brackets OrderAction.sell reference sl target = IsAbove sl reference × IsBelow target reference

-- What an edit that is taken asks for.
pub record Protectable (o : VirtualOrder) (p : VirtualPosition) (sl target : Option ℕ) (s : Rows)
    : Type 0 where
  pub sl_pos : sl ≢ some 0
  pub target_pos : target ≢ some 0
  pub mandatory :
      s.account.discipline_mode_enabled ≡ true → mandatory_sl_enabled s.rules ≡ true → sl ≢ none
  pub brackets : Brackets o.action (reference_price p o) sl target

abbrev pub Taken :
    VirtualOrder
    → VirtualPosition
    → Option ℕ
    → Option ℕ
    → Rows
    → Result VirtualOrder × Rows
    → Type 0
Taken o p sl target s (ok o', s') =
    Protectable o p sl target s
    × (o' ≡ with_protection sl target o)
    × (s' ≡ put_order o.id (with_protection sl target) s)
Taken o p sl target s (err e, s') = ¬ (Protectable o p sl target s) × (s' ≡ s)

pub zero_price_iff : (p : Option ℕ) → (zero_price p ≡ true) ↔ (p ≡ some 0)
zero_price_iff none = ground arith
zero_price_iff (some n) = ground arith

sl_right_side :
    (a : OrderAction) (reference : ℕ) (sl target : Option ℕ)
    → Brackets a reference sl target
    → sl_wrong_side a reference sl ≡ false
sl_right_side OrderAction.buy r none target h = refl
sl_right_side OrderAction.buy r (some sl) target h = ground arith
sl_right_side OrderAction.sell r none target h = refl
sl_right_side OrderAction.sell r (some sl) target h = ground arith

target_right_side :
    (a : OrderAction) (reference : ℕ) (sl target : Option ℕ)
    → Brackets a reference sl target
    → target_wrong_side a reference target ≡ false
target_right_side OrderAction.buy r sl none h = refl
target_right_side OrderAction.buy r sl (some t) h = ground arith
target_right_side OrderAction.sell r sl none h = refl
target_right_side OrderAction.sell r sl (some t) h = ground arith

Brackets-intro :
    (a : OrderAction) (reference : ℕ) (sl target : Option ℕ)
    → sl_wrong_side a reference sl ≡ false
    → target_wrong_side a reference target ≡ false
    → Brackets a reference sl target
Brackets-intro OrderAction.buy r none none h k = (tt, tt)
Brackets-intro OrderAction.buy r none (some t) h k = ground arith
Brackets-intro OrderAction.buy r (some sl) none h k = ground arith
Brackets-intro OrderAction.buy r (some sl) (some t) h k = ground arith
Brackets-intro OrderAction.sell r none none h k = (tt, tt)
Brackets-intro OrderAction.sell r none (some t) h k = ground arith
Brackets-intro OrderAction.sell r (some sl) none h k = ground arith
Brackets-intro OrderAction.sell r (some sl) (some t) h k = ground arith

sl_missing_iff :
    (s : Rows) (sl : Option ℕ)
    → (sl_missing s sl ≡ false)
      ↔ (s.account.discipline_mode_enabled ≡ true → mandatory_sl_enabled s.rules ≡ true → sl ≢ none)
sl_missing_iff s none = ground arith
sl_missing_iff s (some n) = ground arith

pub protect-Taken :
    (o : VirtualOrder) (p : VirtualPosition) (sl target : Option ℕ) (s : Rows)
    → Taken o p sl target s (protect o p sl target s)
unfolding protect
protect-Taken o p sl target s = elim (Bool-cases (zero_price sl)) [
  | inl z ↦ rw z (λ k. k.sl_pos ((zero_price_iff sl).0 z), refl)
  | inr nz ↦ elim (Bool-cases (zero_price target)) [
    | inl tz ↦ rw (nz, tz) (λ k. k.target_pos ((zero_price_iff target).0 tz), refl)
    | inr tnz ↦ elim (Bool-cases (sl_missing s sl)) [
      | inl missing ↦
          rw (nz, tnz, missing)
            (λ k. false≢true (sym ((sl_missing_iff s sl).1 k.mandatory) ∙ missing), refl)
      | inr given ↦ elim (Bool-cases (sl_wrong_side o.action (reference_price p o) sl)) [
        | inl wrong ↦
            rw (nz, tnz, given, wrong)
              (
                λ k. false≢true (
                    sym (sl_right_side o.action (reference_price p o) sl target k.brackets)
                    ∙ wrong),
                refl,
              )
        | inr right ↦ elim (Bool-cases (target_wrong_side o.action (reference_price p o) target)) [
          | inl wrong ↦
              rw (nz, tnz, given, right, wrong)
                (
                  λ k. false≢true (
                      sym (target_right_side o.action (reference_price p o) sl target k.brackets)
                      ∙ wrong),
                  refl,
                )
          | inr both ↦
              rw (nz, tnz, given, right, both)
                (
                  record {
                    sl_pos = λ e. false≢true (sym nz ∙ (zero_price_iff sl).1 e);
                    target_pos = λ e. false≢true (sym tnz ∙ (zero_price_iff target).1 e);
                    mandatory = (sl_missing_iff s sl).0 given;
                    brackets = Brackets-intro o.action (reference_price p o) sl target right both;
                  },
                  refl,
                  refl,
                )
        ]
      ]
    ]
  ]
]
