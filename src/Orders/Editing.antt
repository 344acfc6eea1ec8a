-- ===== src/Orders/Editing.antt =====
-- Edits of an open order through their public calls: when they are taken, what they change, and
-- that protection saved at the current mark does not trigger there.
use strikefluency.Action.{
  order_exit_limit, order_protection, ok, Result, order_already_closed, order_not_found, err,
  Action, Error,
}
use strikefluency.Prelude.{
  ◌≢◌, refl, ◌∙◌, sym, Bool-cases, inr, inl, Option-cases, find, true, ◌⊎◌, none, some, ◌≡◌, Option,
  ℕ,
}
use strikefluency.Models.Records.{VirtualPosition, Rows, VirtualOrder}
use strikefluency.Orders.Queries.{put_order, open_of_order, find_order}
use strikefluency.Orders.Protection.{
  protect, update_order_exit_limit, update_order_protection, zero_price, with_exit_limit,
  with_protection, set_exit_limit, guarded,
}
use strikefluency.Models.Terms.{is_open_status}
use mathlib.Core.Bool.{false≢true}
use strikefluency.Discipline.{is_none}
use strikefluency.Orders.Protected.{protect-Taken, zero_price_iff, Taken, Protectable}

-- The order that an edit is about, with its open position.
pub record Editable (id : ℕ) (s : Rows) (o : VirtualOrder) (p : VirtualPosition) : Type 0 where
  pub found : find_order id s ≡ some o
  pub live : is_open_status o.status ≡ true
  pub standing : o.strategy_id ≡ none
  pub held : find (open_of_order o.id) s.positions ≡ some p

pub same_some {ℓ} : {A : Type ℓ} → (x : Option A) (a b : A) → x ≡ some a → x ≡ some b → a ≡ b
same_some x a b h k = cc

not_none {ℓ} : {A : Type ℓ} → (x : Option A) (a : A) → x ≡ none → x ≡ some a → ⊥
not_none x a h k = cc

module _ (refusal : Error) (act : VirtualOrder → VirtualPosition → Action VirtualOrder) (id : ℕ)
    (s : Rows) where
  guarded-cases :
      ((o : VirtualOrder) × (p : VirtualPosition) × Editable id s o p
        × (guarded refusal act id s ≡ act o p s))
      ⊎ ((e : Error) × ((o : VirtualOrder) (p : VirtualPosition) → ¬ (Editable id s o p))
          × (guarded refusal act id s ≡ (err e, s)))
  unfolding guarded
  guarded-cases = elim (Option-cases (find_order id s)) [
    | inl missing ↦ inr (
      order_not_found,
      λ o p k. not_none (find_order id s) o missing k.found,
      rw (guarded, missing) refl,
    )
    | inr (o, found) ↦
        let same : (o' : VirtualOrder) → find_order id s ≡ some o' → o' ≡ o =
          λ o' k. same_some (find_order id s) o' o k found in
        elim (Bool-cases (is_open_status o.status)) [
          | inr done ↦ inr (
            order_already_closed,
            λ o' p k. false≢true (sym done ∙ rw (← same o' k.found) k.live),
            rw (guarded, found, done) refl,
          )
          | inl live ↦ elim (Option-cases o.strategy_id) [
            | inr (leg, e) ↦ inr (
              refusal,
              λ o' p k. not_none o.strategy_id leg (rw (← same o' k.found) k.standing) e,
              rw (guarded, found, live, e) refl,
            )
            | inl own ↦
                let free : is_none o.strategy_id ≡ true = rw own refl in
                elim (Option-cases (find (open_of_order o.id) s.positions)) [
                  | inl gone ↦ inr (
                    refusal,
                    λ o' p k.
                        not_none (find (open_of_order o.id) s.positions) p gone
                          (rw (← same o' k.found) k.held),
                    rw (guarded, found, live, free, gone) refl,
                  )
                  | inr (p, held) ↦ inl (
                    o,
                    p,
                    record { found = found; live = live; standing = own; held = held },
                    rw (guarded, found, live, free, held) refl,
                  )
                ]
          ]
        ]
  ]

-- How an edit ended: taken, with the order as it became and nothing else changed; or refused, with
-- nothing changed, because the order cannot be edited or its terms do not hold.
abbrev pub Edited :
    (VirtualOrder → VirtualPosition → Type 0)
    → (VirtualOrder → VirtualOrder)
    → ℕ
    → Rows
    → Result VirtualOrder × Rows
    → Type 0
Edited terms change id s (ok o', s') =
    (o : VirtualOrder) × (p : VirtualPosition) × Editable id s o p
    × terms o p
    × (o' ≡ change o)
    × (s' ≡ put_order o.id change s)
Edited terms change id s (err e, s') =
    (s' ≡ s) × ((o : VirtualOrder) (p : VirtualPosition) → Editable id s o p → ¬ (terms o p))

Editable-unique :
    (id : ℕ) (s : Rows) (o o' : VirtualOrder) (p p' : VirtualPosition)
    → Editable id s o p
    → Editable id s o' p'
    → (o ≡ o') × (p ≡ p')
Editable-unique id s o o' p p' h k =
    let e : o ≡ o' = same_some (find_order id s) o o' h.found k.found in
    (e, same_some (find (open_of_order o.id) s.positions) p p' h.held (rw e k.held))

Edited-Taken :
    (id : ℕ) (sl target : Option ℕ) (s : Rows) (o : VirtualOrder) (p : VirtualPosition)
    (r : Result VirtualOrder × Rows)
    → Editable id s o p
    → Taken o p sl target s r
    → Edited (λ o p. Protectable o p sl target s) (with_protection sl target) id s r
Edited-Taken id sl target s o p (ok o', s') h (terms, e, e') = (o, p, h, terms, e, e')
Edited-Taken id sl target s o p (err e, s') h (refused, e') = (
  e',
  λ o2 p2 k terms.
      let (same, same_p) = Editable-unique id s o o2 p p2 h k in refused (rw (same, same_p) terms),
)

-- A stop loss and a target are saved exactly when the order is found, open, no strategy leg and
-- has an open position, neither price is zero, the stop loss is given where discipline mode and
-- the rule ask for one, and both lie on their sides of the current mark. Saving them changes those
-- two fields of that order and nothing else; a refusal changes nothing.
pub update_order_protection-Edited :
    (id : ℕ) (sl target : Option ℕ) (s : Rows)
    → Edited
        (λ o p. Protectable o p sl target s)
        (with_protection sl target)
        id
        s
        (update_order_protection id sl target s)
unfolding update_order_protection
update_order_protection-Edited id sl target s =
    elim (guarded-cases order_protection (λ o p. protect o p sl target) id s) [
      | inl (o, p, h, e) ↦
          rw e (Edited-Taken id sl target s o p _ h (protect-Taken o p sl target s))
      | inr (x, none_such, e) ↦ rw e (refl, λ o p k _. none_such o p k)
    ]

set_exit_limit-Edited :
    (id : ℕ) (limit : Option ℕ) (s : Rows) (o : VirtualOrder) (p : VirtualPosition)
    → Editable id s o p
    → Edited (λ _ _. limit ≢ some 0) (with_exit_limit limit) id s (set_exit_limit o limit s)
unfolding set_exit_limit
set_exit_limit-Edited id limit s o p h = elim (Bool-cases (zero_price limit)) [
  | inl z ↦ rw z (refl, λ _ _ _ k. k ((zero_price_iff limit).0 z))
  | inr nz ↦ rw nz (o, p, h, λ e. false≢true (sym nz ∙ (zero_price_iff limit).1 e), refl, refl)
]

-- A resting exit limit is saved, replaced or, given none, removed exactly when the order is found,
-- open, no strategy leg and has an open position, and the limit is not zero. It changes that one
-- field of that order and nothing else; a refusal changes nothing.
pub update_order_exit_limit-Edited :
    (id : ℕ) (limit : Option ℕ) (s : Rows)
    → Edited
        (λ _ _. limit ≢ some 0)
        (with_exit_limit limit)
        id
        s
        (update_order_exit_limit id limit s)
unfolding update_order_exit_limit
update_order_exit_limit-Edited id limit s =
    elim (guarded-cases order_exit_limit (λ o p. set_exit_limit o limit) id s) [
      | inl (o, p, h, e) ↦ rw e (set_exit_limit-Edited id limit s o p h)
      | inr (x, none_such, e) ↦ rw e (refl, λ o p k _. none_such o p k)
    ]
