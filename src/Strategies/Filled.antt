-- ===== src/Strategies/Filled.antt =====
-- The plan of an execution: with no leg left unpriced, every leg has its fill.
use mathlib.Core.Path.{subst}
use strikefluency.Strategies.Book.{leg_to_domain, to_domain, LegRow, StrategyRow}
use strikefluency.Strategies.Plan.{
  plan_on, add_fill, Fills, atm_of, plan_with, fill_leg, is_none_left, ExecutionPlan, LegFill,
  fill_legs, plan_execution,
}
use strikefluency.Strategies.Quote.{ExpiryChain, quote_leg, Desk}
use strikefluency.Prelude.{
  ◌∙◌, ap, none, Option, refl, [], arith, inr, inl, ◌==◌, Bool-cases, true, some, map, ◌≡◌, ◌∷◌, ℕ,
  List,
}
use strikefluency.Models.Terms.{Instrument}
use strikefluency.Strategies.Executed.{AllFilled}
use strikefluency.Strategies.Execute.{fill_for}
use strikefluency.Strategies.Draft.{Leg, Strategy}

found_later :
    (fill : LegFill) (fills : List LegFill) (legs : List LegRow)
    → AllFilled fills legs
    → AllFilled (fill ∷ fills) legs
found_later fill fills [] h = tt
found_later fill fills (row ∷ legs) ((f, e), hs) = (later, found_later fill fills legs hs)
  where
    later : (g : LegFill) × (fill_for (fill ∷ fills) row ≡ some g)
    later = elim (Bool-cases (fill.leg_id == row.id)) [
      | inl hit ↦ (fill, rw hit refl)
      | inr miss ↦ (f, rw miss e)
    ]

add_fill-AllFilled :
    (desk : Desk) (underlying : Instrument) (atm : ℕ) (row : LegRow) (q : Option ℕ) (r : Fills)
    (legs : List LegRow)
    → is_none_left (add_fill desk underlying atm (leg_to_domain row) q r).unpriced ≡ true
    → (is_none_left r.unpriced ≡ true → AllFilled r.filled legs)
    → AllFilled (add_fill desk underlying atm (leg_to_domain row) q r).filled (row ∷ legs)
add_fill-AllFilled desk underlying atm row none r legs h rest = absurd (ground arith)
add_fill-AllFilled desk underlying atm row (some ltp) r legs h rest =
    let fill = fill_leg desk underlying atm (leg_to_domain row) ltp in
    let same : (row.id == row.id) ≡ true = ground arith in
    ((fill, rw same refl), found_later fill r.filled legs (rest h))

fill_legs-AllFilled :
    (desk : Desk) (underlying : Instrument) (atm : ℕ) (legs : List LegRow)
    → is_none_left (fill_legs desk underlying atm (map leg_to_domain legs)).unpriced ≡ true
    → AllFilled (fill_legs desk underlying atm (map leg_to_domain legs)).filled legs
unfolding fill_legs
fill_legs-AllFilled desk underlying atm [] h = tt
fill_legs-AllFilled desk underlying atm (row ∷ legs) h =
    add_fill-AllFilled desk underlying atm row (quote_leg desk underlying (leg_to_domain row))
      (fill_legs desk underlying atm (map leg_to_domain legs)) legs h
      (fill_legs-AllFilled desk underlying atm legs)

pub plan_on-with :
    (desk : Desk) (domain : Strategy) (legs : List Leg) (plan : ExecutionPlan)
    → plan_on desk domain legs ≡ some plan
    → (chain : ExpiryChain) × (plan_with desk domain chain ≡ plan)
plan_on-with desk domain [] plan h = absurd (ground arith)
plan_on-with desk domain (first ∷ _) plan h =
    (desk.chain_for domain.underlying first.contract.expiry, some_plan h)
  where
    some_plan : {a c : ExecutionPlan} → some a ≡ some c → a ≡ c
    some_plan e = cc

pub plan_execution-AllFilled :
    (desk : Desk) (orm : StrategyRow) (plan : ExecutionPlan)
    → plan_execution desk (to_domain orm) ≡ some plan
    → is_none_left plan.problems ≡ true
    → AllFilled plan.fills orm.legs
unfolding plan_execution
plan_execution-AllFilled desk orm plan h k =
    let (chain, same) = plan_on-with desk (to_domain orm) (map leg_to_domain orm.legs) plan h in
    let filled = fill_legs-AllFilled desk orm.underlying (atm_of chain chain.spot_price) orm.legs in
    subst (λ p. AllFilled p.fills orm.legs) same
      (filled (ap (λ p. is_none_left p.problems) same ∙ k))
