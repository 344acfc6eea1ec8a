-- ===== src/Strategies/Unmargined.antt =====
-- A strategy without margin: what `execute_strategy` does with one that only buys.
use strikefluency.Strategies.Book.{raised, service, done, Ending, ◌>>=◌}
use mathlib.Core.Path.{subst}
use strikefluency.Strategies.Book.{
  fails, Failure, strategy_has_id, get_strategy, leg_to_domain, to_domain, StrategyPosition,
  StrategyRow, LegRow, StrategyBook,
}
use strikefluency.Strategies.Execute.{execute_found, execute_strategy}
use strikefluency.Strategies.Quote.{quote_leg, ExpiryChain, Desk}
use strikefluency.Strategies.Plan.{
  estimate_total, is_none_left, add_fill, Fills, atm_of, plan_with, ExecutionPlan, fill_legs,
  plan_execution,
}
use strikefluency.Strategies.Draft.{Leg, Strategy}
use strikefluency.Prelude.{
  find-holds, ==_iff, find, ◌∙◌, inr, sym, [], ap, inl, none, Bool-cases, Option-cases, refl, some,
  ◌∷◌, Option, map, All, ℕ, ◌≡◌, List,
}
use strikefluency.Models.Terms.{OrderAction, Instrument}
use strikefluency.Strategies.Margin.Uncharged.{estimate_margin-long, IsLong}
use strikefluency.Strategies.Checking.{execute_found-EndsWell, require_market_open-Checks, Opens}
use strikefluency.Strategies.Margin.{estimate_margin}
use strikefluency.Strategies.Filled.{plan_on-with}
use strikefluency.Strategies.Executed.{open_position-unmargined}
use strikefluency.Strategies.Frame.{
  found_or_fail-found, found_or_fail-Checks, EndsWell-after, EndsWell,
}
use strikefluency.Clock.{require_market_open}
use strikefluency.Action.{order_not_found}

abbrev pub AllBought : List LegRow → Type 0
AllBought = All (λ row. row.action ≡ OrderAction.buy)

buys : (row : LegRow) → row.action ≡ OrderAction.buy → IsLong (leg_to_domain row)
buys row h = rw h refl

add_fill-IsLong :
    (desk : Desk) (underlying : Instrument) (atm : ℕ) (leg : Leg) (q : Option ℕ) (r : Fills)
    → IsLong leg
    → All IsLong r.legs
    → All IsLong (add_fill desk underlying atm leg q r).legs
add_fill-IsLong desk underlying atm leg none r h hs = (h, hs)
add_fill-IsLong desk underlying atm leg (some ltp) r h hs = (h, hs)

fill_legs-IsLong :
    (desk : Desk) (underlying : Instrument) (atm : ℕ) (legs : List LegRow)
    → AllBought legs
    → All IsLong (fill_legs desk underlying atm (map leg_to_domain legs)).legs
unfolding fill_legs
fill_legs-IsLong desk underlying atm [] h = tt
fill_legs-IsLong desk underlying atm (row ∷ legs) (h, hs) =
    add_fill-IsLong desk underlying atm (leg_to_domain row)
      (quote_leg desk underlying (leg_to_domain row))
      (fill_legs desk underlying atm (map leg_to_domain legs)) (buys row h)
      (fill_legs-IsLong desk underlying atm legs hs)

estimate_total-long :
    (s : Strategy) (spot : ℕ) → All IsLong s.legs → estimate_total (estimate_margin s spot) ≡ 0
estimate_total-long s spot h = elim (Option-cases (estimate_margin s spot)) [
  | inl e ↦ rw e refl
  | inr (m, e) ↦ rw e (estimate_margin-long s spot m h e)
]

plan_with-long :
    (desk : Desk) (orm : StrategyRow) (chain : ExpiryChain)
    → AllBought orm.legs
    → (plan_with desk (to_domain orm) chain).margin ≡ 0
plan_with-long desk orm chain h =
    let f =
      fill_legs desk orm.underlying (atm_of chain chain.spot_price) (map leg_to_domain orm.legs) in
    let free =
      estimate_total-long (record (to_domain orm) { legs = f.legs }) chain.spot_price
        (fill_legs-IsLong desk orm.underlying (atm_of chain chain.spot_price) orm.legs h) in
    elim (Bool-cases (is_none_left f.unpriced)) [
      | inl priced ↦ rw priced free
      | inr unpriced ↦ rw unpriced refl
    ]

plan_execution-long :
    (desk : Desk) (orm : StrategyRow) (plan : ExecutionPlan)
    → AllBought orm.legs
    → plan_execution desk (to_domain orm) ≡ some plan
    → plan.margin ≡ 0
unfolding plan_execution
plan_execution-long desk orm plan h e =
    let (chain, same) = plan_on-with desk (to_domain orm) (map leg_to_domain orm.legs) plan e in
    ap (λ p. p.margin) (sym same) ∙ plan_with-long desk orm chain h

-- No end but a failure.
abbrev pub Never : StrategyBook → StrategyPosition → StrategyBook → Type 0
Never b p b' = ⊥

Opens-Never : (desk : Desk) (orm : StrategyRow) → AllBought orm.legs → Opens Never desk orm
Opens-Never desk orm bought session plan b planned priced enough found =
    open_position-unmargined desk orm plan session Never b
      (plan_execution-long desk orm plan bought planned)

Never-fails :
    (b : StrategyBook) (p : Ending StrategyPosition × StrategyBook)
    → EndsWell Never b p
    → (e : Failure) × (p.0 ≡ fails e)
Never-fails b (fails e, c) h = (e, refl)
Never-fails b (done a, c) h = absurd h

some_row : (a c : StrategyRow) → some a ≡ some c → a ≡ c
some_row a c h = cc

module _ (desk : Desk) (id : ℕ) (orm : StrategyRow) (bought : AllBought orm.legs) where
  found_long :
      (o : StrategyRow) (b : StrategyBook)
      → find (strategy_has_id id) b.strategies ≡ some o
      → orm ≡ o
      → EndsWell Never b (execute_found desk o b)
  found_long o b found same =
      let id_eq : o.id ≡ id =
        (==_iff o.id id).0 (find-holds (strategy_has_id id) b.strategies o found) in
      execute_found-EndsWell Never (λ b' c p d h k. k) desk o
        (Opens-Never desk o (subst (λ x. AllBought x.legs) same bought)) b
        (ap (λ i. find (strategy_has_id i) b.strategies) id_eq ∙ found)

  execute_long :
      (b : StrategyBook)
      → find (strategy_has_id id) b.strategies ≡ some orm
      → EndsWell Never b (execute_strategy desk id b)
  unfolding execute_strategy get_strategy
  execute_long b found =
      let look = find (strategy_has_id id) in
      EndsWell-after Never (λ b' c p d h k. k) (service (require_market_open desk.env.now))
        (λ _. get_strategy id >>= execute_found desk) b (require_market_open-Checks desk.env.now b)
        (λ _ c e h.
          EndsWell-after Never (λ b' c' p d h' k. k) (get_strategy id) (execute_found desk) c
            (found_or_fail-Checks (raised order_not_found) (look c.strategies) c)
            (λ o d e' h'.
              let hit = found_or_fail-found (raised order_not_found) (look c.strategies) c d o e' in
              found_long o d (ap look h'.strategies_eq ∙ hit)
                (some_row orm o (sym (ap look h.strategies_eq ∙ found) ∙ hit))))

-- A strategy that only buys, whatever it buys and whatever the balance, is never executed: every
-- call fails, because the margin is zero and the ledger refuses to post a zero amount.
pub execute_strategy-bought :
    (desk : Desk) (id : ℕ) (orm : StrategyRow) (b : StrategyBook)
    → find (strategy_has_id id) b.strategies ≡ some orm
    → AllBought orm.legs
    → (e : Failure) × ((execute_strategy desk id b).0 ≡ fails e)
execute_strategy-bought desk id orm b found bought =
    Never-fails b (execute_strategy desk id b) (execute_long desk id orm bought b found)
