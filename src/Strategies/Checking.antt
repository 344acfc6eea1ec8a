-- ===== src/Strategies/Checking.antt =====
-- The checks of an execution, before anything is written, whatever follows them.
use strikefluency.Strategies.Book.{
  empty_strategy, checked, not_a_draft_any_more, raised, unpriceable, fail_if, found_or_fail, Run,
  done, service, strategy_has_id, StrategyPosition, StrategyBook, to_domain, StrategyRow, ◌>>=◌,
  ◌>>◌,
}
use strikefluency.Strategies.Plan.{is_none_left, ExecutionPlan, plan_execution}
use strikefluency.Strategies.Quote.{Desk}
use strikefluency.Prelude.{
  if◌then◌else◌, ltb_ℤ_iff, ltb_ℤ, false, ◌≤ℤ◌, not, pos, Bool, find, ◌∙◌, ap, none, Option, arith,
  inr, inl, Bool-cases, true, some, ◌≡◌, ℕ,
}
use strikefluency.Models.Terms.{DisciplineRuleCode, SetupTag}
use strikefluency.Strategies.Execute.{
  conclude_rule, first_failing, no_legs, open_position, execute_plan, execute_valid, afford,
  check_strategy_discipline, execute_found,
}
use strikefluency.Strategies.Draft.{is_draft}
use strikefluency.Strategies.Frame.{
  found_or_fail-found, fail_if-passed, Unchanged-refl, Checks, found_or_fail-Checks, checked-Checks,
  service-Checks, fail_if-Checks, EndsWell-after, EndsWell, Unchanged,
}
use strikefluency.Orders.Frame.{SameBooks-refl, SameBooks, get_or_create_today-Keeps}
use strikefluency.Models.Records.{Rows, TradingSession}
use strikefluency.Market.{Env}
use strikefluency.Sessions.{get_or_create_today}
use strikefluency.Action.{ok, insufficient_balance, value_error}
use strikefluency.Strategies.Builder.{validate_strategy}
use strikefluency.Clock.{require_market_open, is_market_open}

pub require_market_open-Checks :
    (now : ℕ) (b : StrategyBook) → Checks b (service (require_market_open now) b)
unfolding require_market_open
require_market_open-Checks now b =
    service-Checks (require_market_open now) b (SameBooks-refl b.rows)

pub require_market_open-opened :
    (now : ℕ) (b c : StrategyBook)
    → service (require_market_open now) b ≡ (done tt, c)
    → is_market_open now ≡ true
unfolding require_market_open
require_market_open-opened now b c h = elim (Bool-cases (is_market_open now)) [
  | inl opened ↦ opened
  | inr shut ↦ absurd (ground arith)
]

conclude_rule-Keeps :
    (env : Env) (strict : Bool) (o : Option DisciplineRuleCode) (s : Rows)
    → SameBooks s (if strict then conclude_rule env o s else (ok tt, s)).1
conclude_rule-Keeps env false o s = SameBooks-refl s
conclude_rule-Keeps env true none s = SameBooks-refl s
conclude_rule-Keeps env true (some code) s = ground arith

check_strategy_discipline-Keeps :
    (env : Env) (tag : Option SetupTag) (session : TradingSession) (s : Rows)
    → SameBooks s (check_strategy_discipline env tag session s).1
unfolding check_strategy_discipline
check_strategy_discipline-Keeps env tag session s =
    conclude_rule-Keeps env s.account.discipline_mode_enabled
      (first_failing s.rules tag session s.account) s

afford-Checks : (margin : ℕ) (b : StrategyBook) → Checks b (afford margin b)
unfolding afford
afford-Checks margin b = Unchanged-refl b

afford-passed :
    (margin : ℕ) (b c : StrategyBook)
    → afford margin b ≡ (done tt, c)
    → pos margin ≤ℤ b.rows.account.balance
unfolding afford
afford-passed margin b c h =
    let enough =
      fail_if-passed (ltb_ℤ b.rows.account.balance (pos margin)) (raised insufficient_balance) b c
        h in
    (ltb_ℤ_iff b.rows.account.balance (pos margin)).1 enough

not-false : (c : Bool) → not c ≡ false → c ≡ true
not-false c h = ground arith

-- What follows the checks: the position is opened for a plan that stands.
abbrev pub Opens :
    (StrategyBook → StrategyPosition → StrategyBook → Type 0) → Desk → StrategyRow → Type 0
Opens Good desk orm =
    (session : TradingSession) (plan : ExecutionPlan) (b : StrategyBook)
    → plan_execution desk (to_domain orm) ≡ some plan
    → is_none_left plan.problems ≡ true
    → pos plan.margin ≤ℤ b.rows.account.balance
    → find (strategy_has_id orm.id) b.strategies ≡ some orm
    → EndsWell Good b (open_position desk orm plan session b)

module _ (Good : StrategyBook → StrategyPosition → StrategyBook → Type 0)
    (shift : (b c : StrategyBook) (p : StrategyPosition) (d : StrategyBook)
      → Unchanged b c
      → Good c p d
      → Good b p d)
    (desk : Desk) (orm : StrategyRow) (opens : Opens Good desk orm) where
  find_kept :
      (b c : StrategyBook)
      → Unchanged b c
      → find (strategy_has_id orm.id) b.strategies ≡ some orm
      → find (strategy_has_id orm.id) c.strategies ≡ some orm
  find_kept b c h found = ap (find (strategy_has_id orm.id)) h.strategies_eq ∙ found

  module _ (session : TradingSession) where
    gate_then : ExecutionPlan → Run StrategyPosition
    gate_then plan = do
      service (check_strategy_discipline desk.env orm.setup_tag session)
      open_position desk orm plan session

    gate_then-EndsWell :
        (plan : ExecutionPlan) (b : StrategyBook)
        → plan_execution desk (to_domain orm) ≡ some plan
        → is_none_left plan.problems ≡ true
        → pos plan.margin ≤ℤ b.rows.account.balance
        → find (strategy_has_id orm.id) b.strategies ≡ some orm
        → EndsWell Good b (gate_then plan b)
    unfolding gate_then
    gate_then-EndsWell plan b planned priced enough found =
        let gate = check_strategy_discipline desk.env orm.setup_tag session in
        EndsWell-after Good shift (service gate) (λ _. open_position desk orm plan session) b
          (service-Checks gate b
            (check_strategy_discipline-Keeps desk.env orm.setup_tag session b.rows))
          (λ _ c e h.
            opens session plan c planned priced (rw h.books_eq.account_eq enough)
              (find_kept b c h found))

    execute_plan-EndsWell :
        (plan : ExecutionPlan) (b : StrategyBook)
        → plan_execution desk (to_domain orm) ≡ some plan
        → find (strategy_has_id orm.id) b.strategies ≡ some orm
        → EndsWell Good b (execute_plan desk orm session plan b)
    unfolding execute_plan gate_then
    execute_plan-EndsWell plan b planned found =
        let unpriced = not (is_none_left plan.problems) in
        EndsWell-after Good shift (fail_if unpriced unpriceable)
          (λ _. afford plan.margin >> gate_then plan) b (fail_if-Checks unpriced unpriceable b)
          (λ _ c e h.
            EndsWell-after Good shift (afford plan.margin) (λ _. gate_then plan) c
              (afford-Checks plan.margin c)
              (λ _ d e' h'.
                gate_then-EndsWell plan d planned
                  (not-false _ (fail_if-passed unpriced unpriceable b c e))
                  (rw h'.books_eq.account_eq (afford-passed plan.margin c d e'))
                  (find_kept c d h' (find_kept b c h found))))

    execute_valid-EndsWell :
        (b : StrategyBook)
        → find (strategy_has_id orm.id) b.strategies ≡ some orm
        → EndsWell Good b (execute_valid desk orm session b)
    unfolding execute_valid
    execute_valid-EndsWell b found =
        let plan = plan_execution desk (to_domain orm) in
        let planning = found_or_fail (raised value_error) plan in
        EndsWell-after Good shift (checked (validate_strategy (to_domain orm)))
          (λ _. planning >>= execute_plan desk orm session) b
          (checked-Checks (validate_strategy (to_domain orm)) b)
          (λ _ c e h.
            EndsWell-after Good shift planning (execute_plan desk orm session) c
              (found_or_fail-Checks (raised value_error) plan c)
              (λ p d e' h'.
                execute_plan-EndsWell p d (found_or_fail-found (raised value_error) plan c d p e')
                  (find_kept c d h' (find_kept b c h found))))

  pub execute_found-EndsWell :
      (b : StrategyBook)
      → find (strategy_has_id orm.id) b.strategies ≡ some orm
      → EndsWell Good b (execute_found desk orm b)
  unfolding execute_found
  execute_found-EndsWell b found =
      let today = service (get_or_create_today desk.env.today) in
      EndsWell-after Good shift (fail_if (not (is_draft orm.status)) not_a_draft_any_more)
        (λ _. fail_if (no_legs orm.legs) empty_strategy >> (today >>= execute_valid desk orm)) b
        (fail_if-Checks (not (is_draft orm.status)) not_a_draft_any_more b)
        (λ _ c e h.
          EndsWell-after Good shift (fail_if (no_legs orm.legs) empty_strategy)
            (λ _. today >>= execute_valid desk orm) c
            (fail_if-Checks (no_legs orm.legs) empty_strategy c)
            (λ _ d e' h'.
              EndsWell-after Good shift today (execute_valid desk orm) d
                (service-Checks (get_or_create_today desk.env.today) d
                  (get_or_create_today-Keeps desk.env.today d.rows))
                (λ session f e'' h''.
                  execute_valid-EndsWell session f
                    (find_kept d f h'' (find_kept c d h' (find_kept b c h found))))))
