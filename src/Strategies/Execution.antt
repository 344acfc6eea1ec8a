-- ===== src/Strategies/Execution.antt =====
-- `execute_strategy` as its caller sees it.
use strikefluency.Strategies.Book.{
  get_strategy, raised, service, strategy_has_id, StrategyPosition, StrategyBook, StrategyRow,
  ◌>>=◌,
}
use strikefluency.Strategies.Quote.{Desk}
use strikefluency.Prelude.{
  find-holds, ==_iff, sym, find, ◌∙◌, ap, refl, inr, inl, Bool-cases, true, some, ◌≡◌, ℕ,
}
use strikefluency.Strategies.Executed.{open_position-Executed, Executed, Executed-shift}
use strikefluency.Strategies.Execute.{execute_strategy, execute_found}
use strikefluency.Strategies.Draft.{is_draft}
use strikefluency.Strategies.Frame.{
  EndsWell-weaken, found_or_fail-found, found_or_fail-Checks, EndsWell-after, EndsWell, Unchanged,
}
use strikefluency.Action.{order_not_found}
use strikefluency.Clock.{require_market_open, is_market_open}
use strikefluency.Strategies.Checking.{
  require_market_open-opened, Opens, execute_found-EndsWell, require_market_open-Checks,
}
use strikefluency.Strategies.Filled.{plan_execution-AllFilled}

Opens-Executed : (desk : Desk) (orm : StrategyRow) → Opens (Executed orm) desk orm
Opens-Executed desk orm session plan b planned priced enough found =
    open_position-Executed desk orm plan session b found
      (plan_execution-AllFilled desk orm plan planned priced) enough

-- The strategy that the call found, a draft, and what it left.
abbrev pub ExecutedDraft : Desk → ℕ → StrategyBook → StrategyPosition → StrategyBook → Type 0
ExecutedDraft desk id b p b' =
    (orm : StrategyRow) × (find (strategy_has_id id) b.strategies ≡ some orm)
    × (is_draft orm.status ≡ true)
    × (is_market_open desk.env.now ≡ true)
    × Executed orm b p b'

module _ (desk : Desk) (id : ℕ) where
  ExecutedDraft-shift :
      (b c : StrategyBook) (p : StrategyPosition) (d : StrategyBook)
      → Unchanged b c
      → ExecutedDraft desk id c p d
      → ExecutedDraft desk id b p d
  ExecutedDraft-shift b c p d h (orm, found, fresh, opened, k) =
      let before = ap (find (strategy_has_id id)) (sym h.strategies_eq) ∙ found in
      (orm, before, fresh, opened, Executed-shift orm b c p d h k)

  from_found :
      (orm : StrategyRow) (b : StrategyBook)
      → find (strategy_has_id id) b.strategies ≡ some orm
      → is_market_open desk.env.now ≡ true
      → EndsWell (ExecutedDraft desk id) b (execute_found desk orm b)
  unfolding execute_found
  from_found orm b found opened = elim (Bool-cases (is_draft orm.status)) [
    | inr other ↦ rw other (refl, refl)
    | inl fresh ↦
        let same : orm.id ≡ id =
          (==_iff orm.id id).0 (find-holds (strategy_has_id id) b.strategies orm found) in
        EndsWell-weaken (Executed orm) (ExecutedDraft desk id) b (execute_found desk orm b)
          (λ p c k. (orm, found, fresh, opened, k))
          (execute_found-EndsWell (Executed orm) (Executed-shift orm) desk orm
            (Opens-Executed desk orm) b
            (ap (λ i. find (strategy_has_id i) b.strategies) same ∙ found))
  ]

  -- A call of `execute_strategy` either fails, with the account and the ledger as they were; or it
  -- found a draft of the given id while the market was open, and leaves that strategy executed with
  -- every leg open and one more position, open and of that strategy, and the balance has paid the
  -- position's margin, which is not zero, to the paisa, is not below zero, and still agrees with
  -- the ledger.
  pub execute_strategy-ends :
      (b : StrategyBook) → EndsWell (ExecutedDraft desk id) b (execute_strategy desk id b)
  unfolding execute_strategy get_strategy
  execute_strategy-ends b =
      EndsWell-after (ExecutedDraft desk id) ExecutedDraft-shift
        (service (require_market_open desk.env.now)) (λ _. get_strategy id >>= execute_found desk) b
        (require_market_open-Checks desk.env.now b)
        (λ _ c e h.
          EndsWell-after (ExecutedDraft desk id) ExecutedDraft-shift (get_strategy id)
            (execute_found desk) c
            (found_or_fail-Checks (raised order_not_found) (find (strategy_has_id id) c.strategies)
              c)
            (λ orm d e' h'.
              from_found orm d
                (ap (find (strategy_has_id id)) h'.strategies_eq
                  ∙ found_or_fail-found (raised order_not_found)
                      (find (strategy_has_id id) c.strategies) c d orm e')
                (require_market_open-opened desk.env.now b c e)))
