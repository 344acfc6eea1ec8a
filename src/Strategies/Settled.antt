-- ===== src/Strategies/Settled.antt =====
-- `square_off` of an executed strategy, from the first leg to the account.
use strikefluency.Strategies.LegIds.{HasNewIds}
use strikefluency.Strategies.SquareOff.{square_off}
use strikefluency.Strategies.Book.{
  service, not_executed, fails, get_strategy, done, strategy_position_of, strategy_has_id,
  StrategyBook, StrategyPosition, StrategyRow, ◌>>=◌,
}
use strikefluency.Prelude.{ℕ, ◌≤ℤ◌, ap, refl, [], true, false, some, find, ◌∙◌, All, ◌+ℤ◌, pos, ◌≡◌}
use strikefluency.Strategies.Quote.{Desk}
use strikefluency.Models.Terms.{ExitReason}
use strikefluency.Strategies.Closing.{>>=-done, HasExit}
use strikefluency.Strategies.SquareOff.{square_off_found, net_of}
use strikefluency.Strategies.Draft.{StrategyStatus, is_executed}
use strikefluency.Clock.{is_market_open, require_market_open}
use strikefluency.Strategies.Finish.{runs, ending, book_end, SquaredOff, settled_position}

market_opened :
    (now : ℕ) (b : StrategyBook)
    → is_market_open now ≡ true
    → service (require_market_open now) b ≡ (done tt, b)
unfolding require_market_open
market_opened now b h = rw h refl

get_strategy-found :
    (id : ℕ) (o : StrategyRow) (b : StrategyBook)
    → find (strategy_has_id id) b.strategies ≡ some o
    → get_strategy id b ≡ (done o, b)
unfolding get_strategy
get_strategy-found id o b h = rw h refl

square_off-found :
    (desk : Desk) (reason : ExitReason) (id : ℕ) (o : StrategyRow) (b : StrategyBook)
    → is_market_open desk.env.now ≡ true
    → find (strategy_has_id id) b.strategies ≡ some o
    → square_off desk reason id b ≡ square_off_found desk reason o b
unfolding square_off
square_off-found desk reason id o b opened found =
    >>=-done (service (require_market_open desk.env.now))
      (λ _. get_strategy id >>= square_off_found desk reason) b b tt
      (market_opened desk.env.now b opened)
    ∙ >>=-done (get_strategy id) (square_off_found desk reason) b b o
        (get_strategy-found id o b found)

closed-is_executed :
    (status : StrategyStatus) → status ≡ StrategyStatus.strategy_closed → is_executed status ≡ false
closed-is_executed status h = rw h refl

refused_again :
    (desk : Desk) (reason : ExitReason) (o : StrategyRow) (b : StrategyBook)
    → is_executed o.status ≡ false
    → (square_off_found desk reason o b).0 ≡ fails not_executed
unfolding square_off_found
refused_again desk reason o b h = rw h refl

-- While the market is open, the square-off of an executed strategy with an open position, whose
-- legs have different ids and each a price to close at, returns, if the balance together with the
-- margin covers the net result: the balance has then the blocked margin and the net result, which
-- is what the closed legs realized less the brokerage, to the paisa, and still agrees with the
-- ledger; the position is no longer open, and the strategy is closed with no leg open. A second
-- square-off is refused, so the margin comes back once.
pub square_off-SquaredOff :
    (desk : Desk) (reason : ExitReason) (orm : StrategyRow) (p : StrategyPosition)
    (b : StrategyBook)
    → is_market_open desk.env.now ≡ true
    → find (strategy_has_id orm.id) b.strategies ≡ some orm
    → is_executed orm.status ≡ true
    → HasNewIds [] orm.legs
    → All (HasExit desk orm.underlying) orm.legs
    → strategy_position_of orm.id b ≡ some p
    → p.is_open ≡ true
    → pos 0 ≤ℤ b.rows.account.balance
    → pos 0
      ≤ℤ b.rows.account.balance +ℤ pos p.margin_blocked +ℤ net_of (settled_position desk orm p)
    → (b' : StrategyBook) × (square_off desk reason orm.id b ≡ (done tt, b'))
      × SquaredOff desk orm p b b'
      × ((square_off desk reason orm.id b').0 ≡ fails not_executed)
square_off-SquaredOff desk reason orm p b opened found executed distinct priced held live floor
      covered =
    let b' = book_end desk reason orm p b found executed distinct priced held live floor covered in
    let after = ending desk reason orm p b found executed distinct priced held live floor covered in
    let (o, there, status, shut_legs) = after.closed_strategy in
    (
      b',
      square_off-found desk reason orm.id orm b opened found
          ∙ runs desk reason orm p b found executed distinct priced held live floor covered,
      after,
      ap (λ r. r.0) (square_off-found desk reason orm.id o b' opened there)
          ∙ refused_again desk reason o b' (closed-is_executed o.status status),
    )
