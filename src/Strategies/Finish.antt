-- ===== src/Strategies/Finish.antt =====
-- The rest of a square-off once the legs are priced: the position, the account and the strategy.
use strikefluency.Strategies.LegIds.{HasNewIds}
use strikefluency.Strategies.Book.{
  flush_book, update, Run, ◌>>◌, done, of_strategy, set_strategy, strategy_position_of,
  strategy_has_id, StrategyBook, LegRow, StrategyPosition, StrategyRow,
}
use strikefluency.Prelude.{
  if◌then◌else◌, modify_first, find-holds, ==_iff, find-modify_first, inl, ◌≤ℤ◌, ap, refl, [], inr,
  true, Bool-cases, ◌∷◌, false, some, int_laws, map, exists, find, ◌∙◌, All, ◌+ℤ◌, List, pos, ◌≡◌,
  ℤ,
}
use strikefluency.Strategies.Quote.{Desk}
use strikefluency.Models.Terms.{ExitReason, Instrument}
use strikefluency.Strategies.Closing.{
  >>=-done, SweptLegs, closed_at_price, close_open_legs-SweptLegs, after_exit, result_of, HasExit,
}
use strikefluency.Strategies.SquareOff.{
  close_open_legs, ended, pay_out_open, close_if_all_legs_done, pay_out, square_off_found,
  close_strategy, realize, net_of, add_realized,
}
use strikefluency.Strategies.Exit.{row_is_open}
use strikefluency.Ledger.Balance.{IsReconciled}
use strikefluency.Strategies.Draft.{StrategyStatus, is_executed}
use strikefluency.Models.Records.{flush}
use strikefluency.Strategies.Paying.{pay_out-PaidOut, PaidOut}

module _ (desk : Desk) (u : Instrument) where
  after_exit-closed :
      (row : LegRow) → HasExit desk u row → row_is_open (after_exit desk u row).0 ≡ false
  after_exit-closed row h = elim (Bool-cases (row_is_open row)) [
    | inr shut ↦
        let same : after_exit desk u row ≡ (row, pos 0) = rw shut refl in
        ap (λ x. row_is_open x.0) same ∙ shut
    | inl live ↦
        let (ltp, e) = h live in
        let same : after_exit desk u row ≡ closed_at_price desk u row (some ltp) =
          rw live (rw e refl) in
        ap (λ x. row_is_open x.0) same
  ]

  none_open :
      (legs : List LegRow)
      → All (HasExit desk u) legs
      → exists row_is_open (map (λ row. (after_exit desk u row).0) legs) ≡ false
  none_open [] h = refl
  none_open (row ∷ legs) (h, hs) = rw (after_exit-closed row h) (none_open legs hs)

-- The position with what the legs have realized.
abbrev pub settled_position : Desk → StrategyRow → StrategyPosition → StrategyPosition
settled_position desk orm p = add_realized (result_of desk orm.underlying orm.legs) p

-- After a square-off: the account has the margin and the net result, the position has ended, and
-- the strategy is closed with every leg.
pub record SquaredOff (desk : Desk) (orm : StrategyRow) (p : StrategyPosition) (b b' : StrategyBook)
    : Type 0 where
  pub balance_eq :
      b'.rows.account.balance
      ≡ b.rows.account.balance +ℤ pos p.margin_blocked +ℤ net_of (settled_position desk orm p)
  pub reconciled : IsReconciled b.rows → IsReconciled b'.rows
  pub ended_position :
      (q : StrategyPosition) × (strategy_position_of orm.id b' ≡ some q) × (q.is_open ≡ false)
  pub closed_strategy :
      (o : StrategyRow) × (find (strategy_has_id orm.id) b'.strategies ≡ some o)
      × (o.status ≡ StrategyStatus.strategy_closed)
      × (exists row_is_open o.legs ≡ false)

pay_out_open-live :
    (desk : Desk) (q : StrategyPosition) (b : StrategyBook)
    → q.is_open ≡ true
    → pay_out_open desk (some q) b ≡ pay_out desk q b
pay_out_open-live desk q b h = ap (λ c. if c then pay_out desk q b else (done tt, b)) h

zero_left : (r t : ℤ) → t ≡ pos 0 +ℤ r → t ≡ r
zero_left r t h = h ∙ omega int_laws

module _ (desk : Desk) (reason : ExitReason) (orm : StrategyRow) (p : StrategyPosition)
    (b : StrategyBook) (found : find (strategy_has_id orm.id) b.strategies ≡ some orm)
    (executed : is_executed orm.status ≡ true) (distinct : HasNewIds [] orm.legs)
    (priced : All (HasExit desk orm.underlying) orm.legs)
    (held : strategy_position_of orm.id b ≡ some p) (open_before : p.is_open ≡ true)
    (floor : pos 0 ≤ℤ b.rows.account.balance)
    (covered : pos 0
      ≤ℤ b.rows.account.balance
        +ℤ pos p.margin_blocked
        +ℤ net_of (settled_position desk orm p)) where
  pub swept : SweptLegs desk reason [] orm.legs orm (pos 0) b
  swept =
      close_open_legs-SweptLegs desk reason orm.legs [] orm (pos 0) b refl distinct priced
        (orm, found)

  total-eq : swept.total_after ≡ result_of desk orm.underlying orm.legs
  total-eq = zero_left _ _ swept.total_eq

  abbrev pub realized_book : StrategyBook
  realized_book = realize orm.id swept.total_after swept.book_after

  abbrev pub closed_book : StrategyBook
  closed_book = set_strategy (close_strategy swept.orm_after) realized_book

  shut : exists row_is_open swept.orm_after.legs ≡ false
  shut = ap (exists row_is_open) swept.legs_eq ∙ none_open desk orm.underlying orm.legs priced

  realized_position : strategy_position_of orm.id realized_book ≡ some (settled_position desk orm p)
  realized_position =
      find-modify_first (of_strategy orm.id) (add_realized swept.total_after) p
        swept.book_after.positions (ap (find (of_strategy orm.id)) swept.positions_eq ∙ held)
        (find-holds (of_strategy orm.id) b.positions p held)
      ∙ ap (λ t. some (add_realized t p)) total-eq

  position_then :
      strategy_position_of swept.orm_after.id closed_book ≡ some (settled_position desk orm p)
  position_then = ap (λ i. strategy_position_of i closed_book) swept.id_eq ∙ realized_position

  pub paid :
      (b' : StrategyBook) × (pay_out desk (settled_position desk orm p) closed_book ≡ (done tt, b'))
      × PaidOut (settled_position desk orm p) closed_book b'
  paid =
      pay_out-PaidOut desk (settled_position desk orm p) closed_book (rw swept.money.0 floor)
        (rw swept.money.0 covered)

  abbrev pub book_end : StrategyBook
  book_end = record (paid.0) { rows = flush (paid.0).rows }

  closes : close_if_all_legs_done desk swept.orm_after realized_book ≡ (done tt, paid.0)
  unfolding close_if_all_legs_done
  closes = rw shut (
      ap (λ q. pay_out_open desk q closed_book) position_then
      ∙ pay_out_open-live desk (settled_position desk orm p) closed_book open_before
      ∙ paid.1)

  owner : p.strategy_id ≡ orm.id
  owner = (==_iff p.strategy_id orm.id).0 (find-holds (of_strategy orm.id) b.positions p held)

  pub ending : SquaredOff desk orm p b book_end
  ending = record {
    balance_eq =
        paid.2.balance_eq
        ∙ ap (λ a. a.balance +ℤ pos p.margin_blocked +ℤ net_of (settled_position desk orm p))
            swept.money.0;
    reconciled = λ r. paid.2.reconciled (rw swept.money.0 (rw swept.money.1 r));
    ended_position =
        let (now, moved) = paid.2.positions_eq in
        let gone = ended now (settled_position desk orm p) in
        (
          gone,
          ap (find (of_strategy orm.id)) moved
              ∙ ap
                  (λ i.
                    find (of_strategy orm.id)
                      (modify_first (of_strategy i) (λ _. gone) closed_book.positions))
                  owner
              ∙ find-modify_first (of_strategy orm.id) (λ _. gone) (settled_position desk orm p)
                  closed_book.positions realized_position
                  (find-holds (of_strategy orm.id) closed_book.positions
                    (settled_position desk orm p) realized_position),
          refl,
        );
    closed_strategy =
        let o = close_strategy swept.orm_after in
        (
          o,
          ap (find (strategy_has_id orm.id)) paid.2.strategies_eq
              ∙ ap
                  (λ i.
                    find (strategy_has_id orm.id)
                      (modify_first (strategy_has_id i) (λ _. o) realized_book.strategies))
                  swept.id_eq
              ∙ find-modify_first (strategy_has_id orm.id) (λ _. o) swept.there.0
                  realized_book.strategies swept.there.1 ((==_iff _ _).1 swept.id_eq),
          refl,
          shut,
        );
  }

  pub runs : square_off_found desk reason orm b ≡ (done tt, book_end)
  unfolding square_off_found
  runs = rw executed (
      >>=-done (close_open_legs desk reason orm.legs (orm, pos 0)) (λ closing. after_legs closing) b
        swept.book_after (swept.orm_after, swept.total_after) swept.ends
      ∙ >>=-done (close_if_all_legs_done desk swept.orm_after) (λ _. flush_book) realized_book
          paid.0 tt closes)
    where
      after_legs : StrategyRow × ℤ → Run (Unit {0})
      after_legs closing = do
        update (realize orm.id closing.1)
        close_if_all_legs_done desk closing.0
        flush_book
