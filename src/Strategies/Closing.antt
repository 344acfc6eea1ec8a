-- ===== src/Strategies/Closing.antt =====
-- The loop of `square_off`: every open leg of the strategy is closed at its price, and the results
-- are summed.
use strikefluency.Strategies.Book.{
  done_with, Run, set_strategy, strategy_has_id, done, StrategyBook, LegRow, StrategyRow, ◌>>=◌,
}
use strikefluency.Strategies.Exit.{
  close_found_mirror, mirrors, close_mirrored_order, realized_of, closed_leg, set_leg, exit_fill,
  exit_ltp_for, leg_has_id, row_is_open, close_single_leg,
}
use strikefluency.Prelude.{
  find-modify_first, inl, inr, Bool-cases, int_laws, sym, ◌∙◌, All, find, modify_first, refl, ap,
  arith, false, none, some, true, ◌+ℤ◌, [], if◌then◌else◌, pos, ◌≡◌, Option, map, ℤ, ◌++◌, ◌∷◌,
  List, ℕ,
}
use strikefluency.Strategies.Quote.{Desk}
use strikefluency.Models.Terms.{ExitReason, Instrument}
use strikefluency.Strategies.SquareOff.{close_if, close_open_legs}
use strikefluency.Strategies.Frame.{KeepsMoney}
use strikefluency.Models.Records.{Rows, VirtualOrder}
use strikefluency.Strategies.LegIds.{
  modify_first-middle, ids_of-snoc, exists-ids, ids_of, HasNewIds, append_snoc,
}

module _ (desk : Desk) (u : Instrument) where
  -- A leg and its result once it is closed at a price that it may have.
  abbrev pub closed_at_price : LegRow → Option ℕ → LegRow × ℤ
  closed_at_price row none = (row, pos 0)
  closed_at_price row (some ltp) =
      let fill = exit_fill desk u row ltp in
      (closed_leg desk.env.now row fill, realized_of row fill)

  abbrev pub after_exit : LegRow → LegRow × ℤ
  after_exit row =
      if row_is_open row then closed_at_price row (exit_ltp_for desk u row none) else (row, pos 0)

  -- What closing the open legs realizes.
  abbrev pub result_of : List LegRow → ℤ
  result_of [] = pos 0
  result_of (row ∷ legs) = (after_exit row).1 +ℤ result_of legs

  -- An open leg has a price to close at.
  abbrev pub HasExit : LegRow → Type 0
  HasExit row = row_is_open row ≡ true → (ltp : ℕ) × (exit_ltp_for desk u row none ≡ some ltp)

  exits : List LegRow → List LegRow
  exits legs = map (λ row. (after_exit row).0) legs

-- How the loop over `legs` ends, for a strategy whose legs are `front` and those.
pub record SweptLegs (desk : Desk) (reason : ExitReason) (front legs : List LegRow)
    (orm : StrategyRow) (total : ℤ) (b : StrategyBook) : Type 0 where
  pub orm_after : StrategyRow
  pub total_after : ℤ
  pub book_after : StrategyBook
  pub ends :
      close_open_legs desk reason legs (orm, total) b ≡ (done (orm_after, total_after), book_after)
  pub id_eq : orm_after.id ≡ orm.id
  pub legs_eq : orm_after.legs ≡ front ++ map (λ row. (after_exit desk orm.underlying row).0) legs
  pub total_eq : total_after ≡ total +ℤ result_of desk orm.underlying legs
  pub money : KeepsMoney b book_after
  pub positions_eq : book_after.positions ≡ b.positions
  pub there : (o : StrategyRow) × (find (strategy_has_id orm.id) book_after.strategies ≡ some o)

close_single_leg-priced :
    (desk : Desk) (orm : StrategyRow) (row : LegRow) (reason : ExitReason) (b : StrategyBook)
    (ltp : ℕ)
    → exit_ltp_for desk orm.underlying row none ≡ some ltp
    → let fill = exit_fill desk orm.underlying row ltp in
      let orm' = set_leg (closed_leg desk.env.now row fill) orm in
      close_single_leg desk orm row none reason b ≡ (
        done (orm', realized_of row fill),
        record (set_strategy orm' b) {
          rows =
              close_mirrored_order desk.env.now orm.id row fill
                (realized_of row fill)
                reason
                b.rows;
        },
      )
unfolding close_single_leg
close_single_leg-priced desk orm row reason b ltp h = rw h refl

close_found_mirror-money :
    (now fill : ℕ) (realized : ℤ) (reason : ExitReason) (o : Option VirtualOrder) (s : Rows)
    → ((close_found_mirror now fill realized reason o s).account ≡ s.account)
      × ((close_found_mirror now fill realized reason o s).ledger ≡ s.ledger)
close_found_mirror-money now fill realized reason none s = (refl, refl)
close_found_mirror-money now fill realized reason (some o) s = (refl, refl)

close_mirrored_order-money :
    (now id : ℕ) (row : LegRow) (fill : ℕ) (realized : ℤ) (reason : ExitReason) (s : Rows)
    → ((close_mirrored_order now id row fill realized reason s).account ≡ s.account)
      × ((close_mirrored_order now id row fill realized reason s).ledger ≡ s.ledger)
unfolding close_mirrored_order
close_mirrored_order-money now id row fill realized reason s =
    close_found_mirror-money now fill realized reason (find (mirrors id row) s.db_orders) s

pub >>=-done :
    {A B : Type 0} (m : Run A) (f : A → Run B) (b c : StrategyBook) (a : A)
    → m b ≡ (done a, c)
    → (m >>= f) b ≡ f a c
>>=-done m f b c a h = ap (λ p. ((λ _. p) >>= f) b) h

sum_zero : (t : ℤ) → t ≡ t +ℤ pos 0
sum_zero t = omega int_laws

sum_skip : (t r e : ℤ) → e ≡ pos 0 → t +ℤ r ≡ t +ℤ (e +ℤ r)
sum_skip t r e h = rw h (omega int_laws)

sum_step : (t r e x : ℤ) → e ≡ x → t +ℤ x +ℤ r ≡ t +ℤ (e +ℤ r)
sum_step t r e x h = rw h (omega int_laws)

module _ (desk : Desk) (reason : ExitReason) (front legs : List LegRow) (row : LegRow)
    (orm : StrategyRow) (total : ℤ) (b : StrategyBook) where
  abbrev rest_after : List LegRow
  rest_after = map (λ r. (after_exit desk orm.underlying r).0) legs

  skip-SweptLegs :
      row_is_open row ≡ false
      → SweptLegs desk reason (front ++ (row ∷ [])) legs orm total b
      → SweptLegs desk reason front (row ∷ legs) orm total b
  unfolding close_open_legs
  skip-SweptLegs shut h =
      let same : after_exit desk orm.underlying row ≡ (row, pos 0) = rw shut refl in
      record {
        orm_after = h.orm_after;
        total_after = h.total_after;
        book_after = h.book_after;
        ends = rw shut h.ends;
        id_eq = h.id_eq;
        legs_eq =
            h.legs_eq
            ∙ sym (append_snoc front rest_after row)
            ∙ ap (λ x. front ++ (x.0 ∷ rest_after)) (sym same);
        total_eq =
            h.total_eq
            ∙ sum_skip total (result_of desk orm.underlying legs)
                (after_exit desk orm.underlying row).1 (ap (λ x. x.1) same);
        money = h.money;
        positions_eq = h.positions_eq;
        there = h.there;
      }

  module _ (ltp : ℕ) where
    abbrev fill_now : ℕ
    fill_now = exit_fill desk orm.underlying row ltp

    abbrev closed_now : LegRow
    closed_now = closed_leg desk.env.now row fill_now

    abbrev orm_now : StrategyRow
    orm_now = set_leg closed_now orm

    abbrev book_now : StrategyBook
    book_now = record (set_strategy orm_now b) {
      rows =
          close_mirrored_order desk.env.now orm.id row fill_now (realized_of row fill_now) reason
            b.rows;
    }

    close-SweptLegs :
        row_is_open row ≡ true
        → exit_ltp_for desk orm.underlying row none ≡ some ltp
        → SweptLegs desk reason
            (front ++ (closed_now ∷ []))
            legs
            orm_now
            (total +ℤ realized_of row fill_now)
            book_now
        → SweptLegs desk reason front (row ∷ legs) orm total b
    unfolding close_open_legs
    close-SweptLegs live e h =
        let same : after_exit desk orm.underlying row ≡ (closed_now, realized_of row fill_now) =
          rw live (rw e refl) in
        let money =
          close_mirrored_order-money desk.env.now orm.id row fill_now (realized_of row fill_now)
            reason b.rows in
        let closing : close_if true desk reason row (orm, total) b
            ≡ (done (orm_now, total +ℤ realized_of row fill_now), book_now) =
          >>=-done (close_single_leg desk orm row none reason) (λ c. done_with (c.0, total +ℤ c.1))
            b book_now (orm_now, realized_of row fill_now)
            (close_single_leg-priced desk orm row reason b ltp e) in
        record {
          orm_after = h.orm_after;
          total_after = h.total_after;
          book_after = h.book_after;
          ends =
              >>=-done (close_if (row_is_open row) desk reason row (orm, total))
                (close_open_legs desk reason legs) b book_now
                (orm_now, total +ℤ realized_of row fill_now) (rw live closing)
              ∙ h.ends;
          id_eq = h.id_eq;
          legs_eq =
              h.legs_eq
              ∙ sym (append_snoc front rest_after closed_now)
              ∙ ap (λ x. front ++ (x.0 ∷ rest_after)) (sym same);
          total_eq =
              h.total_eq
              ∙ sum_step total (result_of desk orm.underlying legs)
                  (after_exit desk orm.underlying row).1 (realized_of row fill_now)
                  (ap (λ x. x.1) same);
          money = (h.money.0 ∙ money.0, h.money.1 ∙ money.1);
          positions_eq = h.positions_eq;
          there = h.there;
        }

module _ (desk : Desk) (reason : ExitReason) where
  pub close_open_legs-SweptLegs :
      (legs front : List LegRow) (orm : StrategyRow) (total : ℤ) (b : StrategyBook)
      → orm.legs ≡ front ++ legs
      → HasNewIds (ids_of front) legs
      → All (HasExit desk orm.underlying) legs
      → ((o : StrategyRow) × (find (strategy_has_id orm.id) b.strategies ≡ some o))
      → SweptLegs desk reason front legs orm total b
  unfolding close_open_legs
  close_open_legs-SweptLegs [] front orm total b same new priced there = record {
    orm_after = orm;
    total_after = total;
    book_after = b;
    ends = refl;
    id_eq = refl;
    legs_eq = same;
    total_eq = sum_zero total;
    money = (refl, refl);
    positions_eq = refl;
    there = there;
  }
  close_open_legs-SweptLegs (row ∷ legs) front orm total b same (new, news) (priced, rest) there =
      let fresh = sym (exists-ids row.id front) ∙ new in
      elim (Bool-cases (row_is_open row)) [
        | inr shut ↦ skip-SweptLegs desk reason front legs row orm total b shut (
            close_open_legs-SweptLegs legs (front ++ (row ∷ [])) orm total b
              (same ∙ append_snoc front legs row) (rw (ids_of-snoc front row) news) rest there)
        | inl live ↦
            let (ltp, e) = priced live in
            let closed = closed_now desk reason front legs row orm total b ltp in
            let orm' = orm_now desk reason front legs row orm total b ltp in
            close-SweptLegs desk reason front legs row orm total b ltp live e (
              close_open_legs-SweptLegs legs (front ++ (closed ∷ [])) orm'
                (total +ℤ realized_of row (exit_fill desk orm.underlying row ltp))
                (book_now desk reason front legs row orm total b ltp)
                (ap (modify_first (leg_has_id row.id) (λ _. closed)) same
                  ∙ modify_first-middle row.id closed row front legs fresh refl
                  ∙ append_snoc front legs closed)
                (rw (ids_of-snoc front closed) news) rest
                (
                  orm',
                  find-modify_first (strategy_has_id orm.id) (λ _. orm') there.0 b.strategies
                      there.1 (ground arith),
                ))
      ]
