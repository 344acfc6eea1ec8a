-- ===== src/Strategies/Executed.antt =====
-- What an execution leaves: an executed strategy with all its legs open, a position, and a balance
-- that paid the margin.
use strikefluency.Strategies.Book.{done_with, flush_book, service, from_result, Run, ◌>>◌}
use mathlib.Core.Path.{subst}
use strikefluency.Action.{Result, ok, modify}
use strikefluency.Prelude.{
  zero, int_laws, suc, sym, find-modify_first, ◌≢◌, inr, inl, none, ◌≤ℤ◌, arith, find, pos, refl,
  ◌++◌, [], ap, map, neg, some, ◌+ℤ◌, ◌∙◌, ◌∷◌, All, Option, true, ◌<◌, ◌≡◌, List, ℕ,
}
use strikefluency.Strategies.Book.{
  strategy_has_id, LegRow, StrategyPosition, StrategyBook, StrategyRow,
}
use strikefluency.Strategies.Quote.{Desk}
use strikefluency.Strategies.Execute.{
  position_for, open_leg, exec_spot, fill_for, mirror_with, executed_row, open_position, written,
  mirror_legs, mirror_order,
}
use strikefluency.Strategies.Draft.{is_executed}
use strikefluency.Market.{Env}
use strikefluency.Strategies.Plan.{ExecutionPlan, LegFill}
use strikefluency.Models.Records.{Rows, TradingSession}
use strikefluency.Strategies.Frame.{KeepsMoney, EndsWell, Unchanged}
use strikefluency.Strategies.Exit.{row_is_open}
use strikefluency.Ledger.{ledger_row, apply_row, block_margin}
use strikefluency.Sessions.{increment_trade_count, set_session}
use strikefluency.Ledger.Balance.{apply_row-IsReconciled, post_cases, post-flat, IsReconciled}
use strikefluency.Models.Terms.{LedgerRef, LedgerTxnType}

mirror_with-money :
    (env : Env) (orm : StrategyRow) (row : LegRow) (o : Option LegFill) (s : Rows)
    → ((mirror_with env orm row o s).account ≡ s.account)
      × ((mirror_with env orm row o s).ledger ≡ s.ledger)
unfolding mirror_order
mirror_with-money env orm row none s = (refl, refl)
mirror_with-money env orm row (some f) s = ground arith

mirror_legs-money :
    (env : Env) (orm : StrategyRow) (fills : List LegFill) (legs : List LegRow) (s : Rows)
    → ((mirror_legs env orm fills legs s).account ≡ s.account)
      × ((mirror_legs env orm fills legs s).ledger ≡ s.ledger)
unfolding mirror_legs
mirror_legs-money env orm fills [] s = (refl, refl)
mirror_legs-money env orm fills (row ∷ legs) s =
    let s' = mirror_with env orm row (fill_for fills row) s in
    let (account, ledger) = mirror_legs-money env orm fills legs s' in
    let (account', ledger') = mirror_with-money env orm row (fill_for fills row) s in
    (account ∙ account', ledger ∙ ledger')

-- Every leg has its fill.
abbrev pub AllFilled : List LegFill → List LegRow → Type 0
AllFilled fills = All (λ row. (f : LegFill) × (fill_for fills row ≡ some f))

-- A strategy that is executed, with every leg open.
abbrev pub IsLive : StrategyRow → Type 0
IsLive o = (is_executed o.status ≡ true) × All (λ row. row_is_open row ≡ true) o.legs

pub record Executed (orm : StrategyRow) (b : StrategyBook) (p : StrategyPosition)
    (b' : StrategyBook) : Type 0 where
  pub charged : 0 < p.margin_blocked
  pub paid : b'.rows.account.balance ≡ b.rows.account.balance +ℤ neg p.margin_blocked
  pub floor : pos 0 ≤ℤ b'.rows.account.balance
  pub reconciled : IsReconciled b.rows → IsReconciled b'.rows
  pub opened : p.is_open ≡ true
  pub owner : p.strategy_id ≡ orm.id
  pub added : b'.positions ≡ b.positions ++ (p ∷ [])
  pub live : (o : StrategyRow) × (find (strategy_has_id orm.id) b'.strategies ≡ some o) × IsLive o

pub Executed-shift :
    (orm : StrategyRow) (b c : StrategyBook) (p : StrategyPosition) (d : StrategyBook)
    → Unchanged b c
    → Executed orm c p d
    → Executed orm b p d
Executed-shift orm b c p d h k = record {
  charged = k.charged;
  paid = k.paid ∙ ap (λ a. a.balance +ℤ neg p.margin_blocked) h.books_eq.account_eq;
  floor = k.floor;
  reconciled = λ r. k.reconciled (rw h.books_eq.account_eq (rw h.books_eq.ledger_eq r));
  opened = k.opened;
  owner = k.owner;
  added = k.added ∙ ap (λ ps. ps ++ (p ∷ [])) h.positions_eq;
  live = k.live;
}

open_legs :
    (now : ℕ) (fills : List LegFill) (legs : List LegRow)
    → AllFilled fills legs
    → All (λ row. row_is_open row ≡ true) (map (open_leg now fills) legs)
open_legs now fills [] h = tt
open_legs now fills (row ∷ legs) ((f, e), hs) = (rw e refl, open_legs now fills legs hs)

ne_zero_pos : (n : ℕ) → neg n ≢ pos 0 → 0 < n
unfolding neg
ne_zero_pos zero h = absurd (h refl)
ne_zero_pos (suc n) h = omega arith

module _ (desk : Desk) (orm : StrategyRow) (plan : ExecutionPlan) (session : TradingSession) where
  written-money : (b : StrategyBook) → KeepsMoney b (written desk orm plan (exec_spot desk orm) b)
  written-money b = mirror_legs-money desk.env orm plan.fills orm.legs b.rows

  -- The call from the end of the margin's posting.
  abbrev finish : ℕ → Result (Unit {0}) × Rows → Run StrategyPosition
  finish id q b =
      (do
        (λ c. from_result q c)
        service (modify (set_session (increment_trade_count session)))
        flush_book
        done_with (position_for orm plan id))
        b

  abbrev blocked_row : ℕ → Rows → Rows
  blocked_row id s =
      apply_row
        (ledger_row LedgerTxnType.trade_debit (neg plan.margin) LedgerRef.strategy_position id s) s

  written-IsLive :
      (b : StrategyBook)
      → find (strategy_has_id orm.id) b.strategies ≡ some orm
      → AllFilled plan.fills orm.legs
      → (o : StrategyRow) × (find
            (strategy_has_id orm.id)
            (written desk orm plan (exec_spot desk orm) b).strategies
          ≡ some o)
        × IsLive o
  written-IsLive b found filled = (
    executed_row desk orm plan (exec_spot desk orm),
    find-modify_first (strategy_has_id orm.id)
        (λ _. executed_row desk orm plan (exec_spot desk orm)) orm b.strategies found
        (ground arith),
    (refl, open_legs desk.env.now plan.fills orm.legs filled),
  )

  finish-Executed :
      (b : StrategyBook)
      → find (strategy_has_id orm.id) b.strategies ≡ some orm
      → AllFilled plan.fills orm.legs
      → 0 < plan.margin
      → pos plan.margin ≤ℤ b.rows.account.balance
      → let b' = written desk orm plan (exec_spot desk orm) b in
        let id = (mirror_legs desk.env orm plan.fills orm.legs b.rows).next_id in
        EndsWell (Executed orm) b (finish id (ok tt, blocked_row id b'.rows) b')
  unfolding set_session
  finish-Executed b found filled charged enough =
      let b' = written desk orm plan (exec_spot desk orm) b in
      let id = (mirror_legs desk.env orm plan.fills orm.legs b.rows).next_id in
      let (account, ledger) = written-money b in
      let covered : pos 0 ≤ℤ b'.rows.account.balance +ℤ neg plan.margin =
        rw account (omega int_laws) in
      record {
        charged = charged;
        paid = ap (λ a. a.balance +ℤ neg plan.margin) account;
        floor = covered;
        reconciled = λ r.
            apply_row-IsReconciled LedgerTxnType.trade_debit (neg plan.margin)
              LedgerRef.strategy_position id b'.rows (rw account (rw ledger r)) covered;
        opened = refl;
        owner = refl;
        added = refl;
        live = written-IsLive b found filled;
      }

  -- The rest of the call once the plan stands.
  pub open_position-Executed :
      (b : StrategyBook)
      → find (strategy_has_id orm.id) b.strategies ≡ some orm
      → AllFilled plan.fills orm.legs
      → pos plan.margin ≤ℤ b.rows.account.balance
      → EndsWell (Executed orm) b (open_position desk orm plan session b)
  unfolding open_position block_margin
  open_position-Executed b found filled enough =
      let b' = written desk orm plan (exec_spot desk orm) b in
      let id = (mirror_legs desk.env orm plan.fills orm.legs b.rows).next_id in
      let (account, ledger) = written-money b in
      let close : (q : Result (Unit {0}) × Rows)
          → block_margin plan.margin LedgerRef.strategy_position id b'.rows ≡ q
          → EndsWell (Executed orm) b (finish id q b')
          → EndsWell (Executed orm) b (open_position desk orm plan session b) =
        λ q e t. subst (λ q'. EndsWell (Executed orm) b (finish id q' b')) (sym e) t in
      elim (post_cases LedgerTxnType.trade_debit (neg plan.margin) LedgerRef.strategy_position id
        b'.rows) [
          | inl (flat, e) ↦ close _ e (account, ledger)
          | inr (inl (moved, short, e)) ↦ close _ e (account, ledger)
          | inr (inr (moved, covered, e, keeps)) ↦
              close _ e (finish-Executed b found filled (ne_zero_pos plan.margin moved) enough)
        ]

  -- Without a margin to block the call fails.
  pub open_position-unmargined :
      (Good : StrategyBook → StrategyPosition → StrategyBook → Type 0) (b : StrategyBook)
      → plan.margin ≡ 0
      → EndsWell Good b (open_position desk orm plan session b)
  unfolding open_position block_margin neg
  open_position-unmargined Good b e =
      let b' = written desk orm plan (exec_spot desk orm) b in
      let id = (mirror_legs desk.env orm plan.fills orm.legs b.rows).next_id in
      let flat =
        post-flat LedgerTxnType.trade_debit (neg plan.margin) LedgerRef.strategy_position id b'.rows
          (ap neg e) in
      subst (λ q. EndsWell Good b (finish id q b')) (sym flat) (written-money b)
