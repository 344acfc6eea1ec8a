-- ===== src/Strategies/Paying.antt =====
-- The end of a position: what the account gets.
use strikefluency.Strategies.Book.{
  set_position, update, ◌>>◌, from_result, of_strategy, done, service, Run, StrategyBook,
  StrategyPosition, ◌>>=◌,
}
use strikefluency.Action.{modify, ok, Action}
use strikefluency.Sessions.{
  update_realized_pnl, new_session, find_today, set_session, get_or_create_today,
}
use strikefluency.Strategies.SquareOff.{ended, give_back, net_of, pay_out}
use strikefluency.Ledger.{ledger_row, apply_row, settle_pnl}
use strikefluency.Prelude.{
  ◌∙◌, arith, refl, [], ltb_ℤ, ◌∷◌, if◌then◌else◌, ◌++◌, inr, eqb_ℤ_iff, eqb_ℤ, inl, Bool-cases, ap,
  modify_first, Option-cases, int_laws, ◌≤ℤ◌, pos, ◌+ℤ◌, ℕ, ◌≡◌, ℤ,
}
use strikefluency.Models.Terms.{LedgerTxnType, LedgerRef}
use strikefluency.Models.Records.{flush, TradingSession, Rows}
use strikefluency.Strategies.Quote.{Desk}
use strikefluency.Ledger.Balance.{apply_row-IsReconciled, post-covered, IsReconciled}
use strikefluency.Ledger.Credits.{
  credited-IsReconciled, credited-balance, release_margin-credited, credited,
}

-- Rows whose balance has moved by `d`, still reconciled where they were.
abbrev pub Moved : ℤ → Rows → Rows → Type 0
Moved d s s' = (s'.account.balance ≡ s.account.balance +ℤ d) × (IsReconciled s → IsReconciled s')

give_back-moves :
    (p : StrategyPosition) (s : Rows)
    → pos 0 ≤ℤ s.account.balance
    → (s' : Rows) × (give_back p s ≡ (ok tt, s')) × Moved (pos p.margin_blocked) s s'
give_back-moves p s floor = (
  credited LedgerTxnType.trade_credit LedgerRef.strategy_position p.margin_blocked p.id s,
  release_margin-credited LedgerTxnType.trade_credit LedgerRef.strategy_position p.margin_blocked
      p.id s floor,
  (
    credited-balance LedgerTxnType.trade_credit LedgerRef.strategy_position p.margin_blocked p.id s,
    credited-IsReconciled LedgerTxnType.trade_credit LedgerRef.strategy_position p.margin_blocked
        p.id s,
  ),
)

+ℤ_flat : (a b : ℤ) → b ≡ pos 0 → a ≡ a +ℤ b
+ℤ_flat a b e = rw e (omega int_laws)

settle_pnl-moves :
    (net : ℤ) (ref : LedgerRef) (id : ℕ) (s : Rows)
    → pos 0 ≤ℤ s.account.balance +ℤ net
    → (s' : Rows) × (settle_pnl net ref id s ≡ (ok tt, s')) × Moved net s s'
unfolding settle_pnl
settle_pnl-moves net ref id s covered = elim (Bool-cases (eqb_ℤ net (pos 0))) [
  | inl flat ↦
      let e = (eqb_ℤ_iff net (pos 0)).0 flat in
      (s, rw flat refl, (+ℤ_flat s.account.balance net e, λ r. r))
  | inr moved ↦
      let txn_type =
        if ltb_ℤ (pos 0) net then LedgerTxnType.trade_credit else LedgerTxnType.trade_debit in
      (
        apply_row (ledger_row txn_type net ref id s) s,
        rw moved (post-covered txn_type net ref id s ((eqb_ℤ_iff net (pos 0)).1 moved) covered),
        (refl, λ r. apply_row-IsReconciled txn_type net ref id s r covered),
      )
]

get_or_create_today-finds :
    (today : ℕ) (s : Rows)
    → (t : TradingSession) × (s' : Rows) × (get_or_create_today today s ≡ (ok t, s'))
      × (s'.account ≡ s.account)
      × (s'.ledger ≡ s.ledger)
unfolding get_or_create_today
get_or_create_today-finds today s = elim (Option-cases (find_today today s.sessions)) [
  | inl e ↦ (
    new_session today,
    flush (record s { sessions = s.sessions ++ (new_session today ∷ []) }),
    ground arith,
    refl,
    refl,
  )
  | inr (t, e) ↦ (t, s, ground arith, refl, refl)
]

pub service-ok :
    {A B : Type 0} (act : Action A) (f : A → Run B) (b : StrategyBook) (a : A) (s : Rows)
    → act b.rows ≡ (ok a, s)
    → (service act >>= f) b ≡ f a (record b { rows = s })
service-ok act f b a s h = ap (λ r. ((λ c. from_result r c) >>= f) b) h

-- The position has ended, and the account has its margin back and its net result.
pub record PaidOut (p : StrategyPosition) (b b' : StrategyBook) : Type 0 where
  pub balance_eq :
      b'.rows.account.balance ≡ b.rows.account.balance +ℤ pos p.margin_blocked +ℤ net_of p
  pub reconciled : IsReconciled b.rows → IsReconciled b'.rows
  pub strategies_eq : b'.strategies ≡ b.strategies
  pub positions_eq :
      (now : ℕ) × (b'.positions
        ≡ modify_first (of_strategy p.strategy_id) (λ _. ended now p) b.positions)

abbrev book_net : Desk → StrategyPosition → TradingSession → Action (Unit {0})
book_net desk p session = modify (set_session (update_realized_pnl (net_of p) session))

abbrev after_settled : Desk → StrategyPosition → Run (Unit {0})
after_settled desk p = do
  session ← service (get_or_create_today desk.env.today)
  service (book_net desk p session)
  update (set_position (ended desk.env.now p))

abbrev after_freed : Desk → StrategyPosition → Run (Unit {0})
after_freed desk p =
    service (settle_pnl (net_of p) LedgerRef.strategy_position p.id) >>= λ _. after_settled desk p

pub pay_out-PaidOut :
    (desk : Desk) (p : StrategyPosition) (b : StrategyBook)
    → pos 0 ≤ℤ b.rows.account.balance
    → pos 0 ≤ℤ b.rows.account.balance +ℤ pos p.margin_blocked +ℤ net_of p
    → (b' : StrategyBook) × (pay_out desk p b ≡ (done tt, b')) × PaidOut p b b'
unfolding pay_out set_session
pay_out-PaidOut desk p b floor covered =
    let (s1, freed, (balance1, sound1)) = give_back-moves p b.rows floor in
    let (s2, settled, (balance2, sound2)) =
      settle_pnl-moves (net_of p) LedgerRef.strategy_position p.id s1 (rw balance1 covered) in
    let (t, s3, today, account, ledger) = get_or_create_today-finds desk.env.today s2 in
    let b1 = record b { rows = s1 } in
    let b2 = record b { rows = s2 } in
    let b3 = record b { rows = (book_net desk p t s3).1 } in
    (
      set_position (ended desk.env.now p) b3,
      service-ok (give_back p) (λ _. after_freed desk p) b tt s1 freed
          ∙ service-ok (settle_pnl (net_of p) LedgerRef.strategy_position p.id)
              (λ _. after_settled desk p) b1 tt s2 settled
          ∙ service-ok (get_or_create_today desk.env.today)
              (λ session. service (book_net desk p session) >>= λ _.
                update (set_position (ended desk.env.now p)))
              b2 t s3 today,
      record {
        balance_eq = ap (λ a. a.balance) account ∙ balance2 ∙ ap (λ x. x +ℤ net_of p) balance1;
        reconciled = λ r. rw account (rw ledger (sound2 (sound1 r)));
        strategies_eq = refl;
        positions_eq = (desk.env.now, refl);
      },
    )
