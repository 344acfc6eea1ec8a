-- ===== src/AutoExit/Held.antt =====
-- A sweep that may not trigger: the market is shut, or the chain is not fresh.
use strikefluency.AutoExit.Sweep.{sweep_quoted, sweep_order, sweep, scan_and_exit}
use strikefluency.Models.Records.{VirtualPosition, Rows, VirtualOrder}
use strikefluency.Orders.Protection.{mark, update_position_ltp}
use strikefluency.Prelude.{
  true, ap, pos, if◌then◌else◌, map, false, ◌&&◌, some, ◌+◌, refl, [], Bool-cases, inr, ◌∷◌, arith,
  inl, modify_first, find, List, Option-cases, exists, ℕ, ◌∙◌, ◌≡◌,
}
use strikefluency.Orders.Queries.{find_order, open_of_order}
use strikefluency.Market.{is_tradeable, OptionChain, get_ltp_from_chain, Env}
use strikefluency.Models.Terms.{Instrument}
use strikefluency.Clock.{is_market_open}

-- A position without its mark, where it is open: what marking may not change.
abbrev pub bare : VirtualPosition → VirtualPosition
bare p = if p.is_open then record p { current_ltp = 0; unrealized_pnl = pos 0 } else p

-- What marking to market leaves alone: everything but the marks of open positions.
pub record SameButMarks (s s' : Rows) : Type 0 where
  pub account_eq : s'.account ≡ s.account
  pub orders_eq : s'.orders ≡ s.orders
  pub sessions_eq : s'.sessions ≡ s.sessions
  pub pendings_eq : s'.pendings ≡ s.pendings
  pub next_id_eq : s'.next_id ≡ s.next_id
  pub ledger_eq : s'.ledger ≡ s.ledger
  pub journal_eq : s'.journal ≡ s.journal
  pub scores_eq : s'.scores ≡ s.scores
  pub rules_eq : s'.rules ≡ s.rules
  pub violations_eq : s'.violations ≡ s.violations
  pub leverage_eq : s'.leverage_enabled ≡ s.leverage_enabled
  pub flushed_eq : (s'.db_orders ≡ s.db_orders) × (s'.db_scores ≡ s.db_scores)
  pub positions_eq : map bare s'.positions ≡ map bare s.positions
  pub open_eq :
      (id : ℕ) → exists (open_of_order id) s'.positions ≡ exists (open_of_order id) s.positions

SameButMarks-refl : (s : Rows) → SameButMarks s s
SameButMarks-refl s = record {
  account_eq = refl;
  orders_eq = refl;
  sessions_eq = refl;
  pendings_eq = refl;
  next_id_eq = refl;
  ledger_eq = refl;
  journal_eq = refl;
  scores_eq = refl;
  rules_eq = refl;
  violations_eq = refl;
  leverage_eq = refl;
  flushed_eq = (refl, refl);
  positions_eq = refl;
  open_eq = λ id. refl;
}

SameButMarks-trans : (s t u : Rows) → SameButMarks s t → SameButMarks t u → SameButMarks s u
SameButMarks-trans s t u h k = record {
  account_eq = k.account_eq ∙ h.account_eq;
  orders_eq = k.orders_eq ∙ h.orders_eq;
  sessions_eq = k.sessions_eq ∙ h.sessions_eq;
  pendings_eq = k.pendings_eq ∙ h.pendings_eq;
  next_id_eq = k.next_id_eq ∙ h.next_id_eq;
  ledger_eq = k.ledger_eq ∙ h.ledger_eq;
  journal_eq = k.journal_eq ∙ h.journal_eq;
  scores_eq = k.scores_eq ∙ h.scores_eq;
  rules_eq = k.rules_eq ∙ h.rules_eq;
  violations_eq = k.violations_eq ∙ h.violations_eq;
  leverage_eq = k.leverage_eq ∙ h.leverage_eq;
  flushed_eq = (k.flushed_eq.0 ∙ h.flushed_eq.0, k.flushed_eq.1 ∙ h.flushed_eq.1);
  positions_eq = k.positions_eq ∙ h.positions_eq;
  open_eq = λ id. k.open_eq id ∙ h.open_eq id;
}

exists-mark :
    (o : VirtualOrder) (ltp id id' : ℕ) (ps : List VirtualPosition)
    → exists (open_of_order id) (modify_first (open_of_order id') (mark o ltp) ps)
      ≡ exists (open_of_order id) ps
exists-mark o ltp id id' [] = refl
exists-mark o ltp id id' (p ∷ ps) = elim (Bool-cases (open_of_order id' p)) [
  | inl hit ↦ rw hit refl
  | inr miss ↦ rw (miss, exists-mark o ltp id id' ps) refl
]

bare-mark :
    (o : VirtualOrder) (id ltp : ℕ) (p : VirtualPosition)
    → open_of_order id p ≡ true
    → bare (mark o ltp p) ≡ bare p
bare-mark o id ltp p hit = let live : p.is_open ≡ true = ground arith in rw live refl

map-mark :
    (o : VirtualOrder) (id ltp : ℕ) (ps : List VirtualPosition)
    → map bare (modify_first (open_of_order id) (mark o ltp) ps) ≡ map bare ps
map-mark o id ltp [] = refl
map-mark o id ltp (p ∷ ps) = elim (Bool-cases (open_of_order id p)) [
  | inl hit ↦ rw hit (ap (λ q. q ∷ map bare ps) (bare-mark o id ltp p hit))
  | inr miss ↦ rw miss (ap (λ qs. bare p ∷ qs) (map-mark o id ltp ps))
]

add_zero : (n : ℕ) → n + 0 ≡ n
add_zero n = omega arith

marked-SameButMarks :
    (o : VirtualOrder) (id ltp : ℕ) (s : Rows)
    → SameButMarks s
        (record s { positions = modify_first (open_of_order id) (mark o ltp) s.positions })
marked-SameButMarks o id ltp s = record {
  account_eq = refl;
  orders_eq = refl;
  sessions_eq = refl;
  pendings_eq = refl;
  next_id_eq = refl;
  ledger_eq = refl;
  journal_eq = refl;
  scores_eq = refl;
  rules_eq = refl;
  violations_eq = refl;
  leverage_eq = refl;
  flushed_eq = (refl, refl);
  positions_eq = map-mark o id ltp s.positions;
  open_eq = λ id'. exists-mark o ltp id' id s.positions;
}

pub update_position_ltp-SameButMarks :
    (id ltp : ℕ) (s : Rows) → SameButMarks s (update_position_ltp id ltp s)
unfolding update_position_ltp
update_position_ltp-SameButMarks id ltp s =
    elim (Option-cases (find (open_of_order id) s.positions)) [
      | inl gone ↦ rw (update_position_ltp, gone) (SameButMarks-refl s)
      | inr (p, held) ↦ elim (Option-cases (find_order id s)) [
        | inl missing ↦ rw (update_position_ltp, held, missing) (SameButMarks-refl s)
        | inr (o, found) ↦ rw (update_position_ltp, held, found) (marked-SameButMarks o id ltp s)
      ]
    ]

-- The chain of an instrument may not trigger an exit: the market is shut, or the chain is missing
-- or not fresh.
abbrev Holds : Env → Instrument → Type 0
Holds env i =
    (chain : OptionChain)
    → env.get_option_chain i ≡ some chain
    → (is_market_open env.now && is_tradeable env chain) ≡ false

abbrev HeldAt : Rows → ℕ → ℕ × Rows → Type 0
HeldAt s n r = (r.0 ≡ n) × SameButMarks s r.1

sweep_order-HeldAt :
    (env : Env) (o : VirtualOrder) (s : Rows)
    → Holds env o.instrument
    → HeldAt s 0 (sweep_order env (env.get_option_chain o.instrument) o s)
unfolding sweep_order sweep_quoted
sweep_order-HeldAt env o s holds = elim (Option-cases (env.get_option_chain o.instrument)) [
  | inl down ↦ rw down (refl, SameButMarks-refl s)
  | inr (chain, e) ↦
      elim (Option-cases ((get_ltp_from_chain chain o.strike_price o.option_type).0)) [
        | inl unquoted ↦ rw (e, unquoted) (refl, SameButMarks-refl s)
        | inr (ltp, quoted) ↦
            rw (e, quoted, holds chain e) (refl, update_position_ltp-SameButMarks o.id ltp s)
      ]
]

sweep-HeldAt :
    (env : Env) (os : List VirtualOrder) (n : ℕ) (s : Rows)
    → ((i : Instrument) → Holds env i)
    → HeldAt s n (sweep env os n s)
unfolding sweep
sweep-HeldAt env [] n s holds = (refl, SameButMarks-refl s)
sweep-HeldAt env (o ∷ os) n s holds =
    let (none_closed, same) = sweep_order-HeldAt env o s (holds o.instrument) in
    let s' = (sweep_order env (env.get_option_chain o.instrument) o s).1 in
    let (count, same') =
      sweep-HeldAt env os (n + (sweep_order env (env.get_option_chain o.instrument) o s).0) s'
        holds in
    (count ∙ rw none_closed (add_zero n), SameButMarks-trans s s' _ same same')

-- While the market is shut, or on chains that are missing or not fresh, a sweep closes nothing: it
-- counts no exit and changes at most the marks of open positions, their last price and unrealized
-- P&L, whatever levels they cross.
pub scan_and_exit-held :
    (env : Env) (s : Rows)
    → ((i : Instrument) (chain : OptionChain)
        → env.get_option_chain i ≡ some chain
        → (is_market_open env.now && is_tradeable env chain) ≡ false)
    → ((scan_and_exit env s).0 ≡ 0) × SameButMarks s (scan_and_exit env s).1
unfolding scan_and_exit
scan_and_exit-held env s holds = sweep-HeldAt env _ 0 s holds
