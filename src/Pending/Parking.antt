-- ===== src/Pending/Parking.antt =====
-- `place_pending_order` on every path.
use strikefluency.Pending.Park.{
  PendingData, place_pending_order, replay_or_park, park_new, park_quoted, park, reserve_for,
  limit_of, matches_pending, new_pending, add_pending, find_resting,
}
use strikefluency.Pending.Reserve.{worth, reserved}
use strikefluency.Prelude.{
  find-append_none, find, ==_iff, none, some, refl, sum_of-append, neg-ne_zero, ltb_ℤ_iff, inr, inl,
  ltb_ℤ, Bool-cases, Option-cases, [], int_laws, neg, ◌∙◌, ◌∷◌, arith, false, ◌++◌, ◌+ℤ◌, Bool,
  true, ◌+◌, ◌≤ℤ◌, pos, ◌≡◌, ◌≤◌, ℕ, ◌<◌, ℤ,
}
use strikefluency.Market.{fetch_orderable, get_ltp_from_chain, OptionChain, Env}
use strikefluency.Models.Records.{TradingSession, PendingOrder, Rows}
use strikefluency.Orders.Request.{lot_size_of}
use strikefluency.Ledger.{apply_row, ledger_row, block_margin}
use strikefluency.Orders.Frame.{
  gate_discipline-Keeps, fetch_orderable-same, SameBooks-refl, get_or_create_today-Keeps,
  Ends-after, Ends, SameBooks,
}
use strikefluency.Orders.Opening.{margin_for-pos}
use strikefluency.Sessions.{get_or_create_today}
use strikefluency.Action.{err, ok, Result, pure, ◌>>=◌}
use strikefluency.Orders.Place.{gate_discipline}
use strikefluency.Models.Terms.{LedgerRef, LedgerTxnType, PendingOrderStatus}
use strikefluency.Ledger.Balance.{apply_row-IsReconciled, post-covered, IsReconciled}
use strikefluency.Action.Sequence.{>>=-ok}
use strikefluency.Clock.{is_market_open, require_market_open}
use strikefluency.Orders.Queries.{opt_eq}

-- A limit order that was parked: one new pending order at the end of the book under a fresh id,
-- as the payload asked for it, its margin taken from the balance and held back.
pub record Parked (d : PendingData) (s : Rows) (p : PendingOrder) (s' : Rows) : Type 0 where
  pub client_eq : p.client_order_id ≡ d.terms.client_order_id
  pub matches_eq : matches_pending p d ≡ true
  pub quantity_eq : p.quantity ≡ d.terms.quantity
  pub lot_size_eq : p.lot_size ≡ lot_size_of d.terms
  pub pendings_eq : s'.pendings ≡ s.pendings ++ (p ∷ [])
  pub id_eq : p.id ≡ s.next_id
  pub status_eq : p.status ≡ PendingOrderStatus.pending
  pub margin_eq : p.margin_blocked ≡ reserve_for d s
  pub balance_eq : s'.account.balance ≡ s.account.balance +ℤ neg p.margin_blocked
  pub worth_eq : worth s' ≡ worth s
  pub floor : pos 0 ≤ℤ s'.account.balance
  pub orders_eq : s'.orders ≡ s.orders
  pub positions_eq : s'.positions ≡ s.positions
  pub next_id_eq : s'.next_id ≡ s.next_id + 1
  pub reconciled : IsReconciled s → IsReconciled s'

-- How a fresh limit order ends.
abbrev Good : PendingData → Rows → PendingOrder × Bool → Rows → Type 0
Good d s (p, true) s' = ⊥
Good d s (p, false) s' = Parked d s p s'

Good-shift :
    (d : PendingData) (s t : Rows) (b : PendingOrder × Bool) (u : Rows)
    → SameBooks s t
    → Good d t b u
    → Good d s b u
Good-shift d s t (p, true) u h k = k
Good-shift d s t (p, false) u h k = record {
  client_eq = k.client_eq;
  matches_eq = k.matches_eq;
  quantity_eq = k.quantity_eq;
  lot_size_eq = k.lot_size_eq;
  pendings_eq = rw (← h.pendings_eq) k.pendings_eq;
  id_eq = k.id_eq ∙ h.next_id_eq;
  status_eq = k.status_eq;
  margin_eq = rw (← h.leverage_eq) k.margin_eq;
  balance_eq = rw (← h.account_eq) k.balance_eq;
  worth_eq = rw (← h.account_eq, ← h.pendings_eq) k.worth_eq;
  floor = k.floor;
  orders_eq = k.orders_eq ∙ h.orders_eq;
  positions_eq = k.positions_eq ∙ h.positions_eq;
  next_id_eq = rw (← h.next_id_eq) k.next_id_eq;
  reconciled = λ r. k.reconciled (rw (h.account_eq, h.ledger_eq) r);
}

new_pending-matches :
    (env : Env) (d : PendingData) (ltp margin : ℕ) (s : Rows)
    → matches_pending (new_pending env d ltp margin s) d ≡ true
unfolding new_pending matches_pending
new_pending-matches env d ltp margin s = ground arith

worth_parked : (b : ℤ) (m r r' : ℕ) → r' ≡ r + (m + 0) → b +ℤ neg m +ℤ pos r' ≡ b +ℤ pos r
worth_parked b m r r' h = omega int_laws

covered_parked : (b : ℤ) (m : ℕ) → pos m ≤ℤ b → pos 0 ≤ℤ b +ℤ neg m
covered_parked b m h = omega int_laws

module _ (env : Env) (d : PendingData) (limit : 0 < limit_of d) (lots : 1 ≤ d.terms.quantity)
    (lot : 3 ≤ lot_size_of d.terms) where
  park-Ends : (ltp : ℕ) (s : Rows) → Ends (Good d) s (park env d ltp s)
  unfolding park block_margin new_pending
  park-Ends ltp s =
      let m = reserve_for d s in
      let m_pos =
        margin_for-pos s.leverage_enabled (limit_of d) (lot_size_of d.terms) d.terms.quantity limit
          lot lots in
      let p = new_pending env d ltp m s in
      let entered = add_pending p s in
      elim (Bool-cases (ltb_ℤ s.account.balance (pos m))) [
        | inl short ↦ rw short (SameBooks-refl s)
        | inr enough ↦
            let covered =
              covered_parked s.account.balance m ((ltb_ℤ_iff s.account.balance (pos m)).1 enough) in
            let row =
              ledger_row LedgerTxnType.trade_debit (neg m) LedgerRef.pending_order p.id entered in
            let ran =
              >>=-ok {B = PendingOrder × Bool} (block_margin m LedgerRef.pending_order p.id)
                (λ _. pure (p, false)) entered (apply_row row entered) tt
                (post-covered LedgerTxnType.trade_debit (neg m) LedgerRef.pending_order p.id entered
                  (neg-ne_zero m m_pos) covered) in
            rw (enough, ran)
              record {
                client_eq = refl;
                matches_eq = new_pending-matches env d ltp m s;
                quantity_eq = refl;
                lot_size_eq = refl;
                pendings_eq = refl;
                id_eq = refl;
                status_eq = refl;
                margin_eq = refl;
                balance_eq = refl;
                worth_eq =
                    worth_parked s.account.balance m (reserved s) _
                      (sum_of-append (λ (p : PendingOrder). p.margin_blocked) s.pendings (p ∷ []));
                floor = covered;
                orders_eq = refl;
                positions_eq = refl;
                next_id_eq = refl;
                reconciled = λ h.
                    apply_row-IsReconciled LedgerTxnType.trade_debit (neg m) LedgerRef.pending_order
                      p.id entered h covered;
              }
      ]

  park_quoted-Ends :
      (session : TradingSession) (chain : OptionChain) (s : Rows)
      → Ends (Good d) s (park_quoted env d session chain s)
  unfolding park_quoted
  park_quoted-Ends session chain s =
      elim (Option-cases ((get_ltp_from_chain chain d.terms.strike_price d.terms.option_type).0)) [
        | inl e ↦ rw e (SameBooks-refl s)
        | inr (ltp, e) ↦ rw e (
            Ends-after (Good d) (Good-shift d) (gate_discipline env d.terms (limit_of d) session s)
              (λ _. park env d ltp) s (gate_discipline-Keeps env d.terms (limit_of d) session s)
              (λ _ t. park-Ends ltp t))
      ]

  park_new-Ends : (s : Rows) → Ends (Good d) s (park_new env d s)
  unfolding park_new
  park_new-Ends s =
      Ends-after (Good d) (Good-shift d) (get_or_create_today env.today s)
        (λ session. fetch_orderable env d.terms.instrument >>= park_quoted env d session) s
        (get_or_create_today-Keeps env.today s)
        (λ session t.
          Ends-after (Good d) (Good-shift d) (fetch_orderable env d.terms.instrument t)
            (park_quoted env d session) t
            (rw (fetch_orderable-same env d.terms.instrument t) (SameBooks-refl t))
            (λ chain u. park_quoted-Ends session chain u))

-- A call that raised left the books alone; a replay changed nothing and returned the pending order
-- of the client's id; a new one was parked only where the id had none.
abbrev pub Rests : PendingData → Rows → Result (PendingOrder × Bool) × Rows → Type 0
Rests d s (err e, s') = SameBooks s s'
Rests d s (ok (p, true), s') =
    (s' ≡ s)
    × (find_resting d.terms.client_order_id s.pendings ≡ some p)
    × (matches_pending p d ≡ true)
Rests d s (ok (p, false), s') =
    (find_resting d.terms.client_order_id s.pendings ≡ none) × Parked d s p s'

Rests-Ends :
    (d : PendingData) (s : Rows) (r : Result (PendingOrder × Bool) × Rows)
    → find_resting d.terms.client_order_id s.pendings ≡ none
    → Ends (Good d) s r
    → Rests d s r
Rests-Ends d s (err e, s') absent h = h
Rests-Ends d s (ok (p, true), s') absent h = absurd h
Rests-Ends d s (ok (p, false), s') absent h = (absent, h)

module _ (env : Env) (d : PendingData) (limit : 0 < limit_of d) (lots : 1 ≤ d.terms.quantity)
    (lot : 3 ≤ lot_size_of d.terms) where
  replay_or_park-Rests :
      (s : Rows)
      → Rests d s (replay_or_park env d (find_resting d.terms.client_order_id s.pendings) s)
  unfolding replay_or_park
  replay_or_park-Rests s = elim (Option-cases (find_resting d.terms.client_order_id s.pendings)) [
    | inl e ↦ rw e (Rests-Ends d s (park_new env d s) e (park_new-Ends env d limit lots lot s))
    | inr (p, e) ↦ elim (Bool-cases (matches_pending p d)) [
      | inl same ↦ rw (e, same) (refl, e, same)
      | inr other ↦ rw (e, other) (SameBooks-refl s)
    ]
  ]

  -- Every call of `place_pending_order`, with one lot or more of a contract of three units or more
  -- and a limit of a paisa or more, either raises and leaves the books as they were; or returns the
  -- pending order that the client's id already has, when the payload asks for the same, and changes
  -- nothing; or parks one pending order under a fresh id and moves exactly its margin from the
  -- balance into the reserve, so that balance and reserve together are what they were, the balance
  -- is not below zero and the ledger stays reconciled.
  pub place_pending_order-Rests : (s : Rows) → Rests d s (place_pending_order env d s)
  unfolding place_pending_order require_market_open
  place_pending_order-Rests s = elim (Bool-cases (is_market_open env.now)) [
    | inl opened ↦ rw opened (replay_or_park-Rests s)
    | inr shut ↦ rw shut (SameBooks-refl s)
  ]

found_after :
    (cid : ℕ) (d : PendingData) (s : Rows) (p : PendingOrder) (b : Bool) (s' : Rows)
    → d.terms.client_order_id ≡ some cid
    → Rests d s (ok (p, b), s')
    → (find_resting d.terms.client_order_id s'.pendings ≡ some p) × (matches_pending p d ≡ true)
found_after cid d s p true s' e (same, found, matches) = (rw same found, matches)
found_after cid d s p false s' e (absent, parked) =
    let new : PendingOrder → Bool = λ p. opt_eq p.client_order_id (some cid) in
    let hit : new p ≡ true = ground (arith, parked.client_eq, (==_iff cid cid).1 refl) in
    let absent' : find new s.pendings ≡ none = rw e at absent in
    (
      rw (e, parked.pendings_eq, find-append_none new s.pendings (p ∷ []) absent') (rw hit),
      parked.matches_eq,
    )

-- Parking is idempotent, for one lot or more of a contract of three units or more and a limit of a
-- paisa or more: the same payload sent again while the market is open, whatever the market data
-- then is, returns the same pending order and changes nothing. The limit may have more decimals
-- than a price column keeps.
pub place_pending_order_repeated :
    (env later : Env) (d : PendingData) (cid : ℕ) (s : Rows) (p : PendingOrder) (b : Bool)
    (s' : Rows)
    → 0 < limit_of d
    → 1 ≤ d.terms.quantity
    → 3 ≤ lot_size_of d.terms
    → d.terms.client_order_id ≡ some cid
    → place_pending_order env d s ≡ (ok (p, b), s')
    → is_market_open later.now ≡ true
    → place_pending_order later d s' ≡ (ok (p, true), s')
unfolding place_pending_order require_market_open replay_or_park
place_pending_order_repeated env later d cid s p b s' limit lots lot client placed opened =
    let end : Rests d s (ok (p, b), s') =
      rw placed at (place_pending_order-Rests env d limit lots lot s) in
    let (found, matches) = found_after cid d s p b s' client end in rw (opened, found, matches) refl
