-- ===== src/Pending/Filling.antt =====
-- One resting order that the premium has reached: filled, rejected, or left as it was.
use strikefluency.Pending.Park.{find_pending, put_pending, has_pending_id, refund_margin}
use strikefluency.Pending.Reserve.{Returned, refunded, refunded-Returned, close_and_refund-refunded}
use strikefluency.Pending.Trigger.{
  sweep_over, left_resting, was_rejected, was_filled, payload_of, unreserve, mark_filled,
  fill_pending, fill_found, fill_one, reject_found, reject_one, on_error, try_fill, FillEnd,
  is_refusal, is_market_closed, after_fill,
}
use strikefluency.Orders.Placement.{Placed, place_order-Placed}
use strikefluency.Models.Records.{flush, VirtualOrder, PendingOrder, Rows}
use strikefluency.Market.{Env}
use strikefluency.Orders.Request.{lot_size_or, OrderData}
use strikefluency.Pricing.{IsUniform}
use strikefluency.Action.{Error, ◌>>◌, modify, ◌>>=◌, Action, err, ok, Result}
use strikefluency.Ledger.Credits.{
  release_margin-credited, credited-IsReconciled, credited-SameTables, credited,
}
use strikefluency.Models.Terms.{is_pending_status, LedgerRef, LedgerTxnType, PendingOrderStatus}
use strikefluency.Prelude.{
  ◌∙◌, modify_first, zero, suc, arith, ℕ, inr, inl, Bool-cases, true, false, refl, ==_iff,
  find-modify_first, ap, some, ◌≤ℤ◌, pos, Bool, ◌≡◌, ◌≤◌,
}
use strikefluency.Ledger.Balance.{IsReconciled}
use strikefluency.Orders.Place.{place_order}
use strikefluency.Action.Sequence.{>>=-ok}

-- The rows with the reservation of `p` given back, in which its order is placed.
abbrev pub freed : PendingOrder → Rows → Rows
freed p s =
    put_pending p.id unreserve
      (credited LedgerTxnType.refund LedgerRef.pending_order p.margin_blocked p.id s)

-- A fill: `place_order` returned the order `o` on the freed rows, leaving the rows `u`, and the
-- pending order is filled by it, holding nothing.
pub record Filled (env : Env) (p : PendingOrder) (s s' : Rows) : Type 0 where
  pub o : VirtualOrder
  pub replay : Bool
  pub u : Rows
  pub placed : Placed (payload_of p) (freed p s) (ok (o, replay), u)
  pub found : find_pending p.id s' ≡ some (mark_filled env o (unreserve p))
  pub pendings_eq :
      s'.pendings
      ≡ modify_first
          (has_pending_id p.id)
          (mark_filled env o)
          (modify_first (has_pending_id p.id) unreserve s.pendings)
  pub next_id_le : s.next_id ≤ s'.next_id
  pub account_eq : s'.account ≡ u.account
  pub ledger_eq : s'.ledger ≡ u.ledger
  pub orders_eq : s'.orders ≡ u.orders
  pub positions_eq : s'.positions ≡ u.positions
  pub reconciled : IsReconciled s → IsReconciled s'

-- How one order of the sweep ended.
abbrev pub Tried : Env → PendingOrder → Rows → FillEnd × Rows → Type 0
Tried env p s (was_filled, s') = Filled env p s s'
Tried env p s (was_rejected, s') = Returned env PendingOrderStatus.rejected p s s'
Tried env p s (left_resting, s') = s' ≡ s
Tried env p s (sweep_over, s') = s' ≡ s

-- The pending orders, the ids and the ledger after a placement.
abbrev Keeping : Rows → Result (VirtualOrder × Bool) × Rows → Type 0
Keeping t (ok _, u) =
    (u.pendings ≡ t.pendings) × (t.next_id ≤ u.next_id) × (IsReconciled t → IsReconciled u)
Keeping t (err _, u) = Unit {0}

le_self : (n : ℕ) → n ≤ n
le_self n = omega arith

Placed-Keeping :
    (d : OrderData) (t : Rows) (r : Result (VirtualOrder × Bool) × Rows)
    → Placed d t r
    → Keeping t r
Placed-Keeping d t (err e, u) h = tt
Placed-Keeping d t (ok (o, true), u) (same, _, _) =
    (ap (λ x. x.pendings) same, rw same (le_self t.next_id), λ h. rw same h)
Placed-Keeping d t (ok (o, false), u) (_, opened) =
    (opened.pendings_eq, rw opened.next_id_eq (omega arith), opened.reconciled)

lot_size_kept : (n spec : ℕ) → 3 ≤ n → 3 ≤ lot_size_or (some n) spec
lot_size_kept zero spec h = absurd (omega arith)
lot_size_kept (suc n) spec h = h

module _ (env : Env) (p : PendingOrder) (s : Rows) (uniform : IsUniform env.draw)
    (lots : 1 ≤ p.quantity) (lot : 3 ≤ p.lot_size) (floor : pos 0 ≤ℤ s.account.balance)
    (found : find_pending p.id s ≡ some p) where
  abbrev after_place : VirtualOrder × Bool → Action (Unit {0})
  after_place placed = modify (λ s. put_pending p.id (mark_filled env placed.0) (flush s))

  abbrev refund_row : Rows
  refund_row = credited LedgerTxnType.refund LedgerRef.pending_order p.margin_blocked p.id s

  freed-found : find_pending p.id (freed p s) ≡ some (unreserve p)
  freed-found =
      rw
        (credited-SameTables LedgerTxnType.refund LedgerRef.pending_order p.margin_blocked p.id
          s).pendings_eq
        (find-modify_first (has_pending_id p.id) unreserve p s.pendings found
          ((==_iff p.id p.id).1 refl))

  freed-pendings : (freed p s).pendings ≡ modify_first (has_pending_id p.id) unreserve s.pendings
  freed-pendings =
      ap (modify_first (has_pending_id p.id) unreserve)
        (credited-SameTables LedgerTxnType.refund LedgerRef.pending_order p.margin_blocked p.id
          s).pendings_eq

  freed-next_id : (freed p s).next_id ≡ s.next_id
  freed-next_id =
      (credited-SameTables LedgerTxnType.refund LedgerRef.pending_order p.margin_blocked p.id
        s).next_id_eq

  freed-IsReconciled : IsReconciled s → IsReconciled (freed p s)
  freed-IsReconciled =
      credited-IsReconciled LedgerTxnType.refund LedgerRef.pending_order p.margin_blocked p.id s

  fill_pending-runs :
      fill_pending env p s ≡ ((λ _. place_order env (payload_of p) (freed p s)) >>= after_place) s
  unfolding fill_pending refund_margin
  fill_pending-runs =
      >>=-ok (refund_margin p.margin_blocked p.id)
        (λ _.
          modify (put_pending p.id unreserve) >> (place_order env (payload_of p) >>= after_place))
        s refund_row tt
        (release_margin-credited LedgerTxnType.refund LedgerRef.pending_order p.margin_blocked p.id
          s floor)

  -- Filled, where the placement returned.
  Filled-after :
      (o : VirtualOrder) (b : Bool) (u : Rows)
      → Placed (payload_of p) (freed p s) (ok (o, b), u)
      → Keeping (freed p s) (ok (o, b), u)
      → Filled env p s (flush (put_pending p.id (mark_filled env o) (flush u)))
  Filled-after o b u placed (same, later, keeps) = record {
    o = o;
    replay = b;
    u = u;
    placed = placed;
    found =
        find-modify_first (has_pending_id p.id) (mark_filled env o) (unreserve p) u.pendings
          (rw same freed-found) ((==_iff p.id p.id).1 refl);
    pendings_eq =
        ap (modify_first (has_pending_id p.id) (mark_filled env o)) (same ∙ freed-pendings);
    next_id_le = rw freed-next_id at later;
    account_eq = refl;
    ledger_eq = refl;
    orders_eq = refl;
    positions_eq = refl;
    reconciled = λ h. keeps (freed-IsReconciled h);
  }

  Returned-flush :
      (t : Rows)
      → Returned env PendingOrderStatus.rejected p s t
      → Returned env PendingOrderStatus.rejected p s (flush t)
  Returned-flush t h = record {
    found = h.found;
    pendings_eq = h.pendings_eq;
    balance_eq = h.balance_eq;
    worth_eq = h.worth_eq;
    floor = h.floor;
    orders_eq = h.orders_eq;
    positions_eq = h.positions_eq;
    journal_eq = h.journal_eq;
    next_id_eq = h.next_id_eq;
    account_eq = h.account_eq;
    sessions_eq = h.sessions_eq;
    rules_eq = h.rules_eq;
    violations_eq = h.violations_eq;
    scores_eq = h.scores_eq;
    leverage_eq = h.leverage_eq;
    reconciled = h.reconciled;
  }

  module _ (resting : is_pending_status p.status ≡ true) where
    reject_one-refunded :
        reject_one env p.id s ≡ (ok tt, refunded env PendingOrderStatus.rejected p s floor)
    unfolding reject_one reject_found
    reject_one-refunded =
        rw (found, resting) (close_and_refund-refunded env PendingOrderStatus.rejected p s floor)

    on_error-Tried : (e : Error) → Tried env p s (on_error env p.id e s)
    unfolding on_error
    on_error-Tried e = elim (Bool-cases (is_market_closed e)) [
      | inl closed ↦ rw closed refl
      | inr other ↦ elim (Bool-cases (is_refusal e)) [
        | inr unexpected ↦ rw (other, unexpected) refl
        | inl refused ↦
            rw (other, refused, reject_one-refunded)
              (Returned-flush _ (refunded-Returned env PendingOrderStatus.rejected p s floor found))
      ]
    ]

    after_fill-Tried :
        (r : Result (VirtualOrder × Bool) × Rows)
        → Placed (payload_of p) (freed p s) r
        → Keeping (freed p s) r
        → Tried env p s (after_fill env p.id s (((λ _. r) >>= after_place) s))
    after_fill-Tried (ok (o, b), u) placed keeps = Filled-after o b u placed keeps
    after_fill-Tried (err e, u) placed keeps = on_error-Tried e

    -- One triggered order, found resting, with a balance not below zero, one lot or more of a
    -- contract of three units or more and slippage draws within their bounds. If it is filled, its
    -- reservation was given back, `place_order` then returned an order on the freed money, and the
    -- pending order is marked as filled by that order and holds nothing. If it is rejected, it
    -- stands as rejected with nothing reserved and its margin is back, and the rest of the account,
    -- the other pending orders, the orders, positions, sessions, rules, journal, violations, scores
    -- and settings are what they were. In every other case the rows are what they were. The ledger
    -- stays reconciled.
    pub try_fill-Tried : Tried env p s (try_fill env p.id s)
    unfolding try_fill fill_one fill_found
    try_fill-Tried =
        let r = place_order env (payload_of p) (freed p s) in
        let placed =
          place_order-Placed env (payload_of p) uniform lots (lot_size_kept p.lot_size _ lot)
            (freed p s) in
        rw (found, resting, fill_pending-runs)
          (after_fill-Tried r placed (Placed-Keeping (payload_of p) (freed p s) r placed))
