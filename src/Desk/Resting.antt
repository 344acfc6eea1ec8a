-- ===== src/Desk/Resting.antt =====
-- What parking, cancelling, filling and expiring limit orders does to the invariant.
use mathlib.Core.Path.{subst}
use strikefluency.Market.{Env}
use strikefluency.Pending.Park.{
  is_expiring, find_pending, has_pending_id, close_pending, expire_pending_orders, PendingData,
}
use strikefluency.Models.Records.{flush, PendingOrder, Rows}
use strikefluency.Pending.Trigger.{
  sweep_over, left_resting, was_rejected, unreserve, was_filled, fill_found, mark_filled,
  scan_and_fill, FillEnd, fill_one, try_fill,
}
use strikefluency.Prelude.{
  find-All, [], inr, inl, ◌∷◌, Bool-cases, arith, refl, Option-cases, modify_first, ◌≡◌, List,
  Option, ℕ,
}
use strikefluency.Pending.Filling.{try_fill-Tried, Tried, Filled}
use strikefluency.Desk.Invariant.{
  Book-map, Book-later, Book-add, Book-modify, Keeping, Inv, IsSized,
}
use strikefluency.Pricing.{IsUniform}
use strikefluency.Models.Terms.{is_pending_status, PendingOrderStatus}
use strikefluency.Pending.Reserve.{find_pending-id, find_pending-own, Returned}
use strikefluency.Pending.Parking.{Parked}
use strikefluency.Pending.Expiry.{expire_pending_orders-Expired, expired_if, IsSettled}
use strikefluency.Pending.Sweeping.{scan_and_fill-keeps}
use strikefluency.Action.{ok}

pub Parked-Inv :
    (d : PendingData) (s s' : Rows) (p : PendingOrder)
    → IsSized p
    → Parked d s p s'
    → Inv s
    → Inv s'
Parked-Inv d s s' p sized h inv = record {
  reconciled = h.reconciled inv.reconciled;
  book =
      rw (h.pendings_eq, h.next_id_eq)
        (Book-add s.next_id p s.pendings h.id_eq (λ gone. absurd (ground (arith, h.status_eq)))
          sized inv.book);
}

close_pending-Keeping :
    (env : Env) (status : PendingOrderStatus) → Keeping (close_pending env status)
close_pending-Keeping env status p = (refl, refl, refl)

pub Returned-Inv :
    (env : Env) (status : PendingOrderStatus) (p : PendingOrder) (s s' : Rows)
    → Returned env status p s s'
    → Inv s
    → Inv s'
Returned-Inv env status p s s' h inv = record {
  reconciled = h.reconciled inv.reconciled;
  book =
      rw (h.pendings_eq, h.next_id_eq)
        (Book-modify (close_pending env status) p.id s.next_id s.pendings
          (close_pending-Keeping env status) (λ q _ _. refl) inv.book);
}

-- Two changes of one order are one.
modify_first-twice :
    (f g : PendingOrder → PendingOrder) (id : ℕ) (ps : List PendingOrder)
    → Keeping g
    → modify_first (has_pending_id id) f (modify_first (has_pending_id id) g ps)
      ≡ modify_first (has_pending_id id) (λ p. f (g p)) ps
modify_first-twice f g id [] keep = refl
modify_first-twice f g id (p ∷ ps) keep =
    ground (arith, (keep p).0, modify_first-twice f g id ps keep)

Filled-Inv : (env : Env) (p : PendingOrder) (s s' : Rows) → Filled env p s s' → Inv s → Inv s'
Filled-Inv env p s s' h inv = record {
  reconciled = h.reconciled inv.reconciled;
  book =
      rw
        (
          h.pendings_eq,
          modify_first-twice (mark_filled env h.o) unreserve p.id s.pendings
              (λ q. (refl, refl, refl)),
        )
        (Book-modify (λ q. mark_filled env h.o (unreserve q)) p.id s'.next_id s.pendings
          (λ q. (refl, refl, refl)) (λ q _ _. refl)
          (Book-later s.next_id s'.next_id s.pendings h.next_id_le inv.book));
}

Tried-Inv :
    (env : Env) (p : PendingOrder) (s : Rows) (r : FillEnd × Rows)
    → Tried env p s r
    → Inv s
    → Inv r.1
Tried-Inv env p s (was_filled, s') h inv = Filled-Inv env p s s' h inv
Tried-Inv env p s (was_rejected, s') h inv =
    Returned-Inv env PendingOrderStatus.rejected p s s' h inv
Tried-Inv env p s (left_resting, s') h inv = rw h inv
Tried-Inv env p s (sweep_over, s') h inv = rw h inv

pub flush-Inv : (s : Rows) → Inv s → Inv (flush s)
flush-Inv s h = record { reconciled = h.reconciled; book = h.book }

-- Whatever an id of the sweep's list has become by then.
try_fill-Inv :
    (env : Env) → IsUniform env.draw → (id : ℕ) (s : Rows) → Inv s → Inv (try_fill env id s).1
unfolding try_fill fill_one fill_found
try_fill-Inv env uniform id s inv = elim (Option-cases (find_pending id s)) [
  | inl missing ↦ rw missing (flush-Inv s inv)
  | inr (p, found) ↦ elim (Bool-cases (is_pending_status p.status)) [
    | inr gone ↦ rw (found, gone) (flush-Inv s inv)
    | inl resting ↦
        let (lots, lot) = find-All IsSized (has_pending_id id) s.pendings p found inv.book.sized in
        let tried =
          Tried-Inv env p s _
            (try_fill-Tried env p s uniform lots lot inv.reconciled.1
              (find_pending-own id s p found) resting)
            inv in
        subst (λ i. Inv (try_fill env i s).1) (find_pending-id id s p found) tried
  ]
]

pub scan_and_fill-Inv :
    (env : Env) → IsUniform env.draw → (s : Rows) → Inv s → Inv (scan_and_fill env s).1
scan_and_fill-Inv env uniform =
    scan_and_fill-keeps env Inv (λ p s inv. try_fill-Inv env uniform p.id s inv)

expired_if-Keeping : (env : Env) (before : Option ℕ) → Keeping (expired_if env before)
expired_if-Keeping env before p = elim (Bool-cases (is_expiring before p)) [
  | inl leaves ↦ rw leaves (refl, refl, refl)
  | inr stays ↦ rw stays (refl, refl, refl)
]

expired_if-IsSettled :
    (env : Env) (before : Option ℕ) (p : PendingOrder)
    → IsSettled p
    → IsSettled (expired_if env before p)
expired_if-IsSettled env before p h = elim (Bool-cases (is_expiring before p)) [
  | inl leaves ↦ rw leaves (λ _. refl)
  | inr stays ↦ rw stays h
]

pub expire_pending_orders-Inv :
    (env : Env) (before : Option ℕ) (s : Rows)
    → Inv s
    → (s' : Rows) × (n : ℕ) × (expire_pending_orders env before s ≡ (ok n, s')) × Inv s'
expire_pending_orders-Inv env before s inv =
    let (s', ran, end) =
      expire_pending_orders-Expired env before s inv.book.distinct inv.reconciled.1 in
    (
      s',
      _,
      ran,
      record {
        reconciled = end.reconciled inv.reconciled;
        book =
            rw (end.pendings_eq, end.next_id_eq)
              (Book-map (expired_if env before) s.next_id s.pendings (expired_if-Keeping env before)
                (expired_if-IsSettled env before) inv.book);
      },
    )
