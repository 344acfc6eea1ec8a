-- ===== src/Desk/Continuing.antt =====
-- What orders, closes, edits and the exit sweep do to the books between two requests: nothing that
-- the invariant is about is lost.
use strikefluency.Models.Records.{VirtualPosition, Rows, VirtualOrder}
use strikefluency.Orders.Request.{OrderData}
use strikefluency.Market.{Env}
use strikefluency.Prelude.{
  true, false, false, true, ◌≤ℤ◌, pos, refl, Bool, Option, arith, ◌≡◌, ◌≤◌, ℕ,
}
use strikefluency.Models.Terms.{ExitReason}
use strikefluency.Desk.Invariant.{Book-later, Inv}
use strikefluency.AutoExit.Held.{SameButMarks}
use strikefluency.Action.{ok, err, Result}
use strikefluency.Orders.Frame.{SameBooks}
use strikefluency.Ledger.Balance.{IsReconciled}
use strikefluency.Orders.Close.{close_position}
use strikefluency.Orders.Editing.{Edited}
use strikefluency.Orders.Placement.{Placed}
use strikefluency.Orders.AnyClose.{close_position-any}
use strikefluency.EndOfDay.Emptied.{Swept}
use strikefluency.DisciplineMode.Switch.{Mode}
use strikefluency.DisciplineMode.Unlocking.{Switched, SwitchedOff}

-- What a call leaves of a user's rows as far as the invariant goes: the pending orders as they
-- are, no id handed out twice, and a reconciled ledger.
pub record Continues (s s' : Rows) : Type 0 where
  pub pendings_eq : s'.pendings ≡ s.pendings
  pub next_id_le : s.next_id ≤ s'.next_id
  pub reconciled : IsReconciled s → IsReconciled s'

le_self : (n : ℕ) → n ≤ n
le_self n = omega arith

pub Continues-refl : (s : Rows) → Continues s s
Continues-refl s = record {
  pendings_eq = refl;
  next_id_le = le_self s.next_id;
  reconciled = λ h. h;
}

pub Continues-Inv : (s s' : Rows) → Continues s s' → Inv s → Inv s'
Continues-Inv s s' h inv = record {
  reconciled = h.reconciled inv.reconciled;
  book = rw h.pendings_eq (Book-later s.next_id s'.next_id s.pendings h.next_id_le inv.book);
}

pub SameBooks-Continues : (s s' : Rows) → SameBooks s s' → Continues s s'
SameBooks-Continues s s' h = record {
  pendings_eq = h.pendings_eq;
  next_id_le = rw h.next_id_eq (le_self s.next_id);
  reconciled = λ r. rw (h.account_eq, h.ledger_eq) r;
}

pub SameButMarks-Continues : (s s' : Rows) → SameButMarks s s' → Continues s s'
SameButMarks-Continues s s' h = record {
  pendings_eq = h.pendings_eq;
  next_id_le = rw h.next_id_eq (le_self s.next_id);
  reconciled = λ r. rw (h.account_eq, h.ledger_eq) r;
}

pub Swept-Continues : (s s' : Rows) → Swept s s' → Continues s s'
Swept-Continues s s' h = record {
  pendings_eq = h.pendings_eq;
  next_id_le = rw h.next_id_eq (le_self s.next_id);
  reconciled = h.reconciled;
}

pub SwitchedOff-Continues : (m : ℕ) (s s' : Rows) → SwitchedOff m s s' → Continues s s'
SwitchedOff-Continues m s s' h = record {
  pendings_eq = h.pendings_eq;
  next_id_le = rw h.next_id_eq (le_self s.next_id);
  reconciled = h.reconciled;
}

pub Placed-Continues :
    (d : OrderData) (s : Rows) (r : Result (VirtualOrder × Bool) × Rows)
    → Placed d s r
    → Continues s r.1
Placed-Continues d s (err e, s') h = SameBooks-Continues s s' h
Placed-Continues d s (ok (o, true), s') (same, _, _) = rw same (Continues-refl s)
Placed-Continues d s (ok (o, false), s') (_, h) = record {
  pendings_eq = h.pendings_eq;
  next_id_le = rw h.next_id_eq (omega arith);
  reconciled = h.reconciled;
}

pub Edited-Continues :
    (terms : VirtualOrder → VirtualPosition → Type 0) (change : VirtualOrder → VirtualOrder)
    (id : ℕ) (s : Rows) (r : Result VirtualOrder × Rows)
    → Edited terms change id s r
    → Continues s r.1
Edited-Continues terms change id s (err e, s') (same, _) = rw same (Continues-refl s)
Edited-Continues terms change id s (ok o', s') (o, p, _, _, _, same) =
    rw same record { pendings_eq = refl; next_id_le = le_self s.next_id; reconciled = λ h. h }

-- Any close at all, whatever it comes to.
pub close_position-Continues :
    (env : Env) (reason : ExitReason) (exit_ltp : Option ℕ) (s : Rows)
    → pos 0 ≤ℤ s.account.balance
    → (id : ℕ) → Continues s (close_position env id reason exit_ltp s).1
close_position-Continues env reason exit_ltp =
    close_position-any env reason exit_ltp Continues SameBooks-Continues
      (λ o x margin s t h. record {
        pendings_eq = h.pendings_eq;
        next_id_le = rw h.next_id_eq (le_self s.next_id);
        reconciled = h.reconciled;
      })
      (λ o x margin s t h. record {
        pendings_eq = h.pendings_eq;
        next_id_le = rw h.next_id_eq (le_self s.next_id);
        reconciled = h.reconciled;
      })

pub Switched-Continues :
    (m : ℕ) (enabled : Bool) (s : Rows) (r : Result Mode × Rows)
    → Switched m enabled s r
    → Continues s r.1
Switched-Continues m enabled s (err e, s') h = absurd h
Switched-Continues m true s (ok mode, s') (_, same) =
    rw same record { pendings_eq = refl; next_id_le = le_self s.next_id; reconciled = λ h. h }
Switched-Continues m false s (ok mode, s') (_, h) = SwitchedOff-Continues m s s' h
