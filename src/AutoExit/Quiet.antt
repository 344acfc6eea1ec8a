-- ===== src/AutoExit/Quiet.antt =====
-- Saved protection does not fire at the mark it was checked against.
use mathlib.Core.Path.{subst}
use strikefluency.Orders.Editing.{Edited, update_order_protection-Edited, same_some}
use strikefluency.Orders.Protected.{Brackets, Protectable}
use strikefluency.Prelude.{◌∙◌, find, some, ◌≢◌, arith, ◌≡◌, none, Option, ℕ}
use strikefluency.Models.Terms.{ExitReason, OrderAction}
use strikefluency.Models.Records.{Rows, VirtualPosition, VirtualOrder}
use strikefluency.AutoExit.Levels.{decide_exit_iff, Winning, Losing}
use strikefluency.Action.{err, ok, Result}
use strikefluency.AutoExit.Sweep.{decide_exit}
use strikefluency.Orders.Protection.{update_order_protection, reference_price, with_protection}
use strikefluency.Orders.Queries.{open_of_order}

Brackets-quiet :
    (a : OrderAction) (reference : ℕ) (sl target : Option ℕ)
    → Brackets a reference sl target
    → (¬ (Losing a sl reference)) × (¬ (Winning a target reference))
Brackets-quiet OrderAction.buy r none none h = ground arith
Brackets-quiet OrderAction.buy r none (some t) h = ground arith
Brackets-quiet OrderAction.buy r (some sl) none h = ground arith
Brackets-quiet OrderAction.buy r (some sl) (some t) h = ground arith
Brackets-quiet OrderAction.sell r none none h = ground arith
Brackets-quiet OrderAction.sell r none (some t) h = ground arith
Brackets-quiet OrderAction.sell r (some sl) none h = ground arith
Brackets-quiet OrderAction.sell r (some sl) (some t) h = ground arith

quiet_at :
    (o : VirtualOrder) (p : VirtualPosition) (sl target : Option ℕ) (s : Rows)
    → Protectable o p sl target s
    → (decide_exit (with_protection sl target o) (reference_price p o) ≢ some ExitReason.sl_hit)
      × (decide_exit (with_protection sl target o) (reference_price p o)
          ≢ some ExitReason.target_hit)
quiet_at o p sl target s k =
    let (no_sl, no_target) = Brackets-quiet o.action (reference_price p o) sl target k.brackets in
    let due = decide_exit_iff (with_protection sl target o) (reference_price p o) in
    (
      λ e. no_sl ((due (some ExitReason.sl_hit)).0 e),
      λ e. no_target (((due (some ExitReason.target_hit)).0 e).1),
    )

ok_injective : (a b : VirtualOrder) → Result.ok b ≡ ok a → a ≡ b
ok_injective a b h = cc

quiet_after :
    (id : ℕ) (sl target : Option ℕ) (s : Rows) (r : Result VirtualOrder × Rows)
    → Edited (λ o p. Protectable o p sl target s) (with_protection sl target) id s r
    → (o' : VirtualOrder) (p : VirtualPosition) → r.0 ≡ ok o'
    → find (open_of_order o'.id) s.positions ≡ some p
    → (decide_exit o' (reference_price p o') ≢ some ExitReason.sl_hit)
      × (decide_exit o' (reference_price p o') ≢ some ExitReason.target_hit)
quiet_after id sl target s (ok o2, s') (o, p, h, terms, e, _) o' p' returned held =
    let same : o' ≡ with_protection sl target o = ok_injective o' o2 returned ∙ e in
    let same_p : p' ≡ p =
      same_some (find (open_of_order o.id) s.positions) p' p
        (subst (λ x. find (open_of_order x.id) s.positions ≡ some p') same held) h.held in
    rw (same, same_p) (quiet_at o p sl target s terms)
quiet_after id sl target s (err x, s') h o' p' returned held = cc

-- An edit of the protection that was taken does not fire at once: at the mark that the levels were
-- checked against, the order it returns is due neither for its stop loss nor for its target.
pub update_order_protection-quiet :
    (id : ℕ) (sl target : Option ℕ) (s : Rows) (o' : VirtualOrder) (p : VirtualPosition)
    → (update_order_protection id sl target s).0 ≡ ok o'
    → find (open_of_order o'.id) s.positions ≡ some p
    → (decide_exit o' (reference_price p o') ≢ some ExitReason.sl_hit)
      × (decide_exit o' (reference_price p o') ≢ some ExitReason.target_hit)
update_order_protection-quiet id sl target s =
    quiet_after id sl target s (update_order_protection id sl target s)
      (update_order_protection-Edited id sl target s)
