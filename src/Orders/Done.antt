-- ===== src/Orders/Done.antt =====
-- Orders that are no longer open, by their ids.
use strikefluency.Prelude.{
  refl, [], ◌==◌, ap, arith, if◌then◌else◌, not, false, none, some, ◌∷◌, true, Bool, find,
  modify_first, ◌≡◌, List, ℕ,
}
use strikefluency.Models.Records.{VirtualOrder}
use strikefluency.Models.Terms.{is_open_status}
use strikefluency.Orders.Queries.{has_id}

-- No order is found open for the id.
abbrev pub is_done : ℕ → List VirtualOrder → Bool
is_done id [] = true
is_done id (o ∷ os) = if has_id id o then not (is_open_status o.status) else is_done id os

-- What is no longer open stays so.
abbrev pub NeverOpens : List VirtualOrder → List VirtualOrder → Type 0
NeverOpens os os' = (id : ℕ) → is_done id os ≡ true → is_done id os' ≡ true

-- A change of an order that keeps its id and opens nothing.
abbrev pub IsClosing : (VirtualOrder → VirtualOrder) → Type 0
IsClosing f =
    (o : VirtualOrder)
    → ((f o).id ≡ o.id) × (is_open_status o.status ≡ false → is_open_status (f o).status ≡ false)

pub is_done-found :
    (id : ℕ) (os : List VirtualOrder) (o : VirtualOrder)
    → find (has_id id) os ≡ some o
    → is_done id os ≡ not (is_open_status o.status)
is_done-found id [] o found = ground arith
is_done-found id (p ∷ os) o found = ground (arith, is_done-found id os o)

pub is_done-missing :
    (id : ℕ) (os : List VirtualOrder) → find (has_id id) os ≡ none → is_done id os ≡ true
is_done-missing id [] missing = refl
is_done-missing id (p ∷ os) missing = ground (arith, is_done-missing id os)

pub NeverOpens-modify_first :
    (f : VirtualOrder → VirtualOrder) (id : ℕ) (os : List VirtualOrder)
    → IsClosing f
    → NeverOpens os (modify_first (has_id id) f os)
NeverOpens-modify_first f id [] closing j h = refl
NeverOpens-modify_first f id (o ∷ os) closing j h =
    let same : has_id j (f o) ≡ has_id j o = ap (λ i. i == j) ((closing o).0) in
    ground (arith, same, (closing o).1, NeverOpens-modify_first f id os closing j)
