-- ===== src/Desk/Invariant.antt =====
-- What holds of a user's rows between two requests.
use strikefluency.Pending.Park.{has_pending_id}
use strikefluency.Pending.Expiry.{HasDistinctIds, IsSettled, AreApart}
use strikefluency.Prelude.{
  All-append, arith, map, ◌++◌, ◌+◌, [], inr, inl, Bool-cases, All-modify_first, ◌<◌, ◌∷◌, All,
  modify_first, List, ◌≡◌, ◌≤◌, ℕ,
}
use strikefluency.Models.Records.{PendingOrder, Rows}
use strikefluency.Ledger.Balance.{IsReconciled}

-- One lot or more of a contract of three units or more.
abbrev pub IsSized : PendingOrder → Type 0
IsSized p = (1 ≤ p.quantity) × (3 ≤ p.lot_size)

-- The pending orders: each id is taken once and was handed out, a closed order holds no money, and
-- sizes are positive.
pub record Book (next_id : ℕ) (ps : List PendingOrder) : Type 0 where
  pub distinct : HasDistinctIds ps
  pub issued : All (λ p. p.id < next_id) ps
  pub settled : All IsSettled ps
  pub sized : All IsSized ps

pub record Inv (s : Rows) : Type 0 where
  pub reconciled : IsReconciled s
  pub book : Book s.next_id s.pendings

snoc_AreApart :
    (n : ℕ) (y : PendingOrder) (ps : List PendingOrder)
    → HasDistinctIds ps
    → All (λ p. p.id < n) ps
    → n ≤ y.id
    → HasDistinctIds (ps ++ (y ∷ []))
snoc_AreApart n y [] d i h = (tt, tt)
snoc_AreApart n y (p ∷ ps) (d, ds) (i, rest) h =
    let apart : AreApart p y = ground arith in
    (All-append (AreApart p) ps (y ∷ []) d (apart, tt), snoc_AreApart n y ps ds rest h)

below_weaken :
    (m n : ℕ) (ps : List PendingOrder) → m ≤ n → All (λ p. p.id < m) ps → All (λ p. p.id < n) ps
below_weaken m n [] h k = tt
below_weaken m n (p ∷ ps) h (k, ks) = (omega arith, below_weaken m n ps h ks)

-- A new order under the next id.
pub Book-add :
    (n : ℕ) (y : PendingOrder) (ps : List PendingOrder)
    → y.id ≡ n
    → IsSettled y
    → IsSized y
    → Book n ps
    → Book (n + 1) (ps ++ (y ∷ []))
Book-add n y ps e settled sized h = record {
  distinct = snoc_AreApart n y ps h.distinct h.issued (omega arith);
  issued =
      All-append (λ p. p.id < n + 1) ps (y ∷ []) (below_weaken n (n + 1) ps (omega arith) h.issued)
        (omega arith, tt);
  settled = All-append IsSettled ps (y ∷ []) h.settled (settled, tt);
  sized = All-append IsSized ps (y ∷ []) h.sized (sized, tt);
}

-- Fresh ids taken for something else.
pub Book-later : (n m : ℕ) (ps : List PendingOrder) → n ≤ m → Book n ps → Book m ps
Book-later n m ps later h = record {
  distinct = h.distinct;
  issued = below_weaken n m ps later h.issued;
  settled = h.settled;
  sized = h.sized;
}

-- A change of an order that stays in the book: its id and its size are kept.
abbrev pub Keeping : (PendingOrder → PendingOrder) → Type 0
Keeping f =
    (p : PendingOrder)
    → ((f p).id ≡ p.id) × ((f p).quantity ≡ p.quantity) × ((f p).lot_size ≡ p.lot_size)

AreApart-modify :
    (f : PendingOrder → PendingOrder) (id : ℕ) (p : PendingOrder) (ps : List PendingOrder)
    → Keeping f
    → All (AreApart p) ps
    → All (AreApart p) (modify_first (has_pending_id id) f ps)
AreApart-modify f id p ps keep h =
    All-modify_first (AreApart p) (has_pending_id id) f ps (λ q k. rw ((keep q).0) k) h

distinct-modify :
    (f : PendingOrder → PendingOrder) (id : ℕ) (ps : List PendingOrder)
    → Keeping f
    → HasDistinctIds ps
    → HasDistinctIds (modify_first (has_pending_id id) f ps)
distinct-modify f id [] keep h = tt
distinct-modify f id (p ∷ ps) keep (d, ds) = elim (Bool-cases (has_pending_id id p)) [
  | inl hit ↦ rw hit (rw ((keep p).0) d, ds)
  | inr miss ↦ rw miss (AreApart-modify f id p ps keep d, distinct-modify f id ps keep ds)
]

pub Book-modify :
    (f : PendingOrder → PendingOrder) (id n : ℕ) (ps : List PendingOrder)
    → Keeping f
    → ((p : PendingOrder) → IsSettled p → IsSettled (f p))
    → Book n ps
    → Book n (modify_first (has_pending_id id) f ps)
Book-modify f id n ps keep settle h = record {
  distinct = distinct-modify f id ps keep h.distinct;
  issued =
      All-modify_first (λ p. p.id < n) (has_pending_id id) f ps (λ p k. rw ((keep p).0) k) h.issued;
  settled = All-modify_first IsSettled (has_pending_id id) f ps settle h.settled;
  sized =
      All-modify_first IsSized (has_pending_id id) f ps (λ p k. rw ((keep p).1, (keep p).2) k)
        h.sized;
}

-- A change of every order.
AreApart-map :
    (f : PendingOrder → PendingOrder) (p : PendingOrder) (ps : List PendingOrder)
    → Keeping f
    → All (AreApart p) ps
    → All (AreApart (f p)) (map f ps)
AreApart-map f p [] keep h = tt
AreApart-map f p (q ∷ ps) keep (h, hs) =
    (rw ((keep p).0, (keep q).0) h, AreApart-map f p ps keep hs)

All-map :
    (P : PendingOrder → Type 0) (f : PendingOrder → PendingOrder) (ps : List PendingOrder)
    → ((p : PendingOrder) → P p → P (f p))
    → All P ps
    → All P (map f ps)
All-map P f [] h k = tt
All-map P f (p ∷ ps) h (k, ks) = (h p k, All-map P f ps h ks)

distinct-map :
    (f : PendingOrder → PendingOrder) (ps : List PendingOrder)
    → Keeping f
    → HasDistinctIds ps
    → HasDistinctIds (map f ps)
distinct-map f [] keep h = tt
distinct-map f (p ∷ ps) keep (d, ds) = (AreApart-map f p ps keep d, distinct-map f ps keep ds)

pub Book-map :
    (f : PendingOrder → PendingOrder) (n : ℕ) (ps : List PendingOrder)
    → Keeping f
    → ((p : PendingOrder) → IsSettled p → IsSettled (f p))
    → Book n ps
    → Book n (map f ps)
Book-map f n ps keep settle h = record {
  distinct = distinct-map f ps keep h.distinct;
  issued = All-map (λ p. p.id < n) f ps (λ p k. rw ((keep p).0) k) h.issued;
  settled = All-map IsSettled f ps settle h.settled;
  sized = All-map IsSized f ps (λ p k. rw ((keep p).1, (keep p).2) k) h.sized;
}
