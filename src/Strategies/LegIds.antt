-- ===== src/Strategies/LegIds.antt =====
-- The legs of a strategy by their ids: a leg whose id is new is replaced where it stands.
use strikefluency.Strategies.Book.{LegRow}
use strikefluency.Strategies.Exit.{leg_has_id}
use strikefluency.Prelude.{
  modify_first, refl, ap, arith, false, [], ◌==◌, ◌≡◌, exists, map, ◌++◌, ◌∷◌, List, ℕ,
}

-- The ids of the legs are different: none is among those seen before it.
abbrev pub HasNewIds : List ℕ → List LegRow → Type 0
HasNewIds seen [] = Unit
HasNewIds seen (row ∷ legs) =
    (exists (λ i. i == row.id) seen ≡ false) × HasNewIds (seen ++ (row.id ∷ [])) legs

abbrev pub ids_of : List LegRow → List ℕ
ids_of legs = map (λ row. row.id) legs

pub exists-ids :
    (id : ℕ) (legs : List LegRow)
    → exists (λ i. i == id) (ids_of legs) ≡ exists (leg_has_id id) legs
exists-ids id [] = refl
exists-ids id (row ∷ legs) = ground (arith, exists-ids id legs)

pub ids_of-snoc :
    (legs : List LegRow) (row : LegRow) → ids_of (legs ++ (row ∷ [])) ≡ ids_of legs ++ (row.id ∷ [])
ids_of-snoc [] row = refl
ids_of-snoc (l ∷ legs) row = ap (λ is. l.id ∷ is) (ids_of-snoc legs row)

pub append_snoc : (xs ys : List LegRow) (y : LegRow) → xs ++ (y ∷ ys) ≡ xs ++ (y ∷ []) ++ ys
append_snoc [] ys y = refl
append_snoc (x ∷ xs) ys y = ap (λ zs. x ∷ zs) (append_snoc xs ys y)

pub modify_first-middle :
    (id : ℕ) (new row : LegRow) (xs ys : List LegRow)
    → exists (leg_has_id id) xs ≡ false
    → row.id ≡ id
    → modify_first (leg_has_id id) (λ _. new) (xs ++ (row ∷ ys)) ≡ xs ++ (new ∷ ys)
modify_first-middle id new row [] ys h e = ground arith
modify_first-middle id new row (x ∷ xs) ys h e =
    ground (arith, modify_first-middle id new row xs ys)
