-- ===== src/Action/Sequence.antt =====
-- A sequence of service calls, by how its first call ended.
use strikefluency.Prelude.{◌≡◌, ap}
use strikefluency.Models.Records.{Rows}
use strikefluency.Action.{Action, Result, Error, ok, err, ◌>>=◌}

module _ {A B : Type 0} where
  -- What follows a call that ended as `(r, s')`.
  abbrev continue : (A → Action B) → Result A × Rows → Result B × Rows
  continue f p = elim (p.0) [ ok a ↦ f a p.1 | err e ↦ (err e, p.1) ]

  pub >>=-ok :
      (m : Action A) (f : A → Action B) (s s' : Rows) (a : A)
      → m s ≡ (ok a, s')
      → (m >>= f) s ≡ f a s'
  >>=-ok m f s s' a h = ap (continue f) h

  pub >>=-err :
      (m : Action A) (f : A → Action B) (s s' : Rows) (e : Error)
      → m s ≡ (err e, s')
      → (m >>= f) s ≡ (err e, s')
  >>=-err m f s s' e h = ap (continue f) h
