-- ===== src/Market/Grouping.antt =====
-- `defaultdict(list)` keyed by instrument: how a sweep orders its rows, one instrument after the
-- other in the order of first appearance, each group in the order of the query.
use strikefluency.Models.Terms.{Instrument, instrument_eq}
use strikefluency.Prelude.{exists, ◌++◌, if◌then◌else◌, select, [], ◌∷◌, List}

module _ {A : Type 0} (key : A → Instrument) where
  unfoldable pub grouped : List Instrument → List A → List A
  grouped [] rows = []
  grouped (i ∷ is) rows = select (λ r. instrument_eq (key r) i) rows ++ grouped is rows

  unfoldable pub instruments_of : List Instrument → List A → List Instrument
  instruments_of seen [] = seen
  instruments_of seen (r ∷ rows) =
      if exists (instrument_eq (key r)) seen
      then instruments_of seen rows
      else instruments_of (seen ++ (key r ∷ [])) rows

  unfoldable pub by_instrument : List A → List A
  by_instrument rows = grouped (instruments_of [] rows) rows
