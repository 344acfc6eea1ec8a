-- ===== src/Pricing/Instruments.antt =====
-- backend/app/core/instruments.py: the fields of the registry that the services read.
use strikefluency.Prelude.{ℕ}
use strikefluency.Models.Terms.{Instrument}

unfoldable pub spec_lot_size : Instrument → ℕ
spec_lot_size Instrument.nifty = 65
spec_lot_size Instrument.banknifty = 30
spec_lot_size Instrument.sensex = 20

unfoldable pub spec_strike_interval : Instrument → ℕ
spec_strike_interval Instrument.nifty = 50
spec_strike_interval Instrument.banknifty = 100
spec_strike_interval Instrument.sensex = 100
