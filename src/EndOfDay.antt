-- ===== src/EndOfDay.antt =====
-- The end of the trading day (backend/app/services/eod_service.py) and the emergency exit: closes
-- of many orders in turn.
pub mod Sweeps
pub mod Emptied
pub mod Emergency
