-- ===== src/Pending.antt =====
-- backend/app/services/pending_order_service.py: limit orders that rest until the premium reaches
-- the limit.
pub mod Park
pub mod Trigger
pub mod Reserve
pub mod Cancelling
pub mod Filling
pub mod Slipping
pub mod Sweeping
pub mod Expiry
pub mod Parking
