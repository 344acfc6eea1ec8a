-- ===== src/Orders.antt =====
-- backend/app/services/virtual_order_service.py: placing, protecting and closing paper orders.
pub mod Request
pub mod Queries
pub mod Place
pub mod Booking
pub mod CloseOutcome
pub mod Done
pub mod Closing
pub mod Day
pub mod Effects
pub mod TwoCloses
pub mod Settlement
pub mod Close
pub mod Idempotence
pub mod Placement
pub mod Opening
pub mod Frame
pub mod Protection
pub mod Protected
pub mod Editing
pub mod AnyClose
