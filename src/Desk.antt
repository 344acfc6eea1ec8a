-- ===== src/Desk.antt =====
-- The services together: what holds of a user's rows after any sequence of requests and sweeps.
pub mod Invariant
pub mod Continuing
pub mod Resting
pub mod Sweeping
pub mod Reach
pub mod Overfunded
