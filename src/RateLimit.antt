-- ===== src/RateLimit.antt =====
-- backend/app/core/rate_limit.py: the guard of the authentication routes.
pub mod Window
pub mod Sliding
