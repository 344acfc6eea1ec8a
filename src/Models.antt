-- ===== src/Models.antt =====
-- The rows of backend/app/models and the constants of backend/app/core/constants.py.
pub mod Terms
pub mod Records
