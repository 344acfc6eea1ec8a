-- ===== src/DisciplineMode.antt =====
-- The master switch of the discipline mode (backend/app/services/discipline_mode_service.py).
pub mod Switch
pub mod Unlocking
