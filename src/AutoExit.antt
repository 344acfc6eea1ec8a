-- ===== src/AutoExit.antt =====
-- backend/app/services/auto_exit_service.py: the sweep that closes orders on their levels.
pub mod Sweep
pub mod Levels
pub mod Quiet
pub mod Held
pub mod Swallowed
