-- ===== src/Login.antt =====
-- apps/api/app/instagram/login_sessions.py
pub mod Sessions
pub mod SingleUse
pub mod Restoring
