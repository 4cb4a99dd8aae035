-- ===== src/Sessions.antt =====
-- Anonymous sessions: app/services/auth_sessions.py over the in-memory repository of
-- app/repositories/auth_sessions.py.
pub mod Deletion
pub mod Owners
pub mod Service
pub mod Store
pub mod Tokens
mod Tests
