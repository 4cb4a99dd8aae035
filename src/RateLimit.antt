-- ===== src/RateLimit.antt =====
-- Rate limits: app/services/rate_limits.py, the in-memory repository of
-- app/repositories/rate_limits.py, and what app/core/rate_limit.py makes of a decision.
pub mod Cleanup
pub mod Limit
pub mod Open
pub mod Policies
pub mod Service
pub mod Store
pub mod Window
mod Tests
