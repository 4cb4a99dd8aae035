-- ===== src/Housing.antt =====
-- The deposit check: app/domain/housing and app/services/housing_deposit.py.
pub mod Catalog
pub mod Codes
pub mod Deposit
pub mod Policy
pub mod Ratio
pub mod Signals
pub mod Tables
mod Tests
