-- ===== src/Fraud.antt =====
-- The fraud analysis: app/domain/fraud and app/services/fraud_analysis.py.
pub mod Actions
pub mod Analysis
pub mod Detection
pub mod Catalog
pub mod Codes
pub mod Levels
pub mod Minimums
pub mod Policies
pub mod Public
pub mod Tables
pub mod Types
mod Tests
