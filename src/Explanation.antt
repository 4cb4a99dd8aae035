-- ===== src/Explanation.antt =====
-- The explanation of a verdict by a language model: app/services/llm.
pub mod Outcomes
pub mod Contract
pub mod Minimization
pub mod Untrusted
pub mod Validation
pub mod Analysis
pub mod Runtime
mod Tests
