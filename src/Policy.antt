-- ===== src/Policy.antt =====
-- internal/policy: the decision point, which turns the engine's results into a verdict.
pub mod Decision
pub mod Laws
mod Tests
