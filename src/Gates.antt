-- ===== src/Gates.antt =====
-- internal/gates: the gates in front of and behind a deployment, the deployment, and its rollback.
pub mod Types
pub mod Checks
pub mod Health
pub mod Run
pub mod Rollback
pub mod Deploy
mod Tests
