-- ===== src/Alerting.antt =====
-- internal/alerting: alerts, the manager that sends them to notifiers, and the registry of the kinds
-- of notifiers.
pub mod Types
pub mod Manager
pub mod Registry
mod Tests
