-- ===== src/Kubernetes.antt =====
-- internal/kubernetes/health.go: the health of the pods of a deployment.
pub mod Health
pub mod Check
mod Tests
