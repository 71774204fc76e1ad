-- ===== src/Runners.antt =====
-- internal/pipeline/runner.go: the runners of the stages, and their registry. What they call outside
-- the package is a record of functions on an abstract world.
pub mod Common
pub mod Registry
pub mod Threshold
pub mod Command
pub mod Frameworks
pub mod Sarif
pub mod Markdown
pub mod Scan
pub mod Policy
pub mod Report
pub mod Compliance
pub mod Custom
pub mod Default
mod Tests
