-- ===== src/Pipeline.antt =====
-- internal/pipeline: pipelines of stages, their validation, and their execution.
pub mod Types
pub mod Order
pub mod Validate
pub mod Result
pub mod Completed
pub mod Status
pub mod Runner
pub mod Execute
pub mod Errors
pub mod Parallel
mod Tests
pub mod Cycle
pub mod Sort
