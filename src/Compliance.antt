-- ===== src/Compliance.antt =====
-- internal/compliance: the assessment of controls against findings, gaps, and coverage.
pub mod Types
pub mod Assess
pub mod Gap
pub mod Coverage
pub mod Extract
pub mod Cwe
pub mod Mapper
pub mod Frameworks
pub mod Book
pub mod Generate
mod Tests
mod MapperTests
