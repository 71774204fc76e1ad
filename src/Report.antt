-- ===== src/Report.antt =====
-- internal/report: the aggregation of the findings of several scanners into one report.
pub mod Severities
pub mod Dedup
pub mod Aggregator
mod Tests
