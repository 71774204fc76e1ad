-- ===== src/Progress.antt =====
-- internal/progress: the reporters of progress.
pub mod Channel
mod Tests
