-- ===== src/Jobs.antt =====
-- Jobs: the work that the Hub hands to its nodes.
pub mod Queue
pub mod Complete
pub mod LiveLog
pub mod Sweeps
