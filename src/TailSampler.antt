-- ===== src/TailSampler.antt =====
-- The tail sampling processor (processor/signoztailsampler).
pub mod Trace
pub mod Scan
pub mod Filters
pub mod Limits
pub mod Memo
pub mod Config
pub mod Policy
pub mod Batcher
pub mod Processor
pub mod Setup
mod Tests
