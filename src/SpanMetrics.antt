-- ===== src/SpanMetrics.antt =====
-- The span metrics processor (processor/signozspanmetricsprocessor).
pub mod Cache
pub mod Key
pub mod Histogram
pub mod Family
pub mod Address
pub mod Processor
mod Tests
