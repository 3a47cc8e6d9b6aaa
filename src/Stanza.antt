-- ===== src/Stanza.antt =====
-- The log pipeline's copy of stanza (processor/signozlogspipelineprocessor/stanza).
pub mod Path
pub mod Value
pub mod Body
pub mod Cache
pub mod Operator
mod Tests
