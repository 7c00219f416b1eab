-- ===== src/Usage.antt =====
-- The usage collector: internal/usagecollector. It reads traffic counters from the nodes, merges
-- them into records and writes these to a sink.
pub mod Counters
pub mod Poll
pub mod Sink
pub mod Parsed
pub mod Conserved
pub mod Written
mod Tests
