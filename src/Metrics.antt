-- ===== src/Metrics.antt =====
-- The metrics of src/metrics: counters, meters, timers with their histograms, and the registry.
pub mod Counter
pub mod Meter
pub mod Timer
pub mod Registry
pub mod Reports
mod Tests
