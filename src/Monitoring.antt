-- ===== src/Monitoring.antt =====
-- The meta-metrics of internal/monitoring/metrics.go.
pub mod Percentiles
pub mod Ranks
pub mod Collector
pub mod Samples
pub mod Windows
pub mod ClockSkew
