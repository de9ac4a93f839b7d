-- ===== src/Health.antt =====
-- The health checker of internal/health/health.go.
pub mod Checker
pub mod Overall
pub mod Worst
pub mod Reports
