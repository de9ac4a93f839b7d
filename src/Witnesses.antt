-- ===== src/Witnesses.antt =====
-- The theorems at concrete inputs: a device with a few metrics, a server, and an encoding.
pub mod Fixtures
pub mod StorageExamples
pub mod UploaderExamples
pub mod PipelineExamples
pub mod HealthExamples
pub mod ConfigExamples
pub mod MonitoringExamples
pub mod CollectorExamples
pub mod LockExamples
pub mod OutboxExamples
pub mod MigrationExamples
pub mod ClockExamples
pub mod StartupExamples
