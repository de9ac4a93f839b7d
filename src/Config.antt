-- ===== src/Config.antt =====
-- The configuration of internal/config/config.go, and what cmd/tidewatch/main.go makes of its remote part.
pub mod Floats
pub mod Types
pub mod Durations
pub mod Validate
pub mod Sound
pub mod Complete
pub mod Uploads
pub mod Settings
