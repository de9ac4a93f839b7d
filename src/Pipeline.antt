-- ===== src/Pipeline.antt =====
-- The upload and collection rounds of cmd/tidewatch/main.go.
pub mod Rounds
pub mod Selected
pub mod Split
pub mod Marks
pub mod Outcome
pub mod Drain
pub mod Loops
pub mod Reports
pub mod Background
pub mod Turns
pub mod Kept
pub mod Outbox
