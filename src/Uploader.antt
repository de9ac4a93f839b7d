-- ===== src/Uploader.antt =====
-- internal/uploader
pub mod Naming
pub mod Jsonl
pub mod Chunks
pub mod Errors
pub mod Retry
pub mod Upload
