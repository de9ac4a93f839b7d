-- ===== src/Storage.antt =====
-- internal/storage/storage.go
pub mod Table
pub mod Codec
pub mod Insert
pub mod Select
pub mod Update
pub mod Paths
pub mod Invariant
pub mod History
pub mod Migrate
pub mod Open
pub mod Wal
