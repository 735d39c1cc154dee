-- ===== src/Storage.antt =====
-- internal/storage: the records that are persisted, and the write-ahead log.
pub mod Types
pub mod Wal
pub mod Store
pub mod Load
pub mod Unreadable
pub mod Examples
