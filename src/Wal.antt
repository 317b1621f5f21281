-- ===== src/Wal.antt =====
-- exchange/wal: the bounded in-memory log and the stages over it.
pub mod Types
pub mod Bytes
pub mod Core
pub mod Format
pub mod Disk
pub mod Reader
pub mod Recovery
pub mod Slider
pub mod Persistence
pub mod Composition
