-- ===== src/Replay.antt =====
-- internal/replay/committer.go
pub mod Cursor
pub mod Invariant
pub mod LowWater
pub mod Committer
pub mod Snapshot
pub mod Flush
pub mod Ticks
pub mod System
