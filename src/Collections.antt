-- ===== src/Collections.antt =====
-- The containers of pkg/: Go maps, sets, queues and the helpers of pkg/util.
pub mod Map
pub mod Set
pub mod Queue
pub mod SyncQueue
pub mod Util
pub mod DiskSyncMap
