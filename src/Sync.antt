-- ===== src/Sync.antt =====
-- src/sync.rs: semaphores, which only tasks read, and fences, which only code outside tasks reads.
pub mod Semaphore
pub mod Fence

pub data SemaphoreUsage : Type 0 where
  wait signal : SemaphoreUsage
