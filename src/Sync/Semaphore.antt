-- ===== src/Sync/Semaphore.antt =====
-- `Semaphore` of src/sync.rs.
use mvsync.Base.{ℕ, ◌+◌, Bool, true, false, set_at}
use mvsync.World.{World, set_semaphore}

-- `Arc::new(Semaphore::new())`.
unfoldable pub new : World → ℕ × World
new w = (w.next, record w { semaphores = set_at w.semaphores w.next false; next = w.next + 1 })

unfoldable pub signal : ℕ → World → World
signal i w = set_semaphore i true w

unfoldable pub ready : ℕ → World → Bool
ready i w = w.semaphores i
