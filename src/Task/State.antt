-- ===== src/Task/State.antt =====
-- `TaskState` of src/task.rs: its equality and `take`, which copies the state without its payload.
use mvsync.Base.{ℕ, ◌+◌, Bool, true, false, set_at}
use mvsync.World.{World, unit, TaskState}

-- Two panics are equal whatever their payloads.
unfoldable pub eq : TaskState → TaskState → Bool
eq TaskState.pending TaskState.pending = true
eq TaskState.ready TaskState.ready = true
eq (TaskState.panicked _) (TaskState.panicked _) = true
eq TaskState.cancelled TaskState.cancelled = true
eq _ _ = false

unfoldable pub take : TaskState → TaskState
take TaskState.pending = TaskState.pending
take TaskState.ready = TaskState.ready
take (TaskState.panicked _) = TaskState.panicked unit
take TaskState.cancelled = TaskState.cancelled

-- `Arc::new(RwLock::new(s))`.
unfoldable pub new : TaskState → World → ℕ × World
new s w = (w.next, record w { states = set_at w.states w.next s; next = w.next + 1 })
