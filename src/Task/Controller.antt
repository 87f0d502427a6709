-- ===== src/Task/Controller.antt =====
-- The methods of `TaskController` of src/task.rs.
use mvsync.Base.{Bool}
use mvsync.World.{World, TaskState, set_state}
use mvsync.Exec.{M}
use mvsync.Signal
use mvsync.Signal.{SignalFuture}
use mvsync.Task.Handle.{TaskController}

unfoldable pub cancel : TaskController → World → World
cancel c w = set_state c.state TaskState.cancelled w

unfoldable pub is_done : TaskController → World → Bool
unfolding Signal.ready
is_done c w = Signal.ready c.signal w

unfoldable pub wait : TaskController → M (Unit {0})
unfolding Signal.wait
wait c = Signal.wait c.signal

unfoldable pub wait_async : TaskController → SignalFuture
unfolding Signal.wait_async
wait_async c = Signal.wait_async c.signal

-- The copy has the same state and signal; an id of its own is left out.
abbrev pub clone : TaskController → TaskController
clone c = record { state = c.state; signal = c.signal }
