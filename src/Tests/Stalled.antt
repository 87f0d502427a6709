-- ===== src/Tests/Stalled.antt =====
-- The theorem on stalled continuations at a task that has returned 7.
use mvsync.Base.{true, false, some, [], ◌∷◌, ◌≡◌, refl}
use mvsync.World.{set_buffer, set_signal, World, num}
use mvsync.Exec.{done, blocks}
use mvsync.Task
use mvsync.Task.{Task}
use mvsync.Task.Body.{Outcome}
use mvsync.Task.Controller
use mvsync.Task.Handle
use mvsync.Task.Handle.{TaskHandle}
use mvsync.Worker
use mvsync.Worker.{WorkerThread}
use mvsync.Worker.Stalled.{Finishes, turn-stalls}
use mvsync.Tests.Data.{world, thread, task}

abbrev returned : World
returned = set_buffer 10 (some (num 7)) (set_signal 11 (record { ready = true; wakers = [] }) world)

abbrev handle : TaskHandle
handle = record { inner = 10; state = 9; signal = 11 }

abbrev next : Task
next = Task.from_continuation Outcome.returns 16 17 (18, 12) handle

-- The continuation stands before another task.
abbrev serving : WorkerThread
serving = record (thread 1) { channel = next ∷ task 1 9 ∷ [] }

turn-stalls_example :
    Finishes false serving returned 17 (task 1 9 ∷ [])
    × ((w₁ : World) × (Controller.wait (Handle.make_controller handle) returned ≡ done tt w₁)
        × (Task.can_execute next w₁ ≡ true)
        × (Worker.turn false serving w₁ ≡ blocks w₁))
turn-stalls_example =
    turn-stalls Outcome.returns 16 17 (18, 12) handle (num 7) serving false (task 1 9 ∷ []) returned
      (record { up = refl; state = refl; inner = refl }) refl refl refl
