-- ===== src/Tests/Fences.antt =====
-- The theorem on fences at two concrete tasks: the first one returns and the second one panics.
use mvsync.Base.{true, false, ◌≡◌, refl, arith}
use mvsync.World.{World, TaskState, num, foreign, set_state}
use mvsync.Exec.{done, blocks, Poll}
use mvsync.Sync.Fence
use mvsync.Task
use mvsync.Task.{Task}
use mvsync.Task.Body
use mvsync.Task.Body.{Outcome, calling}
use mvsync.Worker
use mvsync.Worker.{settled, start}
use mvsync.Worker.Fences.{bind_fence-last}
use mvsync.Tests.Data.{world, task}

abbrev first : Task
first = task 1 9

abbrev second : Task
second = record (task 2 9) { inner = calling (Outcome.panics (num 5)) 14 2; signal = (16, 12) }

-- The fence 30 is bound to the first task and then to the second one.
abbrev bound : World
bound = Task.bind_fence second 30 (Task.bind_fence first 30 world)

abbrev first_ended : World
first_ended = settled (start first) (Body.complete 10 1 (num 7) bound)

abbrev both_ended : World
both_ended = settled (start second) (set_state 2 (TaskState.panicked (num 5)) first_ended)

bind_fence-last_example :
    (Fence.ready 30 first_ended ≡ done false first_ended)
    × (Fence.wait 30 first_ended ≡ blocks first_ended)
    × (Fence.ready 30 both_ended ≡ done true both_ended)
    × (Fence.poll (foreign 4) (Fence.wait_async 30) both_ended ≡ done (Poll.ready tt) both_ended)
    × ((v₃ : World) × (Fence.wait 30 both_ended ≡ done tt v₃)
        × (Fence.ready 30 v₃ ≡ done false v₃)
        × (Fence.wait 30 v₃ ≡ blocks v₃))
unfolding Worker.poll_one Worker.judge Body.poll Body.call Worker.start
bind_fence-last_example =
    bind_fence-last first second 15 15 30 (foreign 4) true false world first_ended both_ended
      (omega arith) (omega arith) (omega arith) refl refl refl refl refl
