-- ===== src/Tests/Asleep.antt =====
-- The theorem on a queue that sleeps, at a concrete input.
use mvsync.Base.{ℕ, some, [], ◌∷◌, map, ◌≡◌, refl, All, arith}
use mvsync.World.{TaskState}
use mvsync.Exec.{done, blocks}
use mvsync.Task
use mvsync.Task.{Task}
use mvsync.Task.State
use mvsync.Queue
use mvsync.Queue.{Queue}
use mvsync.Queue.Dispatch.{relax, find_label}
use mvsync.Queue.Asleep.{IsHomeless, CanBeSent, round_sleeps}
use mvsync.Tests.Data.{world, task, thread, inline_queue}

-- Two tasks that ask for a thread "net", which is not there, while the first thread has a free worker.
abbrev asking : ℕ → Task
asking n = record (task n 9) { preferred_thread = some "net" }

abbrev asked : Queue
asked = record inline_queue { tasks = asking 1 ∷ asking 2 ∷ []; threads = thread 2 ∷ [] }

asking-IsHomeless :
    (n : ℕ) → world.states n ≡ TaskState.pending → IsHomeless (thread 2 ∷ []) world (asking n)
unfolding find_label Task.can_execute Task.is_panicked Task.is_cancelled State.eq
asking-IsHomeless n pending = record {
  label = "net";
  prefers = refl;
  missing = refl;
  not_on = refl;
  can = refl;
  sound = refl;
  uncancelled = rw pending refl;
}

round_sleeps_example :
    (q' : Queue) × (Queue.round asked world ≡ done q' world)
    × (Queue.park q' world ≡ blocks world)
    × (q'.threads ≡ thread 2 ∷ [])
    × (q'.tasks ≡ map relax (asking 1 ∷ asking 2 ∷ []))
    × All (CanBeSent q'.threads world) q'.tasks
round_sleeps_example =
    round_sleeps asked (asking 1) (asking 2 ∷ []) world 0 (thread 2) refl
      (asking-IsHomeless 1 refl, (asking-IsHomeless 2 refl, tt)) refl refl (omega arith)
