-- ===== src/Tests/Threads.antt =====
-- The theorems on the turns of a thread at concrete inputs.
use mvsync.Exec.{done}
use mvsync.Queue
use mvsync.Queue.{Queue}
use mvsync.MvSync.{create_async_task}
use mvsync.MvSync.Served.{Serves, submit-Within}
use mvsync.Base.{true, some, get_elem?, ◌<◌, ◌≡◌, ℕ, ◌+◌, false, [], ◌∷◌, length, refl, arith}
use mvsync.World.{World, num}
use mvsync.Task.Body.{Reply, Script, running}
use mvsync.Worker.{WorkerThread, start}
use mvsync.Worker.Turns.{Within}
use mvsync.Worker.Carried.{Gives}
use mvsync.Tests.Data.{specs, world, task, thread, failing, late_seven}

abbrev never : Script
never n = Reply.pends false

-- It has a task that panics, and one that pends for ever in its channel.
abbrev loaded : WorkerThread
loaded = record (thread 2) {
  channel = record (task 1 9) { inner = running never 0 14 1 } ∷ [];
  futures = failing ∷ [];
}

-- The first thread has no free worker.
abbrev serving : Queue
serving = record {
  channel = [];
  connected = true;
  signal = 12;
  specs = specs;
  threads = thread 0 ∷ loaded ∷ [];
  tasks = [];
}

submit-Within_example :
    let ((task, h), w₀) = create_async_task 12 late_seven world in
    (q₁ q₂ : Queue) × (w₁ w₂ : World) × (i : ℕ) × (c t : WorkerThread) × (Queue.submit 0 task
        serving w₀
      ≡ done q₁ w₁)
    × (Queue.turn q₁ w₁ ≡ done (Queue.continues q₂) w₂)
    × (q₂.tasks ≡ [])
    × (get_elem? serving.threads i ≡ some c)
    × (0 < c.free_workers)
    × (get_elem? q₂.threads i ≡ some t)
    × Within (Gives h (num 7)) (length c.channel + 1 + 2) false t w₂
unfolding start
submit-Within_example =
    submit-Within serving 0 late_seven 2 (num 7) 1 loaded false world (omega arith) refl refl
      (idle, (busy, tt)) refl (omega arith) (refl, (refl, refl))
  where
    idle : Serves 20 (thread 0)
    idle = (tt, tt, refl)

    busy : Serves 20 loaded
    busy = (
      (((omega arith, omega arith), omega arith), tt),
      (((omega arith, omega arith), omega arith), tt),
      refl,
    )
