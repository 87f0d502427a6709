-- ===== src/Worker/Single.antt =====
-- A turn of `WorkerThread::run` in src/queue.rs on a thread with no futures, whose next task ends at its first poll.
use mvsync.Base.{ℕ, Bool, true, false, List, [], ◌∷◌, ◌≡◌, refl}
use mvsync.World.{World, Value, TaskState, context, set_state}
use mvsync.Exec.{done, unwinds, Poll}
use mvsync.Task.{Task}
use mvsync.Task.Body
use mvsync.Run.{settle}
use mvsync.Worker
use mvsync.Worker.{WorkerThread}

-- The thread with tasks in its channel and no futures.
abbrev pub given : List Task → WorkerThread → WorkerThread
given ts t = record t { channel = ts; futures = []; end = 0 }

abbrev pub rid : ℕ → List Task → WorkerThread → WorkerThread
rid free ts t = record t { channel = ts; futures = []; end = 0; free_workers = free }

module _ (t : WorkerThread) (task : Task) (ts : List Task) (w u : World) where
  pub turn-ready :
      (e : Bool)
      → Body.poll (context t.signal) task.inner w ≡ done (Poll.ready tt) u
      → Worker.turn e (given (task ∷ ts) t) w
        ≡ done
            (Worker.continues (rid (Worker.fetch_add t.free_workers) ts t))
            (settle task.semaphores task.signal u)
  unfolding Worker.turn Worker.receive Worker.receive_first Worker.poll_all Worker.retain
      Worker.poll_one Worker.judge Worker.start Worker.park
  turn-ready true ends = rw ends refl
  turn-ready false ends = rw ends refl

  pub turn-unwinds :
      (e : Bool) (p : Value)
      → Body.poll (context t.signal) task.inner w ≡ unwinds p u
      → Worker.turn e (given (task ∷ ts) t) w
        ≡ done (Worker.continues (rid t.free_workers ts t)) (
            settle task.semaphores task.signal (set_state task.self_state (TaskState.panicked p) u))
  unfolding Worker.turn Worker.receive Worker.receive_first Worker.poll_all Worker.retain
      Worker.poll_one Worker.judge Worker.start Worker.park
  turn-unwinds true p ends = rw ends refl
  turn-unwinds false p ends = rw ends refl
