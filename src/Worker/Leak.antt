-- ===== src/Worker/Leak.antt =====
-- A thread that loses a worker to a task that panics.
use mvsync.Base.{[], ◌∷◌, ◌≡◌, ap, ◌∙◌, arith}
use mvsync.World.{World, Value, TaskState, context, set_state}
use mvsync.Exec.{done, unwinds}
use mvsync.Task.Body
use mvsync.Run.Settle.{settle-Settled}
use mvsync.Worker.{WorkerThread, Running, settled, poll_all, poll_one, judge, retain}

-- The thread after its only future has panicked.
abbrev pub emptied : WorkerThread → WorkerThread
emptied t = record t { futures = [] }

-- A task that panics on a thread ends as panicked, and leaves the thread without the worker that the
-- task was given: the counter of free workers is as it was while the task ran.
pub poll_all-panics :
    (t : WorkerThread) (r : Running) (p : Value) (w v : World)
    → t.futures ≡ r ∷ []
    → Body.poll (context t.signal) r.inner w ≡ unwinds p v
    → (w' : World) × (poll_all t w ≡ done (emptied t) w')
      × (w'.states r.state ≡ TaskState.panicked p)
unfolding poll_all retain poll_one judge
poll_all-panics t r p w v e panics =
    let w' = settled r (set_state r.state (TaskState.panicked p) v) in
    (
      w',
      rw e (rw panics),
      ap (λ f. f r.state)
            (settle-Settled r.semaphores r.to_signal
              (set_state r.state (TaskState.panicked p) v)).states
          ∙ ground arith,
    )
