-- ===== src/Tests/Shutdown.antt =====
-- The end of a queue and of its threads at concrete inputs.
use mvsync.Base.{false, [], ◌∷◌, ◌≡◌, refl, modify, All, arith}
use mvsync.World.{World, num}
use mvsync.Exec.{done}
use mvsync.Signal
use mvsync.Task.Body.{Reply, running}
use mvsync.Worker
use mvsync.Worker.{WorkerThread, start, run, ends}
use mvsync.Worker.Grows.{IsDone}
use mvsync.Worker.Drained.{run-ends}
use mvsync.Queue
use mvsync.Queue.{new_threads, label_all}
use mvsync.Queue.System.{System, WorkerStep, Step, Reach, fresh}
use mvsync.Queue.Shutdown.{IsQuiet, Reach-fresh-ended}
use mvsync.Tests.Data.{specs, world, task, thread, failing, late_seven}

abbrev fresh_system : System
fresh_system = fresh specs ("io" ∷ []) 12 world

-- A new queue is dropped, its loop ends, and then the loop of its first thread.
abbrev dropped : System
dropped = record fresh_system { queue = Queue.drop fresh_system.queue }

abbrev closed : System
closed = record fresh_system { queue = Queue.release dropped.queue }

abbrev left : WorkerThread
left = record (thread 3) { connected = false; signal = 20; end = 2 }

abbrev first_left : System
first_left = record fresh_system {
  queue = record closed.queue { threads = modify closed.queue.threads 0 (λ _. left) };
}

dropped-closed : Step dropped closed
unfolding Queue.receive Queue.receive_none Queue.drop Queue.new
dropped-closed = Step.closes dropped.queue refl refl

closed-first_left : Step closed first_left
unfolding Queue.release Queue.drop Queue.new new_threads label_all Worker.new Signal.new
    Worker.set_label Worker.drop Worker.receive Worker.receive_first Worker.receive_none
closed-first_left =
    Step.works 0 (record left { end = 0 }) left refl
      (WorkerStep.ends (record left { end = 0 }) refl refl) refl

Reach-fresh-ended_example : IsQuiet first_left.queue × (left.channel ≡ []) × (left.futures ≡ [])
unfolding Queue.release Queue.drop Queue.new new_threads label_all Worker.new Signal.new
    Worker.set_label Worker.drop
Reach-fresh-ended_example =
    Reach-fresh-ended specs ("io" ∷ []) 12 world first_left 0 left
      (Reach.next {b = closed}
        (Reach.next {b = dropped} {c = closed}
          (Reach.next {b = fresh_system} {c = dropped} Reach.here (Step.drops refl)) dropped-closed)
        closed-first_left)
      refl (omega arith)

-- A thread whose handle is gone, with a task that panics and tasks that return at once or later.
abbrev leaving : WorkerThread
leaving = record (thread 0) {
  channel =
      task 1 9
      ∷ record (task 2 9) { inner = running late_seven 0 31 2 }
      ∷ record (task 3 9) { inner = running late_seven 0 32 3 }
      ∷ [];
  connected = false;
  futures = failing ∷ [];
}

run-ends_example :
    (u : WorkerThread) × (v : World) × (run 7 false leaving world ≡ done (ends u) v)
    × (u.channel ≡ [])
    × (u.futures ≡ [])
    × (u.end ≡ 2)
    × All (IsDone v) (4 ∷ 1 ∷ 2 ∷ 3 ∷ [])
unfolding start
run-ends_example =
    run-ends 2 leaving world refl refl (refl, tt)
      (
        refl,
        (
          (2, Reply.returns (num 7), omega arith, (refl, (refl, refl)), tt, refl),
          ((2, Reply.returns (num 7), omega arith, (refl, (refl, refl)), tt, refl), tt),
        ),
      )
