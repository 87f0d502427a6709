-- ===== src/MvSync/Lifecycle.antt =====
-- A task from its creation by `MVSync` to what its handle gives, on a queue without threads.
use mvsync.Base.{ℕ, ◌<◌, true, false, ◌≡◌, refl, ◌∙◌, arith}
use mvsync.World.{World, Value, unit, TaskState}
use mvsync.Exec.{done, blocks}
use mvsync.Signal
use mvsync.Sync.{SemaphoreUsage}
use mvsync.Sync.Semaphore
use mvsync.Task
use mvsync.Task.{Task}
use mvsync.Task.Body.{Reply, Script, Outcome}
use mvsync.Task.Handle
use mvsync.Task.Handle.{TaskHandle, TaskResult}
use mvsync.Await.Scripts.{Resolves}
use mvsync.Run.{run}
use mvsync.Run.Execute.{execute-running, run-execute, Completed-Holds, wait-Holds, after_take}
use mvsync.Run.Ended.{run-panicked, run-cancelled, wait-panicked, wait-cancelled}
use mvsync.Queue
use mvsync.Queue.{Queue}
use mvsync.MvSync.{create_task, create_async_task, create_continuation}

-- A task of `create_async_task` that is run ends, and its handle then gives what the future returns.
run-create_async_task :
    (queue_signal : ℕ) (f : Script) (n fuel : ℕ) (x : Value) (w : World)
    → Resolves f 0 n (Reply.returns x)
    → n < fuel
    → let ((t, h), w₀) = create_async_task queue_signal f w in
      (w₁ w₂ : World) × (run fuel t w₀ ≡ done tt w₁)
      × (Handle.is_done h w₁ ≡ true)
      × (Handle.wait h w₁ ≡ done (TaskResult.returned x) w₂)
unfolding create_async_task Handle.is_done
run-create_async_task queue_signal f n fuel x w resolves enough =
    let ((t, h), w₀) = create_async_task queue_signal f w in
    let (w₁, runs, c) = execute-running t f h.inner h.state n fuel x w₀ refl resolves enough in
    let held = Completed-Holds t h x w₀ w₁ refl c in
    (
      w₁,
      after_take h w₁,
      run-execute fuel t w₀
            (record { state = ground arith; self_state = ground arith; waits = refl })
          ∙ runs,
      rw (held.state),
      wait-Holds h x w₁ held,
    )

-- A continuation of a task that has panicked is not called: it ends as panicked, and its handle
-- gives a panic whose payload is the unit, whatever the first payload was.
run-continuation-panicked :
    (queue_signal fuel : ℕ) (g : Value → Outcome) (h : TaskHandle) (p : Value) (w : World)
    → h.state < w.next
    → w.states h.state ≡ TaskState.panicked p
    → let ((t, r), w₀) = create_continuation queue_signal g h w in
      (w₁ w₂ : World) × (run fuel t w₀ ≡ done tt w₁)
      × (w₁.buffers ≡ w₀.buffers)
      × (Handle.wait r w₁ ≡ done (TaskResult.panicked unit) w₂)
unfolding create_continuation
run-continuation-panicked queue_signal fuel g h p w old panics =
    let ((t, r), w₀) = create_continuation queue_signal g h w in
    let (w₁, runs, d) = run-panicked fuel t r p w₀ refl refl (ground arith) in
    (w₁, Signal.set_ready r.signal false w₁, runs, d.buffers, wait-panicked r unit w₀ w₁ d)

-- A task that is cancelled before it runs is not called: its handle gives `Cancelled`.
run-cancel :
    (queue_signal fuel : ℕ) (f : Outcome) (w : World)
    → let ((t, h), w₀) = create_task queue_signal f w in
      (w₁ w₂ : World) × (run fuel t (Handle.cancel h w₀) ≡ done tt w₁)
      × (w₁.buffers ≡ w₀.buffers)
      × (Handle.wait h w₁ ≡ done TaskResult.cancelled w₂)
unfolding create_task Handle.cancel Task.is_panicked Task.is_cancelled
run-cancel queue_signal fuel f w =
    let ((t, h), w₀) = create_task queue_signal f w in
    let (w₁, runs, d) =
      run-cancelled fuel t h (Handle.cancel h w₀) refl refl (ground arith) (ground arith) in
    (w₁, Signal.set_ready h.signal false w₁, runs, d.buffers, wait-cancelled h _ w₁ d)

-- A queue without threads drops a task that waits for a semaphore: the submission changes nothing,
-- and the task's handle waits for ever.
submit-drops :
    (q : Queue) (fuel : ℕ) (f : Outcome) (w : World)
    → q.specs.thread_count ≡ 0
    → let (s, v) = Semaphore.new w in
      let ((t, h), w₀) = create_task q.signal f v in
      let t' = Task.bind_semaphore t s SemaphoreUsage.wait in
      (Queue.submit fuel t' q w₀ ≡ done q w₀) × (Handle.wait h w₀ ≡ blocks w₀)
unfolding create_task Queue.submit Semaphore.new Task.bind_semaphore Handle.wait run
    Task.can_execute Task.is_panicked Task.is_cancelled
submit-drops q fuel f w inline = (ground arith, ground arith)
