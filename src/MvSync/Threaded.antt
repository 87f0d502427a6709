-- ===== src/MvSync/Threaded.antt =====
-- A task from its creation to its handle, on a worker thread that has nothing else to do.
use mvsync.Base.{◌∷◌, ℕ, ◌+◌, ◌^◌, ◌<◌, Bool, false, [], ◌≡◌, refl, ap, ◌∙◌, arith}
use mvsync.World.{World, Value, TaskState, unit, set_state}
use mvsync.Exec.{done}
use mvsync.Signal
use mvsync.Task
use mvsync.Task.{Task}
use mvsync.Task.Body
use mvsync.Task.Body.{Outcome}
use mvsync.Task.Handle
use mvsync.Task.Handle.{TaskResult}
use mvsync.Run.{settle}
use mvsync.Run.Settle.{settle-Settled}
use mvsync.Run.Ended.{Ended, wait-panicked}
use mvsync.Worker
use mvsync.Worker.{WorkerThread}
use mvsync.Worker.Single.{given, rid, turn-unwinds}
use mvsync.MvSync.{create_task}

-- A task over a function that panics ends in the same turn: the handle gives a panic whose payload is the
-- unit, and the thread has one free worker less than before the task was sent.
turn-create_task_panics :
    (t : WorkerThread) (q : ℕ) (p : Value) (e : Bool) (w : World)
    → t.futures ≡ []
    → t.channel ≡ []
    → t.end ≡ 0
    → 0 < t.free_workers
    → t.free_workers < 2 ^ 32
    → let ((task, h), w₀) = create_task q (Outcome.panics p) w in
      let (t₁, w₁) = Worker.send task t w₀ in
      (t₂ : WorkerThread) × (w₂ w₃ : World) × (Worker.turn e t₁ w₁ ≡ done (Worker.continues t₂) w₂)
      × (t₂.futures ≡ [])
      × (t₂.free_workers + 1 ≡ t.free_workers)
      × (Handle.wait h w₂ ≡ done (TaskResult.panicked unit) w₃)
unfolding create_task Worker.send Task.from_function Handle.new_handle Body.poll Body.call
turn-create_task_panics t q p e w idle empty live some_free few =
    let ((task, h), w₀) = create_task q (Outcome.panics p) w in
    let (t₁, w₁) = Worker.send task t w₀ in
    let same : t₁ ≡ given (task ∷ []) t₁ = rw empty (rw idle (rw live refl)) in
    let w₂ = settle task.semaphores task.signal (set_state h.state (TaskState.panicked p) w₁) in
    let d =
      settle-Settled task.semaphores task.signal (set_state h.state (TaskState.panicked p) w₁) in
    let ended : Ended h (TaskState.panicked p) w₁ w₂ = record {
      up = d.own;
      state = ap (λ f. f h.state) d.states ∙ ground arith;
      buffers = d.buffers;
    } in
    (
      rid t₁.free_workers [] t₁,
      w₂,
      Signal.set_ready h.signal false w₂,
      ap (λ x. Worker.turn e x w₁) same ∙ turn-unwinds t₁ task [] w₁ w₁ e p refl,
      refl,
      omega arith,
      wait-panicked h p w₁ w₂ ended,
    )
