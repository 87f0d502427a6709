-- ===== src/MvSync/Polled.antt =====
-- An asynchronous task from its creation to its handle, on a worker thread that has nothing else to do.
use mvsync.Base.{ℕ, zero, suc, ◌^◌, ◌<◌, true, false, [], ◌∷◌, ◌≡◌, refl, ap, ◌∙◌, arith}
use mvsync.World.{World, Value, TaskState}
use mvsync.Exec.{done, M, ◌>>=◌, pure}
use mvsync.Signal
use mvsync.Signal.Frame.{wake-SameData}
use mvsync.Task
use mvsync.Task.{Task}
use mvsync.Task.State
use mvsync.Task.Body
use mvsync.Task.Body.{Script, Reply}
use mvsync.Task.Handle
use mvsync.Task.Handle.{TaskResult}
use mvsync.Await.Scripts.{Resolves}
use mvsync.Run.{settle}
use mvsync.Run.Settle.{settle-Settled}
use mvsync.Run.Execute.{Holds, wait-Holds, after_take}
use mvsync.Worker
use mvsync.Worker.{WorkerThread, Running}
use mvsync.MvSync.{create_async_task}

module _ (t : WorkerThread) (task : Task) (f : Script) (b s : ℕ) where
  -- The task in the channel, after `j` polls in the futures, and done.
  abbrev async_task : Task
  async_task = record task { inner = Body.running f 0 b s }

  abbrev given : WorkerThread
  given = record t { channel = async_task ∷ []; connected = true; futures = []; end = 0 }

  abbrev entry : ℕ → Running
  entry j = record {
    state = task.self_state;
    inner = Body.running f j b s;
    semaphores = task.semaphores;
    to_signal = task.signal;
  }

  abbrev busy : ℕ → WorkerThread
  busy j = record t { channel = []; connected = true; futures = entry j ∷ []; end = 0 }

  abbrev rid : WorkerThread
  rid = record t {
    channel = [];
    connected = true;
    futures = [];
    end = 0;
    free_workers = Worker.fetch_add t.free_workers;
  }

  -- What a turn does after it has received.
  abbrev body : ℕ → M Worker.Turn
  body j = Worker.poll_all (busy j) >>= Worker.park >>= λ u. pure (Worker.continues u)

  abbrev woken_once : World → World
  woken_once w = Signal.set_ready t.signal false (Signal.set_ready t.signal true w)

  body-pends :
      (j : ℕ) (w : World)
      → f j ≡ Reply.pends true
      → w.states task.self_state ≡ TaskState.pending
      → body j w ≡ done (Worker.continues (busy (suc j))) (woken_once w)
  unfolding Worker.poll_all Worker.retain Worker.poll_one Worker.judge Worker.park Body.poll
      Body.resume Signal.call Signal.wait State.eq
  body-pends j w pends unfinished =
      let up : ((Signal.set_ready t.signal true w).signals t.signal).ready ≡ true = ground arith in
      rw pends (rw unfinished (rw (up, Signal.wait) refl))

  body-returns :
      (j : ℕ) (x : Value) (w : World)
      → f j ≡ Reply.returns x
      → body j w
        ≡ done (Worker.continues rid) (settle task.semaphores task.signal (Body.complete b s x w))
  unfolding Worker.poll_all Worker.retain Worker.poll_one Worker.judge Worker.park Body.poll
      Body.resume
  body-returns j x w returns = rw returns refl

  -- The loop from the `j`-th poll on: it ends with no futures, before `recv`.
  run-busy :
      (n j : ℕ) (x : Value) (w : World)
      → Resolves f j n (Reply.returns x)
      → w.states task.self_state ≡ TaskState.pending
      → (v : World) × (Worker.run (suc (suc n)) false (busy j) w
          ≡ done (Worker.parked rid) (settle task.semaphores task.signal (Body.complete b s x v)))
  unfolding Worker.run Worker.turn Worker.receive Worker.receive_first Worker.receive_none
      Worker.receive_all
  run-busy zero j x w resolves unfinished = (w, rw (body-returns j x w resolves) refl)
  run-busy (suc n) j x w (pends, later) unfinished =
      let (v, runs) = run-busy n (suc j) x (woken_once w) later unfinished in
      (v, rw (body-pends j w pends unfinished) runs)

  run-given :
      (n : ℕ) (x : Value) (w : World)
      → Resolves f 0 n (Reply.returns x)
      → w.states task.self_state ≡ TaskState.pending
      → (v : World) × (Worker.run (suc (suc n)) false given w
          ≡ done (Worker.parked rid) (settle task.semaphores task.signal (Body.complete b s x v)))
  unfolding Worker.run Worker.turn Worker.receive Worker.receive_first Worker.start
  run-given n x w resolves unfinished = run-busy n 0 x w resolves unfinished

-- A task over a future that pends `n` times, calling its waker, and then returns is run to its end by
-- `n + 1` turns of a thread that it is sent to while the thread has nothing else to do. The thread is then
-- in `recv`, with as many free workers as before it was sent, and the handle is done and gives the value.
pub run-create_async_task_threaded :
    (t : WorkerThread) (q : ℕ) (f : Script) (n : ℕ) (x : Value) (w : World)
    → Resolves f 0 n (Reply.returns x)
    → t.futures ≡ []
    → t.channel ≡ []
    → t.end ≡ 0
    → t.connected ≡ true
    → 0 < t.free_workers
    → t.free_workers < 2 ^ 32
    → let ((task, h), w₀) = create_async_task q f w in
      let (t₁, w₁) = Worker.send task t w₀ in
      (t₂ : WorkerThread) × (w₂ w₃ : World) × (Worker.run (suc (suc n)) false t₁ w₁
        ≡ done (Worker.parked t₂) w₂)
      × (t₂.futures ≡ [])
      × (t₂.free_workers ≡ t.free_workers)
      × (Handle.is_done h w₂ ≡ true)
      × (Handle.wait h w₂ ≡ done (TaskResult.returned x) w₃)
unfolding create_async_task Worker.send Handle.is_done Task.from_async Handle.new_handle
    Body.complete
run-create_async_task_threaded t q f n x w resolves idle empty live open_end some_free few =
    let ((task, h), w₀) = create_async_task q f w in
    let (t₁, w₁) = Worker.send task t w₀ in
    let same : t₁ ≡ given t₁ task f h.inner h.state =
      rw empty (rw idle (rw live (rw open_end refl))) in
    let untouched : w₁.states h.state ≡ w₀.states h.state =
      ap (λ g. g h.state) ((wake-SameData t.signal w₀).states) in
    let (v, runs) =
      run-given t₁ task f h.inner h.state n x w₁ resolves (untouched ∙ ground arith) in
    let w₂ = settle task.semaphores task.signal (Body.complete h.inner h.state x v) in
    let d = settle-Settled task.semaphores task.signal (Body.complete h.inner h.state x v) in
    let held : Holds h x w₂ = record {
      up = d.own;
      state = ap (λ g. g h.state) d.states ∙ ground arith;
      inner = ap (λ g. g h.inner) d.buffers ∙ ground arith;
    } in
    (
      rid t₁ task f h.inner h.state,
      w₂,
      after_take h w₂,
      ap (λ y. Worker.run (suc (suc n)) false y w₁) same ∙ runs,
      refl,
      omega arith,
      rw (held.state) refl,
      wait-Holds h x w₂ held,
    )
