-- ===== src/Run/Execute.antt =====
-- What the execution of one task comes to.
use mvsync.Base.{
  ℕ, suc, ◌+◌, ◌<◌, true, false, ◌||◌, none, some, ◌≡◌, refl, sym, ap, ◌∙◌, elem, all, set_at,
  arith,
}
use mvsync.World.{World, Waker, context, Value, TaskState, set_buffer}
use mvsync.Exec.{done}
use mvsync.Signal
use mvsync.Task
use mvsync.Task.{Task}
use mvsync.Task.Body
use mvsync.Task.Body.{Reply, Script, Outcome, running, calling, complete, continuing}
use mvsync.Task.Handle
use mvsync.Task.Handle.{TaskHandle, TaskResult}
use mvsync.Task.State
use mvsync.Await.{await_sync, await_loop}
use mvsync.Await.Scripts.{Resolves, loop-Resolves}
use mvsync.Run.{settle, execute, run}
use mvsync.Run.Settle.{settle-Settled}

-- Between `v` and `w` the task returned the value `x`.
pub record Completed (t : Task) (b s : ℕ) (x : Value) (v w : World) : Type 0 where
  pub states : w.states ≡ set_at v.states s TaskState.ready
  pub buffers : w.buffers ≡ set_at v.buffers b (some x)
  pub semaphores : (i : ℕ) → w.semaphores i ≡ (elem i t.semaphores || v.semaphores i)
  pub next : w.next ≡ v.next + 1
  pub own : (w.signals t.signal.0).ready ≡ true
  pub queue : (w.signals t.signal.1).ready ≡ true

-- The end of an execution whose future left the world `w`.
finish-Completed :
    (t : Task) (b s : ℕ) (x : Value) (v w : World)
    → w.states ≡ v.states
    → w.buffers ≡ v.buffers
    → w.semaphores ≡ v.semaphores
    → w.next ≡ v.next + 1
    → Completed t b s x v (settle t.semaphores t.signal (complete b s x w))
unfolding complete
finish-Completed t b s x v w st bu se ne =
    let d = settle-Settled t.semaphores t.signal (complete b s x w) in
    record {
      states = d.states ∙ ap (λ f. set_at f s TaskState.ready) st;
      buffers = d.buffers ∙ ap (λ f. set_at f b (some x)) bu;
      semaphores = λ i. d.semaphores i ∙ ap (λ f. elem i t.semaphores || f i) se;
      next = d.next ∙ ne;
      own = d.own;
      queue = d.queue;
    }

-- A task over a user's future that comes to return `x`.
pub execute-running :
    (t : Task) (f : Script) (b s n fuel : ℕ) (x : Value) (w : World)
    → t.inner ≡ running f 0 b s
    → Resolves f 0 n (Reply.returns x)
    → n < fuel
    → (w' : World) × (execute fuel t w ≡ done tt w') × Completed t b s x w w'
unfolding execute await_sync Signal.new
execute-running t f b s n fuel x w e h lt =
    let (w₁, same, run) =
      loop-Resolves f b s w.next n 0 fuel (Reply.returns x) (Signal.new w).1 h (λ c. cc)
        (ground arith) lt in
    (
      settle t.semaphores t.signal (complete b s x w₁),
      rw (e, run),
      finish-Completed t b s x w w₁ same.states same.buffers same.semaphores same.next,
    )

-- A task over a synchronous function that returns `x`.
pub execute-calling :
    (t : Task) (b s fuel : ℕ) (x : Value) (w : World)
    → t.inner ≡ calling (Outcome.returns x) b s
    → (w' : World) × (execute (suc fuel) t w ≡ done tt w') × Completed t b s x w w'
unfolding execute await_sync await_loop Body.poll Signal.new
execute-calling t b s fuel x w e =
    let w₁ = (Signal.new w).1 in
    (
      settle t.semaphores t.signal (complete b s x w₁),
      rw e,
      finish-Completed t b s x w w₁ refl refl refl refl,
    )

-- The handle `h` can be waited for, and gives `x`.
pub record Holds (h : TaskHandle) (x : Value) (w : World) : Type 0 where
  pub up : (w.signals h.signal).ready ≡ true
  pub state : w.states h.state ≡ TaskState.ready
  pub inner : w.buffers h.inner ≡ some x

abbrev pub after_take : TaskHandle → World → World
after_take h w = set_buffer h.inner none (Signal.set_ready h.signal false w)

pub wait-Holds :
    (h : TaskHandle) (x : Value) (w : World)
    → Holds h x w
    → Handle.wait h w ≡ done (TaskResult.returned x) (after_take h w)
unfolding Handle.wait
wait-Holds h x w held =
    rw (held.up)
      (rw (held.state) (rw (held.inner, Handle.result_of, State.take, Handle.take_inner)))

pub Completed-Holds :
    (t : Task) (h : TaskHandle) (x : Value) (v w : World)
    → t.signal.0 ≡ h.signal
    → Completed t h.inner h.state x v w
    → Holds h x w
Completed-Holds t h x v w e c = record {
  up = ap (λ i. (w.signals i).ready) (sym e) ∙ c.own;
  state = ap (λ f. f h.state) c.states ∙ ground arith;
  inner = ap (λ f. f h.inner) c.buffers ∙ ground arith;
}

-- The tests of `run` on a task whose predecessor is ready and that nobody has cancelled.
pub record IsRunnable (t : Task) (w : World) : Type 0 where
  pub state : w.states t.state ≡ TaskState.ready
  pub self_state : w.states t.self_state ≡ TaskState.pending
  pub waits : all w.semaphores t.wait ≡ true

pub IsRunnable-can_execute :
    (t : Task) (w : World)
    → IsRunnable t w
    → (Task.can_execute t w ≡ true)
      × (Task.is_panicked t w ≡ false)
      × (Task.is_cancelled t w ≡ false)
unfolding Task.can_execute Task.is_panicked Task.is_cancelled
IsRunnable-can_execute t w r = (ground arith, ground arith, ground arith)

pub run-execute :
    (fuel : ℕ) (t : Task) (w : World) → IsRunnable t w → run fuel t w ≡ execute fuel t w
unfolding run Task.can_execute
run-execute fuel t w r = ground arith

-- A continuation of a task that has returned calls its function when it is polled.
pub poll-continuing :
    (k : Waker) (g : Value → Outcome) (b s : ℕ) (h : TaskHandle) (x : Value) (w : World)
    → Holds h x w
    → Body.poll k (continuing g b s h) w ≡ Body.call (g x) b s (after_take h w)
unfolding Body.poll Body.continue
poll-continuing k g b s h x w held =
    rw (wait-Holds h x w held) (rw (held.state, Body.after_wait, State.take) refl)

-- A continuation whose predecessor's handle holds `v`, over a function that returns `x` on it. The
-- handle's signal is older than the one that `await_sync` makes.
pub execute-continuing :
    (t : Task) (g : Value → Outcome) (b s fuel : ℕ) (h : TaskHandle) (v x : Value) (w : World)
    → t.inner ≡ continuing g b s h
    → Holds h v w
    → h.signal < w.next
    → g v ≡ Outcome.returns x
    → (w' : World) × (execute (suc fuel) t w ≡ done tt w') × Completed t b s x (after_take h w) w'
unfolding execute await_sync await_loop Body.poll Body.continue Signal.new
execute-continuing t g b s fuel h v x w e held old ret =
    let w₁ = (Signal.new w).1 in
    let held₁ : Holds h v w₁ = record {
      up = ground (arith, held.up);
      state = held.state;
      inner = held.inner;
    } in
    let w₂ = after_take h w₁ in
    (
      settle t.semaphores t.signal (complete b s x w₂),
      rw e (rw (poll-continuing (context w.next) g b s h v w₁ held₁) (rw (ret, Body.call))),
      finish-Completed t b s x (after_take h w) w₂ refl refl refl refl,
    )
