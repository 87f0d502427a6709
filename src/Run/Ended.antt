-- ===== src/Run/Ended.antt =====
-- Tasks that end without a value: run of src/run.rs on a task whose predecessor has panicked or that was cancelled.
use mvsync.Base.{ℕ, true, false, ◌≡◌, sym, ap, ◌∙◌, arith}
use mvsync.World.{World, Value, unit, TaskState, set_state}
use mvsync.Exec.{done}
use mvsync.Signal
use mvsync.Task
use mvsync.Task.{Task}
use mvsync.Task.Handle
use mvsync.Task.Handle.{TaskHandle, TaskResult}
use mvsync.Task.State
use mvsync.Run.{settle, run}
use mvsync.Run.Settle.{settle-Settled}

-- The handle of a task that passed its predecessor's panic on, or was cancelled.
pub record Ended (h : TaskHandle) (s : TaskState) (v w : World) : Type 0 where
  pub up : (w.signals h.signal).ready ≡ true
  pub state : w.states h.state ≡ s
  pub buffers : w.buffers ≡ v.buffers

settle-Ended :
    (t : Task) (h : TaskHandle) (s : TaskState) (w : World)
    → t.signal.0 ≡ h.signal
    → t.self_state ≡ h.state
    → Ended h s w (settle t.semaphores t.signal (set_state t.self_state s w))
settle-Ended t h s w e e' =
    let d = settle-Settled t.semaphores t.signal (set_state t.self_state s w) in
    record {
      up =
          ap (λ i. ((settle t.semaphores t.signal (set_state t.self_state s w)).signals i).ready)
            (sym e)
          ∙ d.own;
      state = ap (λ f. f h.state) d.states ∙ ground arith;
      buffers = d.buffers;
    }

-- A task whose predecessor has panicked ends at once, with a panic whose payload is the unit.
pub run-panicked :
    (fuel : ℕ) (t : Task) (h : TaskHandle) (p : Value) (w : World)
    → t.signal.0 ≡ h.signal
    → t.self_state ≡ h.state
    → w.states t.state ≡ TaskState.panicked p
    → (w' : World) × (run fuel t w ≡ done tt w') × Ended h (TaskState.panicked unit) w w'
unfolding run
run-panicked fuel t h p w e e' panics = (
  settle t.semaphores t.signal (set_state t.self_state (TaskState.panicked unit) w),
  ground arith,
  settle-Ended t h (TaskState.panicked unit) w e e',
)

-- A task that is cancelled, or whose predecessor is, ends at once as cancelled.
pub run-cancelled :
    (fuel : ℕ) (t : Task) (h : TaskHandle) (w : World)
    → t.signal.0 ≡ h.signal
    → t.self_state ≡ h.state
    → Task.is_panicked t w ≡ false
    → Task.is_cancelled t w ≡ true
    → (w' : World) × (run fuel t w ≡ done tt w') × Ended h TaskState.cancelled w w'
unfolding run
run-cancelled fuel t h w e e' sound dropped = (
  settle t.semaphores t.signal (set_state t.self_state TaskState.cancelled w),
  rw sound (rw dropped),
  settle-Ended t h TaskState.cancelled w e e',
)

pub wait-panicked :
    (h : TaskHandle) (p : Value) (v w : World)
    → Ended h (TaskState.panicked p) v w
    → Handle.wait h w ≡ done (TaskResult.panicked unit) (Signal.set_ready h.signal false w)
unfolding Handle.wait
wait-panicked h p v w d = rw (d.up) (rw (d.state, Handle.result_of, State.take))

pub wait-cancelled :
    (h : TaskHandle) (v w : World)
    → Ended h TaskState.cancelled v w
    → Handle.wait h w ≡ done TaskResult.cancelled (Signal.set_ready h.signal false w)
unfolding Handle.wait
wait-cancelled h v w d = rw (d.up) (rw (d.state, Handle.result_of, State.take))
