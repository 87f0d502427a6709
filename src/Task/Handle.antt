-- ===== src/Task/Handle.antt =====
-- `TaskHandle`, `TaskController` and `TaskResult` of src/task.rs: what code outside a task can do to it.
use mvsync.Base.{ℕ, ◌+◌, Bool, not, none, some}
use mvsync.World.{World, Value, text, TaskState, Waker, set_state, set_buffer}
use mvsync.Exec.{done, unwinds, M, Poll, ◌>>=◌, ◌>>◌, panic, pure}
use mvsync.Signal
use mvsync.Signal.{SignalFuture}
use mvsync.Task.State

pub record TaskHandle : Type 0 where
  pub inner : ℕ
  pub state : ℕ
  pub signal : ℕ

-- `state()`.
abbrev pub state_of : TaskHandle → ℕ
state_of h = h.state

-- `Arc::new(RwLock::new(None))`.
unfoldable pub new_buffer : World → ℕ × World
new_buffer w = (w.next, record (set_buffer w.next none w) { next = w.next + 1 })

-- The handle of a new task: its result buffer, its state and its signal.
unfoldable pub new_handle : World → TaskHandle × World
unfolding new_buffer State.new Signal.new
new_handle w =
    let (b, w₁) = new_buffer w in
    let (s, w₂) = State.new TaskState.pending w₁ in
    let (k, w₃) = Signal.new w₂ in (record { inner = b; state = s; signal = k }, w₃)

pub data TaskResult : Type 0 where
  returned : Value → TaskResult
  panicked : Value → TaskResult
  cancelled : TaskResult

unfoldable pub cancel : TaskHandle → World → World
cancel h w = set_state h.state TaskState.cancelled w

unfoldable pub is_done : TaskHandle → World → Bool
unfolding State.eq
is_done h w = not (State.eq (w.states h.state) TaskState.pending)

abbrev pub still_pending : Value
still_pending = text "Function finished but is still pending!"

abbrev pub unwrap_none : Value
unwrap_none = text "called `Option::unwrap()` on a `None` value"

-- `self.inner.write().unwrap().take().unwrap()`.
unfoldable pub take_inner : ℕ → M TaskResult
take_inner b w = elim (w.buffers b) [
  | none ↦ unwinds unwrap_none w
  | some v ↦ done (TaskResult.returned v) (set_buffer b none w)
]

unfoldable pub result_of : ℕ → TaskState → M TaskResult
unfolding take_inner
result_of b TaskState.ready = take_inner b
result_of b (TaskState.panicked p) = pure (TaskResult.panicked p)
result_of b TaskState.cancelled = pure TaskResult.cancelled
result_of b TaskState.pending = panic still_pending

-- What `wait` and `wait_async` do once the signal is there.
unfoldable pub take_result : TaskHandle → M TaskResult
unfolding result_of State.take
take_result h w = result_of h.inner (State.take (w.states h.state)) w

unfoldable pub wait : TaskHandle → M TaskResult
unfolding take_result Signal.wait
wait h = Signal.wait h.signal >> take_result h

-- One poll of the future that `wait_async` returns, which holds a `SignalFuture`.
unfoldable pub poll_async : Waker → TaskHandle → SignalFuture → M (Poll SignalFuture TaskResult)
unfolding take_result Signal.poll
poll_async k h f = Signal.poll k f >>= λ p. elim p [
  | Poll.ready _ ↦ take_result h >>= λ r. pure (Poll.ready r)
  | Poll.pending f' ↦ pure (Poll.pending f')
]

pub record TaskController : Type 0 where
  pub state : ℕ
  pub signal : ℕ

unfoldable pub make_controller : TaskHandle → TaskController
make_controller h = record { state = h.state; signal = h.signal }
