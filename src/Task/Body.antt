-- ===== src/Task/Body.antt =====
-- The async blocks that src/task.rs builds for a task, as state machines with one `poll` each. What
-- the user's code does is given: a function's outcome, and the replies of a future to its polls.
use mvsync.Base.{ℕ, zero, suc, Bool, true, false, some}
use mvsync.World.{World, Value, TaskState, Waker, set_state, set_buffer}
use mvsync.Exec.{done, unwinds, M, Poll, ◌>>=◌}
use mvsync.Signal
use mvsync.Task.State
use mvsync.Task.Handle
use mvsync.Task.Handle.{TaskHandle, TaskResult}

-- What a call of the user's function comes to.
pub data Outcome : Type 0 where
  returns : Value → Outcome
  panics : Value → Outcome

-- What one poll of the user's future comes to. `pends true` says that the waker is called before the
-- thread next waits for it, which is the contract of `Future`.
pub data Reply : Type 0 where
  returns : Value → Reply
  panics : Value → Reply
  pends : Bool → Reply

-- The reply to the n-th poll.
abbrev pub Script : Type 0
Script = ℕ → Reply

-- Where an async block stands: before its only poll, in the user's future, or before
-- `predecessor.wait()`. The numbers are the task's buffer and its state cell.
pub data Inner : Type 0 where
  calling : Outcome → ℕ → ℕ → Inner
  running : Script → ℕ → ℕ → ℕ → Inner
  continuing : (Value → Outcome) → ℕ → ℕ → TaskHandle → Inner
  async_continuing : (Value → Script) → ℕ → ℕ → TaskHandle → Inner

-- `buffer.write().unwrap().replace(t); state.write().unwrap().replace(TaskState::Ready);`
unfoldable pub complete : ℕ → ℕ → Value → World → World
complete b s v w = set_state s TaskState.ready (set_buffer b (some v) w)

unfoldable pub call : Outcome → ℕ → ℕ → M (Poll Inner (Unit {0}))
unfolding complete
call (Outcome.returns v) b s w = done (Poll.ready tt) (complete b s v w)
call (Outcome.panics p) b s w = unwinds p w

unfoldable pub resume : Waker → Reply → Script → ℕ → ℕ → ℕ → M (Poll Inner (Unit {0}))
unfolding complete Signal.call
resume k (Reply.returns v) f n b s w = done (Poll.ready tt) (complete b s v w)
resume k (Reply.panics p) f n b s w = unwinds p w
resume k (Reply.pends true) f n b s w =
    done (Poll.pending (running f (suc n) b s)) (Signal.call k w)
resume k (Reply.pends false) f n b s w = done (Poll.pending (running f (suc n) b s)) w

-- `match prev_state` of a continuation; `use_value` is the body of its `if let`.
unfoldable pub after_wait :
    (Value → M (Poll Inner (Unit {0}))) → ℕ → TaskResult → TaskState → M (Poll Inner (Unit {0}))
after_wait use_value s (TaskResult.returned t) TaskState.ready w = use_value t w
after_wait use_value s (TaskResult.panicked _) TaskState.ready w = done (Poll.ready tt) w
after_wait use_value s TaskResult.cancelled TaskState.ready w = done (Poll.ready tt) w
after_wait use_value s _ (TaskState.panicked p) w =
    done (Poll.ready tt) (set_state s (TaskState.panicked p) w)
after_wait use_value s _ TaskState.cancelled w =
    done (Poll.ready tt) (set_state s TaskState.cancelled w)
after_wait use_value s _ TaskState.pending w =
    done (Poll.ready tt) (set_state s TaskState.cancelled w)

-- A continuation waits for its predecessor on the polling thread, then reads the predecessor's state.
unfoldable pub continue :
    (Value → M (Poll Inner (Unit {0}))) → ℕ → TaskHandle → M (Poll Inner (Unit {0}))
unfolding after_wait Handle.wait State.take
continue use_value s h =
    Handle.wait h >>= λ t w. after_wait use_value s t (State.take (w.states h.state)) w

unfoldable pub poll : Waker → Inner → M (Poll Inner (Unit {0}))
unfolding call resume continue
poll k (calling o b s) = call o b s
poll k (running f n b s) = resume k (f n) f n b s
poll k (continuing g b s h) = continue (λ t. call (g t) b s) s h
poll k (async_continuing g b s h) = continue (λ t. resume k (g t zero) (g t) zero b s) s h
