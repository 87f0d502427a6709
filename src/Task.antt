-- ===== src/Task.antt =====
-- `Task` of src/task.rs: construction, bindings and the tests that the schedulers make.
pub mod State
pub mod Handle
pub mod Controller
pub mod Body
pub mod Ids
pub mod Leaves
use mvsync.Base.{
  ℕ, Bool, true, false, not, ◌&&◌, ◌||◌, Option, none, some, List, [], ◌∷◌, ◌++◌, String, is_empty,
  all,
}
use mvsync.World.{World, Value, text, TaskState}
use mvsync.Exec.{M, panic, pure}
use mvsync.Sync.{SemaphoreUsage}
use mvsync.Sync.Semaphore
use mvsync.Sync.Fence
use Handle.{TaskHandle}
use Body.{Inner, Outcome, Script, calling, running, continuing, async_continuing}

-- `signal` is the pair of the task's own signal and its queue's. `self_state` is the task's state;
-- `state` is its predecessor's, or a cell that is always ready.
pub record Task : Type 0 where
  pub inner : Inner
  pub wait : List ℕ
  pub signal : ℕ × ℕ
  pub semaphores : List ℕ
  pub preferred_thread : Option String
  pub not_on : List String
  pub self_state : ℕ
  pub state : ℕ

unfoldable pub new : ℕ → Inner → ℕ → ℕ × ℕ → Task
new self_state inner state signal = record {
  inner = inner;
  wait = [];
  signal = signal;
  semaphores = [];
  preferred_thread = none;
  not_on = [];
  self_state = self_state;
  state = state;
}

-- A task with no predecessor reads a fresh cell that is ready.
unfoldable pub independent : ℕ → Inner → ℕ × ℕ → World → Task × World
unfolding new State.new
independent s inner signal w =
    let (ready, w') = State.new TaskState.ready w in (new s inner ready signal, w')

unfoldable pub from_function : Outcome → ℕ → ℕ → ℕ × ℕ → World → Task × World
unfolding independent
from_function f buffer state signal = independent state (calling f buffer state) signal

unfoldable pub from_async : Script → ℕ → ℕ → ℕ × ℕ → World → Task × World
unfolding independent
from_async f buffer state signal = independent state (running f 0 buffer state) signal

unfoldable pub from_future : Script → ℕ → ℕ → ℕ × ℕ → World → Task × World
unfolding independent
from_future f buffer state signal = independent state (running f 0 buffer state) signal

unfoldable pub from_continuation : (Value → Outcome) → ℕ → ℕ → ℕ × ℕ → TaskHandle → Task
unfolding new
from_continuation f buffer state signal h =
    new state (continuing f buffer state h) (Handle.state_of h) signal

unfoldable pub from_async_continuation : (Value → Script) → ℕ → ℕ → ℕ × ℕ → TaskHandle → Task
unfolding new
from_async_continuation f buffer state signal h =
    new state (async_continuing f buffer state h) (Handle.state_of h) signal

unfoldable pub bind_semaphore : Task → ℕ → SemaphoreUsage → Task
bind_semaphore t s SemaphoreUsage.wait = record t { wait = t.wait ++ s ∷ [] }
bind_semaphore t s SemaphoreUsage.signal = record t { semaphores = t.semaphores ++ s ∷ [] }

unfoldable pub bind_fence : Task → ℕ → World → World
unfolding Fence.bind
bind_fence t f w = Fence.bind f t.signal.0 w

unfoldable pub set_preferred_thread : Task → String → Task
set_preferred_thread t thread = record t { preferred_thread = some thread }

unfoldable pub remove_preferred_thread : Task → Task
remove_preferred_thread t = record t { preferred_thread = none }

unfoldable pub push_not_on : Task → String → Task
push_not_on t thread = record t { not_on = t.not_on ++ thread ∷ [] }

unfoldable pub clear_not_on : Task → Task
clear_not_on t = record t { not_on = [] }

abbrev pub get_not_on : Task → List String
get_not_on t = t.not_on

abbrev pub get_preferred_thread : Task → Option String
get_preferred_thread t = t.preferred_thread

-- `state()`, which is the task's own state, not the field for the predecessor's.
abbrev pub own_state : Task → ℕ
own_state t = t.self_state

-- What is polled, and what is signalled and woken after it.
abbrev pub execute : Task → Inner × List ℕ × (ℕ × ℕ)
execute t = (t.inner, t.semaphores, t.signal)

unfoldable pub can_execute : Task → World → Bool
unfolding State.eq Semaphore.ready
can_execute t w =
    (is_empty t.wait || all (λ s. Semaphore.ready s w) t.wait)
    && not (State.eq (w.states t.state) TaskState.pending)

unfoldable pub is_panicked : Task → World → Bool
unfolding State.eq
is_panicked t w = elim (w.states t.state) [ TaskState.panicked _ ↦ true | _ ↦ false ]

abbrev pub no_panic : Value
no_panic = text "Tired to get the panic value of non-panicking function!"

unfoldable pub panic_of : TaskState → M Value
panic_of (TaskState.panicked p) = pure p
panic_of TaskState.pending = panic no_panic
panic_of TaskState.ready = panic no_panic
panic_of TaskState.cancelled = panic no_panic

unfoldable pub get_panic : Task → M Value
unfolding State.take panic_of
get_panic t w = panic_of (State.take (w.states t.state)) w

unfoldable pub is_cancelled : Task → World → Bool
unfolding State.eq
is_cancelled t w =
    State.eq (w.states t.state) TaskState.cancelled
    || State.eq (w.states t.self_state) TaskState.cancelled
