-- ===== src/World.antt =====
-- The objects that the crate shares between threads by `Arc`, as maps from addresses: the signals of
-- block.rs, the semaphores and fences of sync.rs, and the state cells and result buffers that
-- task.rs puts between a task and its handle.
use mvsync.Base.{ℕ, Bool, false, Option, none, List, [], String, set_at}

-- The values that tasks return and the payloads of panics. A panic's message is a `text`.
pub data Value : Type 0 where
  unit : Value
  num : ℕ → Value
  text : String → Value
  none_value : Value
  some_value : Value → Value
  ok_value : Value → Value
  err_value : Value → Value

pub data TaskState : Type 0 where
  pending : TaskState
  ready : TaskState
  panicked : Value → TaskState
  cancelled : TaskState

-- `context s` is `Waker::from(signal)` for a thread's own signal `s`; `foreign k` is any other.
pub data Waker : Type 0 where
  context : ℕ → Waker
  foreign : ℕ → Waker

pub record Signal : Type 0 where
  pub ready : Bool
  pub wakers : List Waker

pub record World : Type 0 where
  pub signals : ℕ → Signal
  pub semaphores : ℕ → Bool
  pub fences : ℕ → Option ℕ
  pub states : ℕ → TaskState
  pub buffers : ℕ → Option Value
  -- The foreign wakers that were called, oldest first.
  pub woken : List ℕ
  -- The next address that is free in every map.
  pub next : ℕ

abbrev pub set_signal : ℕ → Signal → World → World
set_signal i s w = record w { signals = set_at w.signals i s }

abbrev pub set_semaphore : ℕ → Bool → World → World
set_semaphore i b w = record w { semaphores = set_at w.semaphores i b }

-- `state.write().unwrap().replace(s)`.
abbrev pub set_state : ℕ → TaskState → World → World
set_state i s w = record w { states = set_at w.states i s }

abbrev pub set_buffer : ℕ → Option Value → World → World
set_buffer i v w = record w { buffers = set_at w.buffers i v }

abbrev pub set_fence : ℕ → Option ℕ → World → World
set_fence i s w = record w { fences = set_at w.fences i s }

abbrev pub empty_world : World
empty_world = record {
  signals = λ _. record { ready = false; wakers = [] };
  semaphores = λ _. false;
  fences = λ _. none;
  states = λ _. TaskState.pending;
  buffers = λ _. none;
  woken = [];
  next = 0;
}
