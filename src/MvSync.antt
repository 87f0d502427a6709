-- ===== src/MvSync.antt =====
-- src/lib.rs: how `MVSync` makes tasks, semaphores and fences. `queue_signal` is its own signal.
pub mod Lifecycle
pub mod Main
pub mod Registered
pub mod Awake
pub mod Stuck
pub mod Ended
pub mod Specs
pub mod Threaded
pub mod Polled
pub mod Served
pub mod Chained
use mvsync.Base.{ℕ}
use mvsync.World.{World, Value}
use mvsync.Task
use mvsync.Task.{Task}
use mvsync.Task.Body.{Outcome, Script}
use mvsync.Task.Handle
use mvsync.Task.Handle.{TaskHandle}

abbrev pub Created : Type 0
Created = Task × TaskHandle

unfoldable pub create_task : ℕ → Outcome → World → Created × World
unfolding Handle.new_handle Task.from_function
create_task queue_signal f w =
    let (h, w₁) = Handle.new_handle w in
    let (t, w₂) = Task.from_function f h.inner h.state (h.signal, queue_signal) w₁ in ((t, h), w₂)

unfoldable pub create_continuation : ℕ → (Value → Outcome) → TaskHandle → World → Created × World
unfolding Handle.new_handle Task.from_continuation
create_continuation queue_signal f predecessor w =
    let (h, w₁) = Handle.new_handle w in
    ((Task.from_continuation f h.inner h.state (h.signal, queue_signal) predecessor, h), w₁)

unfoldable pub create_async_task : ℕ → Script → World → Created × World
unfolding Handle.new_handle Task.from_async
create_async_task queue_signal f w =
    let (h, w₁) = Handle.new_handle w in
    let (t, w₂) = Task.from_async f h.inner h.state (h.signal, queue_signal) w₁ in ((t, h), w₂)

unfoldable pub create_future_task : ℕ → Script → World → Created × World
unfolding Handle.new_handle Task.from_future
create_future_task queue_signal f w =
    let (h, w₁) = Handle.new_handle w in
    let (t, w₂) = Task.from_future f h.inner h.state (h.signal, queue_signal) w₁ in ((t, h), w₂)

unfoldable pub create_async_continuation :
    ℕ → (Value → Script) → TaskHandle → World → Created × World
unfolding Handle.new_handle Task.from_async_continuation
create_async_continuation queue_signal f predecessor w =
    let (h, w₁) = Handle.new_handle w in
    ((Task.from_async_continuation f h.inner h.state (h.signal, queue_signal) predecessor, h), w₁)
