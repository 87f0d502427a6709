-- ===== src/Signal.antt =====
-- `Signal` and `SignalFuture` of src/block.rs. A waker of a thread's own context sets the flag of that
-- thread's signal; nobody waits asynchronously on such a signal, so it has no wakers of its own.
pub mod Frame
pub mod Wakeups
use mvsync.Base.{ℕ, ◌+◌, Bool, true, false, List, [], ◌∷◌, ◌++◌, if◌then◌else◌, set_at}
use mvsync.World.{World, Waker, context, foreign, set_signal}
use mvsync.Exec.{done, blocks, M, Poll}

-- `Arc::new(Signal::new())`.
unfoldable pub new : World → ℕ × World
new w = (
  w.next,
  record w {
    signals = set_at w.signals w.next (record { ready = false; wakers = [] });
    next = w.next + 1;
  },
)

unfoldable pub ready : ℕ → World → Bool
ready i w = (w.signals i).ready

abbrev pub set_ready : ℕ → Bool → World → World
set_ready i b w = set_signal i (record { ready = b; wakers = (w.signals i).wakers }) w

-- The loop `while !*ready { condition.wait }` passes at once or parks the thread.
unfoldable pub wait : ℕ → M (Unit {0})
wait i w = if (w.signals i).ready then done tt (set_ready i false w) else blocks w

-- `waker.wake()`.
unfoldable pub call : Waker → World → World
call (context j) w = set_ready j true w
call (foreign k) w = record w { woken = w.woken ++ k ∷ [] }

-- `for waker in wakers.drain(..) { waker.wake(); }`.
unfoldable pub drain : List Waker → World → World
unfolding call
drain [] w = w
drain (k ∷ ks) w = drain ks (call k w)

unfoldable pub wake : ℕ → World → World
unfolding drain
wake i w = drain (w.signals i).wakers (set_signal i (record { ready = true; wakers = [] }) w)

-- `Drop for Signal`: the waiters are woken and the flag stays as it is.
unfoldable pub drop : ℕ → World → World
unfolding drain
drop i w =
    drain (w.signals i).wakers
      (set_signal i (record { ready = (w.signals i).ready; wakers = [] }) w)

-- `wait_async` is a future that remembers whether it has left its waker with the signal.
pub record SignalFuture : Type 0 where
  pub signal : ℕ
  pub started : Bool

unfoldable pub wait_async : ℕ → SignalFuture
wait_async i = record { signal = i; started = false }

-- `wakers.push(cx.waker().clone())`.
unfoldable pub leave_waker : Waker → ℕ → World → World
leave_waker k i w =
    set_signal i (record { ready = (w.signals i).ready; wakers = (w.signals i).wakers ++ k ∷ [] }) w

unfoldable pub poll : Waker → SignalFuture → M (Poll SignalFuture (Unit {0}))
unfolding leave_waker
poll k f w =
    if (w.signals f.signal).ready
    then done (Poll.ready tt) w
    else if f.started
    then done (Poll.pending f) w
    else done (Poll.pending (record f { started = true })) (leave_waker k f.signal w)
