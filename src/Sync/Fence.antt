-- ===== src/Sync/Fence.antt =====
-- `Fence` of src/sync.rs: a fence reads the signal that it was bound to.
use mvsync.Base.{ℕ, ◌+◌, Bool, none, some, set_at}
use mvsync.World.{World, Value, Waker, text, set_fence}
use mvsync.Exec.{M, Poll, pure, done, unwinds, ◌>>=◌}
use mvsync.Signal
use mvsync.Signal.{SignalFuture}

-- `Arc::new(Fence::new())`.
unfoldable pub new : World → ℕ × World
new w = (w.next, record w { fences = set_at w.fences w.next none; next = w.next + 1 })

unfoldable pub bind : ℕ → ℕ → World → World
bind i s w = set_fence i (some s) w

abbrev unbound : Value
unbound = text "Checking unbound fence!"

-- `self.signalled.expect("Checking unbound fence!")`.
unfoldable pub bound : ℕ → M ℕ
bound i w = elim (w.fences i) [ none ↦ unwinds unbound w | some s ↦ done s w ]

unfoldable pub ready : ℕ → M Bool
unfolding bound Signal.ready
ready i = bound i >>= λ s w. done (Signal.ready s w) w

unfoldable pub wait : ℕ → M (Unit {0})
unfolding bound Signal.wait
wait i = bound i >>= Signal.wait

-- Where the async block of `wait_async` stands: before its first poll, or at its `await`.
pub data FenceFuture : Type 0 where
  unpolled : ℕ → FenceFuture
  awaiting : SignalFuture → FenceFuture

unfoldable pub wait_async : ℕ → FenceFuture
wait_async i = unpolled i

unfoldable pub poll_await : Waker → SignalFuture → M (Poll FenceFuture (Unit {0}))
unfolding Signal.poll
poll_await k f = Signal.poll k f >>= λ p. elim p [
  | Poll.ready _ ↦ pure (Poll.ready tt)
  | Poll.pending f' ↦ pure (Poll.pending (awaiting f'))
]

-- The fence is looked up by the first poll, which panics if it was not bound by then.
unfoldable pub poll : Waker → FenceFuture → M (Poll FenceFuture (Unit {0}))
unfolding bound poll_await Signal.wait_async
poll k (unpolled i) = bound i >>= λ s. poll_await k (Signal.wait_async s)
poll k (awaiting f) = poll_await k f
