-- ===== src/Signal/Wakeups.antt =====
-- Who is woken by `Signal::wake`, and what one waiter takes from the others.
use mvsync.Base.{
  elem, elem-append_left, elem-append_self, ℕ, Bool, true, false, List, [], ◌∷◌, ◌++◌, ◌≡◌, arith,
}
use mvsync.World.{World, Waker, context, foreign}
use mvsync.Exec.{done, Poll}
use mvsync.Signal
use mvsync.Signal.{SignalFuture, call, drain, wake, poll, wait, leave_waker}
use mvsync.Signal.Frame.{ready-wake, wakers-wake}

-- A waker has been called: its thread's flag is up, or it stands in the record.
abbrev pub was_called : Waker → World → Bool
was_called (context j) w = (w.signals j).ready
was_called (foreign k) w = elem k w.woken

call-called : (k : Waker) (w : World) → was_called k (call k w) ≡ true
unfolding call
call-called (context j) w = ground arith
call-called (foreign k) w = elem-append_self k w.woken

call-keeps-called :
    (j k : Waker) (w : World) → was_called k w ≡ true → was_called k (call j w) ≡ true
unfolding call
call-keeps-called (context j) (context i) w h = ground arith
call-keeps-called (context j) (foreign k) w h = h
call-keeps-called (foreign j) (context i) w h = h
call-keeps-called (foreign j) (foreign k) w h = elem-append_left k w.woken (j ∷ []) h

drain-keeps-called :
    (ks : List Waker) (k : Waker) (w : World)
    → was_called k w ≡ true
    → was_called k (drain ks w) ≡ true
unfolding drain
drain-keeps-called [] k w h = h
drain-keeps-called (j ∷ ks) k w h = drain-keeps-called ks k (call j w) (call-keeps-called j k w h)

drain-append-called :
    (ks : List Waker) (k : Waker) (w : World) → was_called k (drain (ks ++ k ∷ []) w) ≡ true
unfolding drain
drain-append-called [] k w = call-called k w
drain-append-called (j ∷ ks) k w = drain-append-called ks k (call j w)

wakers-leave_waker :
    (k : Waker) (i : ℕ) (w : World)
    → ((leave_waker k i w).signals i).wakers ≡ (w.signals i).wakers ++ k ∷ []
unfolding leave_waker
wakers-leave_waker k i w = ground arith

leave_waker-called :
    (k : Waker) (i : ℕ) (w : World) → was_called k (wake i (leave_waker k i w)) ≡ true
unfolding wake
leave_waker-called k i w =
    rw (wakers-leave_waker k i w) (drain-append-called (w.signals i).wakers k _)

abbrev started : ℕ → SignalFuture
started i = record { signal = i; started = true }

poll-leave_waker :
    (k : Waker) (i : ℕ) (w : World)
    → (w.signals i).ready ≡ false
    → poll k (Signal.wait_async i) w ≡ done (Poll.pending (started i)) (leave_waker k i w)
unfolding poll Signal.wait_async
poll-leave_waker k i w h = rw h

-- A `wait_async` on a signal that is down leaves its waker behind and is pending. The next wake calls
-- that waker, and a poll after it finds the signal up.
pub poll-wake :
    (k l : Waker) (i : ℕ) (w : World)
    → (w.signals i).ready ≡ false
    → (f : SignalFuture) × (w' : World) × (poll k (Signal.wait_async i) w
        ≡ done (Poll.pending f) w')
      × (was_called k (wake i w') ≡ true)
      × (poll l f (wake i w') ≡ done (Poll.ready tt) (wake i w'))
unfolding poll
poll-wake k l i w h = (
  started i,
  leave_waker k i w,
  poll-leave_waker k i w h,
  leave_waker-called k i w,
  rw (ready-wake i (leave_waker k i w)),
)

-- A `wait_async` that was woken loses to a `wait` that comes first: its next poll is pending again,
-- changes nothing, and leaves no waker with the signal.
pub poll-stale :
    (k l : Waker) (i : ℕ) (w : World)
    → (w.signals i).ready ≡ false
    → (f : SignalFuture) × (w₁ w₂ : World) × (poll k (Signal.wait_async i) w
        ≡ done (Poll.pending f) w₁)
      × (wait i (wake i w₁) ≡ done tt w₂)
      × (poll l f w₂ ≡ done (Poll.pending f) w₂)
      × ((w₂.signals i).wakers ≡ [])
unfolding poll wait
poll-stale k l i w h =
    let w₁ = leave_waker k i w in
    (
      started i,
      w₁,
      Signal.set_ready i false (wake i w₁),
      poll-leave_waker k i w h,
      rw (ready-wake i w₁),
      ground arith,
      ground (arith, wakers-wake i w₁),
    )
