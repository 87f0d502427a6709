-- ===== src/Utils.antt =====
-- src/utils.rs: `async_yield`, and the futures that sleep.
use mvsync.Base.{ℕ, ◌*◌, Bool, true, false, if◌then◌else◌}
use mvsync.World.{Waker}
use mvsync.Exec.{done, M, Poll}
use mvsync.Signal
use mvsync.Timer
use mvsync.Timer.{Sleep}

pub record Yield : Type 0 where
  pub set : Bool

unfoldable pub poll : Waker → Yield → M (Poll Yield (Unit {0}))
unfolding Signal.call
poll waker y w =
    if y.set
    then done (Poll.ready tt) w
    else done (Poll.pending (record { set = true })) (Signal.call waker w)

unfoldable pub async_yield : Yield
async_yield = record { set = false }

unfoldable pub async_sleep : ℕ → ℕ → Sleep
unfolding Timer.new
async_sleep duration now = Timer.new duration now

-- A millisecond has a million nanoseconds.
unfoldable pub async_sleep_ms : ℕ → ℕ → Sleep
unfolding async_sleep
async_sleep_ms ms now = async_sleep (ms * 1000000) now
