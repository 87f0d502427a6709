-- ===== src/Clock/Rate.antt =====
-- How often a clock ticks.
use mvsync.Base.{ℕ, ◌+◌, ◌-◌, ◌≤◌, true, false, ◌≡◌, refl, leb, if◌then◌else◌, arith}
use mvsync.World.{Waker}
use mvsync.Exec.{Poll}
use mvsync.Timer
use mvsync.Timer.{Timer, Sleep}
use mvsync.Utils.{async_sleep}
use mvsync.Clock
use mvsync.Clock.{Clock, Reads, Waiting, poll_wait, poll_sleep, starting, sleeping}

-- The reads of a poll follow one another.
abbrev pub IsOrdered : Reads → Type 0
IsOrdered r =
    (r.elapsed_at ≤ r.created_at) × (r.created_at ≤ r.polled_at) × (r.polled_at ≤ r.ticked_at)

-- What is left of the tick when a poll reads the clock, and the time from that read to the one of the sleep.
abbrev pub slept : Clock → Reads → ℕ
slept c r = c.tick_time - (r.elapsed_at - c.last_tick)

abbrev pub drift : Reads → ℕ
drift r = r.polled_at - r.elapsed_at

abbrev pub sleep : Clock → Reads → Sleep
sleep c r = record { duration = slept c r; when = r.polled_at + slept c r; started = true }

-- One tick after the last one, and the drift.
pub sleep_when :
    (c : Clock) (r : Reads)
    → c.last_tick ≤ r.elapsed_at
    → IsOrdered r
    → leb c.tick_time (r.elapsed_at - c.last_tick) ≡ false
    → r.polled_at + slept c r ≡ c.last_tick + c.tick_time + drift r
sleep_when c r past (a, b, _) early = ground arith

-- `wait` on an enabled clock that is not ready when its first poll reads the elapsed time: that poll is pending
-- and leaves the clock as it is. A later poll is ready if and only if it looks at the sleep when one tick has
-- passed since the last one and, on top of it, the time between the two reads of the first poll; it then sets
-- the last tick to the instant that it reads at its end, which is at least one tick after the last one.
pub wait-ready :
    (c : Clock) (r s : Reads) (k j : Waker) (t u : Timer)
    → c.enabled ≡ true
    → c.last_tick ≤ r.elapsed_at
    → Clock.ready r.elapsed_at c ≡ false
    → IsOrdered r
    → IsOrdered s
    → let due = leb (c.last_tick + c.tick_time + drift r) s.polled_at in
      (f : Waiting) × ((poll_wait r k c starting t).0 ≡ Poll.pending f)
      × ((poll_wait r k c starting t).1 ≡ c)
      × (poll_wait s j c f u ≡ (
          if due
          then (Poll.ready tt, record c { last_tick = s.ticked_at }, u)
          else (Poll.pending f, c, u)))
      × ((if due then c.last_tick + c.tick_time else 0) ≤ s.ticked_at)
unfolding poll_wait poll_sleep async_sleep Timer.poll Timer.new Clock.ready
wait-ready c r s k j t u on past early ordered ordered' =
    let h : leb c.tick_time (r.elapsed_at - c.last_tick) ≡ false = ground arith in
    let end = sleep_when c r past ordered h in
    (
      sleeping (sleep c r),
      rw on (rw h refl),
      rw on (rw h refl),
      rw (← end) (ground arith),
      ground arith,
    )
