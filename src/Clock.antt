-- ===== src/Clock.antt =====
-- src/clock.rs: `Clock`, with the instants as arguments. Instants and durations are in nanoseconds;
-- `elapsed` is 0 for an instant that is not past. Each `Instant::now()` of a poll of `wait` has its own.
pub mod Rate
pub mod Sync
use mvsync.Base.{ℕ, zero, suc, ◌-◌, ◌*◌, ◌/◌, ◌==◌, Bool, true, false, not, leb, if◌then◌else◌}
use mvsync.World.{World, Value, Waker, context, text}
use mvsync.Exec.{Exec, M, Poll, done, out_of_fuel, ◌>>◌, panic, pure}
use mvsync.Signal
use mvsync.Timer
use mvsync.Timer.{Timer, Sleep}
use mvsync.Utils.{async_sleep}

pub record Clock : Type 0 where
  pub last_tick : ℕ
  pub tick_time : ℕ
  pub enabled : Bool

abbrev divide_by_zero : Value
divide_by_zero = text "attempt to divide by zero"

-- `Duration::from_micros(1_000_000 / tps as u64)`.
abbrev pub tick_of : ℕ → ℕ
tick_of tps = 1000000 / tps * 1000

unfoldable pub new : ℕ → ℕ → M Clock
new tps now =
    if tps == 0
    then panic divide_by_zero
    else pure (record { last_tick = now; tick_time = tick_of tps; enabled = true })

unfoldable pub new_disabled : ℕ → ℕ → M Clock
new_disabled tps now =
    if tps == 0
    then panic divide_by_zero
    else pure (record { last_tick = now; tick_time = tick_of tps; enabled = false })

unfoldable pub is_enabled : Clock → Bool
is_enabled c = c.enabled

unfoldable pub enable : Clock → Clock
enable c = record c { enabled = true }

unfoldable pub disable : Clock → Clock
disable c = record c { enabled = false }

unfoldable pub ready : ℕ → Clock → Bool
ready now c = if not c.enabled then false else leb c.tick_time (now - c.last_tick)

unfoldable pub tick : ℕ → Clock → Clock
tick now c = if not c.enabled then c else record c { last_tick = now }

-- The future of `wait`: before its first poll, or in `async_sleep(..).await`.
pub data Waiting : Type 0 where
  starting : Waiting
  sleeping : Sleep → Waiting

-- The instants at which one poll of that future reads the clock, in the order of the source: for `elapsed`,
-- in `Sleep::new`, in `Sleep::poll`, and for `last_tick`. A poll that does not come to a read leaves it out.
pub record Reads : Type 0 where
  pub elapsed_at : ℕ
  pub created_at : ℕ
  pub polled_at : ℕ
  pub ticked_at : ℕ

-- What a poll comes to, with the clock and the timer after it.
abbrev pub Waited : Type 0
Waited = Poll Waiting (Unit {0}) × Clock × Timer

unfoldable pub poll_sleep : Reads → Waker → Clock → Sleep → Timer → Waited
unfolding Timer.poll
poll_sleep r waker c s t =
    let (p, t') = Timer.poll r.polled_at waker s t in
    elim p [
      | Poll.ready _ ↦ (Poll.ready tt, record c { last_tick = r.ticked_at }, t')
      | Poll.pending s' ↦ (Poll.pending (sleeping s'), c, t')
    ]

unfoldable pub poll_wait : Reads → Waker → Clock → Waiting → Timer → Waited
unfolding poll_sleep async_sleep
poll_wait r waker c starting t =
    if not c.enabled
    then (Poll.ready tt, c, t)
    else (let elapsed = r.elapsed_at - c.last_tick in
        if leb c.tick_time elapsed
        then (Poll.ready tt, record c { last_tick = r.ticked_at }, t)
        else (let wait_time = c.tick_time - elapsed in
            poll_sleep r waker c (async_sleep wait_time r.created_at) t))
poll_wait r waker c (sleeping s) t = poll_sleep r waker c s t

-- What other threads do to the timer and the world before this one goes on from its n-th wait.
abbrev pub Others : Type 0
Others = ℕ → Timer → World → Timer × World

-- The thread goes on once its signal is up.
unfoldable pub resume : (Timer → M (Clock × Timer)) → ℕ → Timer × World → Exec (Clock × Timer)
unfolding Signal.wait
resume rest signal (t, w) = (Signal.wait signal >> rest t) w

-- What `await_sync` does after a poll; `rest` is the loop from its next turn on.
unfoldable pub after_waited :
    (Waiting → Clock → Timer → M (Clock × Timer))
    → (Timer → World → Timer × World)
    → ℕ
    → Waited
    → M (Clock × Timer)
unfolding resume
after_waited rest others signal (Poll.ready _, c, t) w = done (c, t) w
after_waited rest others signal (Poll.pending future, c, t) w =
    resume (rest future c) signal (others t w)

-- `self.wait().await_sync()`: the n-th poll reads the clock at the instants `at n`. The fuel bounds the polls.
unfoldable pub wait_loop :
    (ℕ → Reads) → Others → ℕ → ℕ → ℕ → Waiting → Clock → Timer → M (Clock × Timer)
unfolding poll_wait after_waited
wait_loop at others zero n signal future c t w = out_of_fuel
wait_loop at others (suc fuel) n signal future c t w =
    after_waited (wait_loop at others fuel (suc n) signal) (others n) signal
      (poll_wait (at n) (context signal) c future t) w

unfoldable pub wait_sync : (ℕ → Reads) → Others → ℕ → Clock → Timer → M (Clock × Timer)
unfolding wait_loop Signal.new
wait_sync at others fuel c t w =
    let (signal, w') = Signal.new w in wait_loop at others fuel 0 signal starting c t w'
