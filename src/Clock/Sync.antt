-- ===== src/Clock/Sync.antt =====
-- `wait_sync` of src/clock.rs with the timer thread of src/timer.rs.
use mvsync.Base.{
  ℕ, suc, ◌+◌, ◌-◌, ◌≤◌, ◌<◌, true, false, List, [], ◌∷◌, ◌≡◌, refl, ap, ◌∙◌, leb, arith,
}
use mvsync.World.{World, Waker, context}
use mvsync.Exec.{Poll, done, unwinds, blocks, out_of_fuel}
use mvsync.Signal
use mvsync.Timer
use mvsync.Timer.{Timer, Stage}
use mvsync.Timer.Lost.{advance_at, after_poll, quiet, poll-served}
use mvsync.Utils.{async_sleep}
use mvsync.Clock
use mvsync.Clock.Rate.{IsOrdered, slept, drift, sleep, sleep_when}
use mvsync.Clock.{
  Clock, Reads, Others, Waiting, wait_loop, wait_sync, poll_wait, poll_sleep, starting, sleeping,
}

-- The timer thread makes steps at the given instants, and no other thread does anything.
abbrev pub timer_steps : List ℕ → Others
timer_steps instants n t w = elim (advance_at instants t w) [
  | done t' w' ↦ (t', w')
  | unwinds _ w' ↦ (t, w')
  | blocks w' ↦ (t, w')
  | out_of_fuel ↦ (t, w)
]

-- Three steps of a thread that was notified, up to its next wait, and five at a later instant.
abbrev pub serving : ℕ → ℕ → ℕ → ℕ → List ℕ
serving woken peeked locked later =
    woken ∷ peeked ∷ locked ∷ later ∷ later ∷ later ∷ later ∷ later ∷ []

module _ (c : Clock) (r : Reads) (k : Waker) where
  first_poll :
      (t : Timer)
      → c.enabled ≡ true
      → leb c.tick_time (r.elapsed_at - c.last_tick) ≡ false
      → poll_wait r k c starting t
        ≡ (Poll.pending (sleeping (sleep c r)), c, after_poll r.polled_at (slept c r) k t)
  unfolding poll_wait poll_sleep async_sleep Timer.poll Timer.new
  first_poll t on early = rw on (rw early refl)

  last_poll :
      (s : Reads) (t : Timer)
      → r.polled_at + slept c r ≤ s.polled_at
      → poll_wait s k c (sleeping (sleep c r)) t
        ≡ (Poll.ready tt, record c { last_tick = s.ticked_at }, t)
  unfolding poll_wait poll_sleep Timer.poll
  last_poll s t past = ground arith

timer_steps-done :
    (instants : List ℕ) (n : ℕ) (t t' : Timer) (w w' : World)
    → advance_at instants t w ≡ done t' w'
    → timer_steps instants n t w ≡ (t', w')
timer_steps-done instants n t t' w w' e = rw (e, timer_steps) refl

module _ (at : ℕ → Reads) (others : Others) (fuel n k : ℕ) (f : Waiting) (c c' : Clock)
    (t t' : Timer) (w : World) where
  -- A poll that pends, and a wait from which the others wake the thread.
  wait_loop-pending :
      (f' : Waiting) (t'' : Timer) (w' : World)
      → poll_wait (at n) (context k) c f t ≡ (Poll.pending f', c', t')
      → others n t' w ≡ (t'', w')
      → (w'.signals k).ready ≡ true
      → wait_loop at others (suc fuel) n k f c t w
        ≡ wait_loop at others fuel (suc n) k f' c' t'' (Signal.set_ready k false w')
  unfolding wait_loop Clock.after_waited Clock.resume Signal.wait
  wait_loop-pending f' t'' w' polls serves up =
      let rest = wait_loop at others fuel (suc n) k in
      ap (λ p. Clock.after_waited rest (others n) k p w) polls
      ∙ ap (Clock.resume (rest f' c') k) serves
      ∙ rw up refl

  wait_loop-ready :
      poll_wait (at n) (context k) c f t ≡ (Poll.ready tt, c', t')
      → wait_loop at others (suc fuel) n k f c t w ≡ done (c', t') w
  unfolding wait_loop Clock.after_waited
  wait_loop-ready polls =
      ap (λ p. Clock.after_waited (wait_loop at others fuel (suc n) k) (others n) k p w) polls

-- `wait_sync` on an enabled clock that is not ready when the first poll reads the elapsed time, with a timer
-- thread that waits for nothing in particular: the awaiting thread is parked. The timer thread looks at its
-- heap before the sleep is over and waits for the rest of it; five steps at one instant after that wait wake
-- the awaiting thread, which polls once more and returns. The sleep is over one tick after the last one and the
-- time between the two reads of the first poll. The clock's last tick is then the last read of the second
-- poll, and no entry is left with the timer.
pub wait_sync-served :
    (at : ℕ → Reads) (woken peeked locked later fuel : ℕ) (c : Clock) (w : World)
    → c.enabled ≡ true
    → c.last_tick ≤ (at 0).elapsed_at
    → Clock.ready (at 0).elapsed_at c ≡ false
    → IsOrdered (at 0)
    → peeked < c.last_tick + c.tick_time + drift (at 0)
    → peeked ≤ locked
    → c.last_tick + c.tick_time + drift (at 0) + (locked - peeked) ≤ later
    → later ≤ (at 1).polled_at
    → (w' : World) × (wait_sync at
          (timer_steps (serving woken peeked locked later))
          (suc (suc fuel))
          c
          quiet
          w
        ≡ done
            (
              record c { last_tick = (at 1).ticked_at },
              record { entries = []; stage = Stage.peeking },
            )
            w')
unfolding wait_sync Clock.ready Signal.call
wait_sync-served at woken peeked locked later fuel c w on past early ordered before goes due
      polled =
    let (k, v) = Signal.new w in
    let r = at 0 in
    let waits : leb c.tick_time (r.elapsed_at - c.last_tick) ≡ false = ground arith in
    let end = sleep_when c r past ordered waits in
    let instants = serving woken peeked locked later in
    let empty : Timer = record { entries = []; stage = Stage.peeking } in
    let served =
      timer_steps-done instants 0 (after_poll r.polled_at (slept c r) (context k) quiet) empty v
        (Signal.call (context k) v)
        (poll-served r.polled_at (slept c r) woken peeked locked later (context k) v
          (omega (arith, end, before)) goes (omega (arith, end, goes, due, before))) in
    let up : ((Signal.call (context k) v).signals k).ready ≡ true = ground arith in
    (
      Signal.set_ready k false (Signal.call (context k) v),
      wait_loop-pending at (timer_steps instants) (suc fuel) 0 k starting c c quiet
            (after_poll r.polled_at (slept c r) (context k) quiet) v (sleeping (sleep c r)) empty
            (Signal.call (context k) v) (first_poll c r (context k) quiet on waits) served up
          ∙ wait_loop-ready at (timer_steps instants) fuel 1 k (sleeping (sleep c r)) c
              (record c { last_tick = (at 1).ticked_at }) empty empty
              (Signal.set_ready k false (Signal.call (context k) v))
              (last_poll c r (context k) (at 1) empty (omega (arith, end, goes, due, polled))),
    )
