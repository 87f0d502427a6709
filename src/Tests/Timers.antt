-- ===== src/Tests/Timers.antt =====
-- The theorems on the timer, the yield and the clock at concrete inputs.
use mathlib.Core.List.{Perm}
use mvsync.Base.{
  map, ℕ, zero, suc, ◌≤◌, true, some, List, [], ◌∷◌, ◌≡◌, refl, leb, All, if◌then◌else◌, arith,
}
use mvsync.World.{World, Waker, foreign}
use mvsync.Exec.{done, blocks, Poll}
use mvsync.Signal
use mvsync.Timer
use mvsync.Timer.{TimerEntry, Timer, Stage, advance, poll, started_timer}
use mvsync.Timer.Steps.{Moment, Step, Reach}
use mvsync.Timer.Due.{Reach-pops_due}
use mvsync.Timer.Lost.{advance_at, after_polls, entries_of, FirstPoll, entry, quiet, polls-lost}
use mvsync.Timer.Served.{IsSorted, four, peeking, advance_at-serves}
use mvsync.Clock
use mvsync.Clock.{Clock, Reads, Waiting, poll_wait, wait_sync, starting}
use mvsync.Clock.Rate.{wait-ready}
use mvsync.Clock.Sync.{timer_steps, serving, wait_sync-served}
use mvsync.Tests.Data.{world}

abbrev moment : ℕ → List TimerEntry → Stage → Moment
moment now es s = record { timer = record { entries = es; stage = s }; now = now }

-- A sleep of 5 from the instant 100 on, and the thread at 106 before its pop.
abbrev about_to_pop : Moment
about_to_pop = moment 106 (entry 105 (foreign 1) ∷ []) Stage.popping

about_to_pop-Reach : Reach (record { timer = started_timer; now = 100 }) about_to_pop
unfolding advance poll Timer.new Timer.notify_one Timer.peek_when Timer.pop
about_to_pop-Reach =
    let r₁ : Reach (moment 100 [] Stage.peeking)
        (moment 100 (entry 105 (foreign 1) ∷ []) Stage.peeking) =
      Reach.next Reach.here (Step.polls (foreign 1) (Timer.new 5 90) refl refl) in
    let r₂ : Reach (moment 100 [] Stage.peeking)
        (moment 106 (entry 105 (foreign 1) ∷ []) Stage.peeking) =
      Reach.next r₁ (Step.passes (omega arith) refl) in
    let r₃ : Reach (moment 100 [] Stage.peeking)
        (moment 106 (entry 105 (foreign 1) ∷ []) (Stage.peeked (some 105))) =
      Reach.next r₂ (Step.advances world world refl refl) in
    Reach.next r₃ (Step.advances world world refl refl)

Reach-pops_due_example :
    (e : TimerEntry) × (rest : List TimerEntry) × (advance 106 about_to_pop.timer world
      ≡ done (record { entries = rest; stage = Stage.waking e.waker }) world)
    × (e.when ≤ 106)
    × All (λ x. e.when ≤ x.when) (entry 105 (foreign 1) ∷ [])
Reach-pops_due_example = Reach-pops_due 100 about_to_pop world about_to_pop-Reach refl

-- Two futures that start to sleep at 101 and at 102.
abbrev first_polls : List FirstPoll
first_polls = (101, 5, foreign 1) ∷ (102, 2, foreign 2) ∷ []

polls-lost_example :
    (t t' : Timer) × (advance_at (100 ∷ []) started_timer world ≡ done t world)
    × (advance_at (103 ∷ 104 ∷ []) (after_polls first_polls t) world ≡ done t' world)
    × (t'.entries ≡ entries_of first_polls [])
    × ((later : ℕ) (v : World) → advance later t' v ≡ blocks v)
    × ((later duration when : ℕ) (k : Waker)
        → (poll later k (record { duration = duration; when = when; started = true }) t').1 ≡ t')
polls-lost_example = polls-lost 100 103 104 first_polls world

-- The later entry comes first.
abbrev heap : List TimerEntry
heap = entry 105 (foreign 1) ∷ entry 103 (foreign 2) ∷ []

advance_at-serves_example :
    (out : List TimerEntry) × Perm heap out
    × IsSorted out
    × (advance_at (four (106 ∷ 109 ∷ [])) (peeking heap) world
        ≡ done (peeking []) (Signal.drain (map (λ (e : TimerEntry). e.waker) out) world))
advance_at-serves_example =
    advance_at-serves (106 ∷ 109 ∷ []) heap world refl
      ((omega arith, (omega arith, tt)), ((omega arith, (omega arith, tt)), tt))

abbrev clock : Clock
clock = record { last_tick = 100; tick_time = 50; enabled = true }

abbrev reads : ℕ → ℕ → ℕ → ℕ → Reads
reads a b c d = record { elapsed_at = a; created_at = b; polled_at = c; ticked_at = d }

-- The first poll reads the clock from 120 to 123, the second one from 153 to 156.
abbrev first_reads : Reads
first_reads = reads 120 121 122 123

abbrev second_reads : Reads
second_reads = reads 153 154 155 156

wait-ready_example :
    (f : Waiting) × ((poll_wait first_reads (foreign 1) clock starting quiet).0 ≡ Poll.pending f)
    × ((poll_wait first_reads (foreign 1) clock starting quiet).1 ≡ clock)
    × (poll_wait second_reads (foreign 2) clock f quiet ≡ (
        if leb 152 155
        then (Poll.ready tt, record clock { last_tick = 156 }, quiet)
        else (Poll.pending f, clock, quiet)))
    × ((if leb 152 155 then 150 else 0) ≤ 156)
unfolding Clock.ready
wait-ready_example =
    wait-ready clock first_reads second_reads (foreign 1) (foreign 2) quiet quiet refl (omega arith)
      refl (omega arith, omega arith, omega arith) (omega arith, omega arith, omega arith)

abbrev instants : ℕ → Reads
instants zero = first_reads
instants (suc n) = second_reads

-- The timer thread is woken at 123, looks at its heap at 125, waits from 126 on and wakes at 153.
wait_sync-served_example :
    (w' : World) × (wait_sync instants (timer_steps (serving 123 125 126 153)) 2 clock quiet world
      ≡ done (record clock { last_tick = 156 }, record { entries = []; stage = Stage.peeking }) w')
unfolding Clock.ready
wait_sync-served_example =
    wait_sync-served instants 123 125 126 153 0 clock world refl (omega arith) refl
      (omega arith, omega arith, omega arith) (omega arith) (omega arith) (omega arith)
      (omega arith)
