-- ===== src/Timer/Lost.antt =====
-- A future that starts to sleep while the timer thread is on its way to its wait, and one that starts
-- while the thread is in it.
use mvsync.Base.{ℕ, ◌+◌, ◌-◌, ◌≤◌, ◌<◌, true, false, none, List, [], ◌∷◌, ◌≡◌, refl, ap, leb, arith}
use mvsync.World.{World, Waker}
use mvsync.Exec.{done, blocks, M, ◌>>=◌, pure}
use mvsync.Signal
use mvsync.Timer
use mvsync.Timer.{TimerEntry, Timer, Stage, poll, advance, notify_one, started_timer}

-- Steps of the timer thread at the given instants.
unfoldable pub advance_at : List ℕ → Timer → M Timer
unfolding advance
advance_at [] t = pure t
advance_at (now ∷ later) t = advance now t >>= advance_at later

abbrev pub entry : ℕ → Waker → TimerEntry
entry when k = record { when = when; waker = k }

abbrev pub after_poll : ℕ → ℕ → Waker → Timer → Timer
after_poll now duration k t = (poll now k (Timer.new duration now) t).1

abbrev pub quiet : Timer
quiet = record { entries = []; stage = Stage.waiting none }

-- First polls of sleeping futures, each at an instant, for a duration and with a waker.
abbrev pub FirstPoll : Type 0
FirstPoll = ℕ × ℕ × Waker

abbrev pub after_polls : List FirstPoll → Timer → Timer
after_polls [] t = t
after_polls ((now, duration, k) ∷ ps) t = after_polls ps (after_poll now duration k t)

-- The entries that they leave in a heap.
abbrev pub entries_of : List FirstPoll → List TimerEntry → List TimerEntry
entries_of [] es = es
entries_of ((now, duration, k) ∷ ps) es = entries_of ps (entry (now + duration) k ∷ es)

after_polls-peeked :
    (ps : List FirstPoll) (es : List TimerEntry)
    → after_polls ps (record { entries = es; stage = Stage.peeked none })
      ≡ record { entries = entries_of ps es; stage = Stage.peeked none }
unfolding poll notify_one Timer.new
after_polls-peeked [] es = refl
after_polls-peeked ((now, duration, k) ∷ ps) es =
    after_polls-peeked ps (entry (now + duration) k ∷ es)

-- The notifications are lost if the first polls of sleeping futures fall between the timer thread's look at a heap
-- that it finds empty and its wait: their entries are in the heap, and the thread waits at whatever instant it
-- is looked at, however often these futures are polled again.
pub polls-lost :
    (now a b : ℕ) (ps : List FirstPoll) (w : World)
    → (t t' : Timer) × (advance_at (now ∷ []) started_timer w ≡ done t w)
      × (advance_at (a ∷ b ∷ []) (after_polls ps t) w ≡ done t' w)
      × (t'.entries ≡ entries_of ps [])
      × ((later : ℕ) (v : World) → advance later t' v ≡ blocks v)
      × ((later duration when : ℕ) (k : Waker)
          → (poll later k (record { duration = duration; when = when; started = true }) t').1 ≡ t')
unfolding advance_at poll notify_one Timer.new Timer.peek_when Timer.pop
polls-lost now a b ps w =
    let t' : Timer = record { entries = entries_of ps []; stage = Stage.waiting none } in
    (
      record { entries = []; stage = Stage.peeked none },
      t',
      refl,
      ap (λ t. advance_at (a ∷ b ∷ []) t w) (after_polls-peeked ps []),
      refl,
      (λ later v. refl),
      λ later duration when k. ground arith,
    )

-- A future that starts to sleep while the timer thread waits for nothing in particular is served. The thread
-- looks at the heap before the sleep is over and waits for the rest of it; five steps at one instant after that
-- wait take the entry and call the waker.
pub poll-served :
    (now duration woken peeked locked later : ℕ) (k : Waker) (w : World)
    → peeked < now + duration
    → peeked ≤ locked
    → locked + (now + duration - peeked) ≤ later
    → advance_at
        (woken ∷ peeked ∷ locked ∷ later ∷ later ∷ later ∷ later ∷ later ∷ [])
        (after_poll now duration k quiet)
        w
      ≡ done (record { entries = []; stage = Stage.peeking }) (Signal.call k w)
unfolding advance_at poll notify_one Timer.new Timer.peek_when Timer.pop
poll-served now duration woken peeked locked later k w before goes past =
    let early : leb (now + duration) peeked ≡ false = ground arith in
    let due : leb (now + duration) later ≡ true = ground arith in
    let waits : leb (locked + (now + duration - peeked)) later ≡ true = ground arith in
    rw early (rw waits (rw due refl))
