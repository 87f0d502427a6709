-- ===== src/Timer.antt =====
-- src/timer.rs: the future `Sleep`, the heap of entries, and the loop of the timer thread, step by step.
-- An instant is a number of nanoseconds. The heap is a list in any order; what counts is which entry
-- `peek` and `pop` give, a greatest one by `TimerEntry::cmp`, which is an earliest one.
pub mod Heap
pub mod Steps
pub mod Due
pub mod Lost
pub mod Served
use mvsync.Base.{
  ℕ, ◌+◌, ◌-◌, Bool, true, false, Option, none, some, List, [], ◌∷◌, ◌==◌, leb, if◌then◌else◌,
}
use Prim.Native.Nat.{compare, Ordering}
use mathlib.Core.Option
use mvsync.World.{Value, Waker, text}
use mvsync.Exec.{done, unwinds, blocks, M, Poll}
use mvsync.Signal

pub record TimerEntry : Type 0 where
  pub when : ℕ
  pub waker : Waker

abbrev reverse : Ordering → Ordering
reverse Ordering.lt = Ordering.gt
reverse Ordering.eq = Ordering.eq
reverse Ordering.gt = Ordering.lt

-- `TimerEntry::cmp`: the earlier entry is the greater one.
abbrev pub cmp : TimerEntry → TimerEntry → Ordering
cmp a b = reverse (compare a.when b.when)

abbrev pub partial_cmp : TimerEntry → TimerEntry → Option Ordering
partial_cmp a b = some (cmp a b)

abbrev pub eq : TimerEntry → TimerEntry → Bool
eq a b = a.when == b.when

-- `self >= other`, by `partial_cmp`.
abbrev pub at_least : TimerEntry → TimerEntry → Bool
at_least a b = elim (partial_cmp a b) [
  | none ↦ false
  | some Ordering.lt ↦ false
  | some Ordering.eq ↦ true
  | some Ordering.gt ↦ true
]

-- `BinaryHeap::pop`: the entry and the rest.
unfoldable pub pop : List TimerEntry → Option (TimerEntry × List TimerEntry)
pop [] = none
pop (e ∷ es) = elim (pop es) [
  | none ↦ some (e, [])
  | some (m, rest) ↦ if at_least e m then some (e, es) else some (m, e ∷ rest)
]

-- `peek().map(|e| e.when)`.
unfoldable pub peek_when : List TimerEntry → Option ℕ
unfolding pop
peek_when es = Option.map (λ (e, _). e.when) (pop es)

-- Where the timer thread stands: before `peek`, before the match on its result, before `pop`, before
-- `wake`, before it takes the lock to wait for a duration or without end, and in the wait up to an
-- instant or without end.
pub data Stage : Type 0 where
  peeking : Stage
  peeked : Option ℕ → Stage
  popping : Stage
  waking : Waker → Stage
  locking : Option ℕ → Stage
  waiting : Option ℕ → Stage

pub record Timer : Type 0 where
  pub entries : List TimerEntry
  pub stage : Stage

-- After `INIT.call_once(start_timer_thread)`.
abbrev pub started_timer : Timer
started_timer = record { entries = []; stage = Stage.peeking }

-- `SIGNAL.notify_one()` does nothing unless the thread is in its wait.
unfoldable pub notify_one : Timer → Timer
notify_one t = elim t.stage [ Stage.waiting _ ↦ record t { stage = Stage.peeking } | _ ↦ t ]

pub record Sleep : Type 0 where
  pub duration : ℕ
  pub when : ℕ
  pub started : Bool

unfoldable pub new : ℕ → ℕ → Sleep
new duration now = record { duration = duration; when = now; started = false }

abbrev pub push : TimerEntry → Timer → Timer
push e t = record t { entries = e ∷ t.entries }

-- A poll at an instant: what it comes to, and the timer after it.
unfoldable pub poll : ℕ → Waker → Sleep → Timer → Poll Sleep (Unit {0}) × Timer
unfolding notify_one
poll now waker s t =
    if s.started
    then (if leb s.when now then (Poll.ready tt, t) else (Poll.pending s, t))
    else (let when = now + s.duration in
        (
          Poll.pending (record s { when = when; started = true }),
          notify_one (push (record { when = when; waker = waker }) t),
        ))

abbrev pub unwrap_none : Value
unwrap_none = text "called `Option::unwrap()` on a `None` value"

-- One step of the timer thread at an instant; `blocks` while it waits.
unfoldable pub advance : ℕ → Timer → M Timer
unfolding peek_when pop Signal.call
advance now t w = elim t.stage [
  | Stage.peeking ↦ done (record t { stage = Stage.peeked (peek_when t.entries) }) w
  | Stage.peeked none ↦ done (record t { stage = Stage.locking none }) w
  | Stage.peeked (some at) ↦
      if leb at now
      then done (record t { stage = Stage.popping }) w
      else done (record t { stage = Stage.locking (some (at - now)) }) w
  | Stage.popping ↦ elim (pop t.entries) [
    | none ↦ unwinds unwrap_none w
    | some (e, rest) ↦ done (record { entries = rest; stage = Stage.waking e.waker }) w
  ]
  | Stage.waking waker ↦ done (record t { stage = Stage.peeking }) (Signal.call waker w)
  | Stage.locking none ↦ done (record t { stage = Stage.waiting none }) w
  | Stage.locking (some d) ↦ done (record t { stage = Stage.waiting (some (now + d)) }) w
  | Stage.waiting none ↦ blocks w
  | Stage.waiting (some at) ↦
      if leb at now then done (record t { stage = Stage.peeking }) w else blocks w
]
