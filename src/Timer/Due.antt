-- ===== src/Timer/Due.antt =====
-- The entry that the timer thread takes from its heap.
use mvsync.Base.{
  ℕ, ◌+◌, ◌≤◌, true, Option, none, some, List, ◌∷◌, ◌≡◌, refl, sym, subst, ◌∙◌, leb, All, if-cases,
  arith,
}
use mathlib.Core.Option
use mvsync.World.{World, Waker}
use mvsync.Exec.{Poll, done, unwinds, IfDone, IfDone-eq}
use mvsync.Timer.{
  TimerEntry, Timer, Stage, Sleep, pop, peek_when, poll, advance, notify_one, push, unwrap_none,
  started_timer,
}
use mvsync.Timer.Heap.{has_by, IsPop, pop-IsPop, has_by_mono, pop-due}
use mvsync.Timer.Steps.{Moment, Step, Reach}

-- Where the timer thread stands, some entry lets it go on.
abbrev Goes : ℕ → List TimerEntry → Stage → Type 0
Goes now es (Stage.peeked (some at)) = has_by at es ≡ true
Goes now es Stage.popping = has_by now es ≡ true
Goes now es _ = Unit {0}

abbrev IsSound : Moment → Type 0
IsSound m = Goes m.now m.timer.entries m.timer.stage

notify-Goes :
    (now : ℕ) (t : Timer)
    → Goes now t.entries t.stage
    → Goes now (notify_one t).entries (notify_one t).stage
unfolding notify_one
notify-Goes now t h = at t.stage h
  where
    at :
        (s : Stage)
        → Goes now t.entries s
        → Goes now
            (notify_one (record t { stage = s })).entries
            (notify_one (record t { stage = s })).stage
    at Stage.peeking h = h
    at (Stage.peeked _) h = h
    at Stage.popping h = h
    at (Stage.waking _) h = h
    at (Stage.locking _) h = h
    at (Stage.waiting _) h = tt

push-Goes :
    (now : ℕ) (e : TimerEntry) (es : List TimerEntry) (s : Stage)
    → Goes now es s
    → Goes now (e ∷ es) s
push-Goes now e es Stage.peeking h = h
push-Goes now e es (Stage.peeked none) h = h
push-Goes now e es (Stage.peeked (some at)) h = ground arith
push-Goes now e es Stage.popping h = ground arith
push-Goes now e es (Stage.waking _) h = h
push-Goes now e es (Stage.locking _) h = h
push-Goes now e es (Stage.waiting _) h = h

poll-Goes :
    (now : ℕ) (k : Waker) (s : Sleep) (t : Timer)
    → Goes now t.entries t.stage
    → Goes now (poll now k s t).1.entries (poll now k s t).1.stage
unfolding poll
poll-Goes now k s t h =
    if-cases P s.started _ _ (λ _. if-cases P (leb s.when now) _ _ (λ _. h) (λ _. h))
      (λ _.
        notify-Goes now (push (record { when = now + s.duration; waker = k }) t)
          (push-Goes now (record { when = now + s.duration; waker = k }) t.entries t.stage h))
  where
    P : Poll Sleep (Unit {0}) × Timer → Type 0
    P r = Goes now r.1.entries r.1.stage

passes-Goes :
    (now later : ℕ) (es : List TimerEntry) (s : Stage)
    → now ≤ later
    → Goes now es s
    → Goes later es s
passes-Goes now later es Stage.peeking le h = h
passes-Goes now later es (Stage.peeked none) le h = h
passes-Goes now later es (Stage.peeked (some at)) le h = h
passes-Goes now later es Stage.popping le h = has_by_mono now later es le h
passes-Goes now later es (Stage.waking _) le h = h
passes-Goes now later es (Stage.locking _) le h = h
passes-Goes now later es (Stage.waiting _) le h = h

advance-Goes :
    (now : ℕ) (t : Timer) (w : World)
    → Goes now t.entries t.stage
    → IfDone (λ (u : Timer) _. Goes now u.entries u.stage) (advance now t w)
unfolding advance peek_when
advance-Goes now t w h = from t.stage h
  where
    from :
        (s : Stage)
        → Goes now t.entries s
        → IfDone
            (λ (u : Timer) _. Goes now u.entries u.stage)
            (advance now (record t { stage = s }) w)
    from Stage.peeking h = found (pop t.entries) (pop-IsPop t.entries)
      where
        found :
            (r : Option (TimerEntry × List TimerEntry))
            → IsPop t.entries r
            → Goes now t.entries (Stage.peeked (Option.map (λ (e, _). e.when) r))
        found none k = tt
        found (some (m, rest)) (by, least) = by m.when ∙ ground arith
    from (Stage.peeked none) h = tt
    from (Stage.peeked (some at)) h =
        if-cases (IfDone (λ (u : Timer) _. Goes now u.entries u.stage)) (leb at now) _ _
          (λ due. has_by_mono at now t.entries (ground arith) h) (λ _. tt)
    from Stage.popping h = taken (pop t.entries)
      where
        taken :
            (r : Option (TimerEntry × List TimerEntry))
            → IfDone
                (λ (u : Timer) _. Goes now u.entries u.stage)
                (elim r [
                  | none ↦ unwinds unwrap_none w
                  | some (e, rest) ↦
                      done (record { entries = rest; stage = Stage.waking e.waker }) w
                ])
        taken none = tt
        taken (some (e, rest)) = tt
    from (Stage.waking _) h = tt
    from (Stage.locking none) h = tt
    from (Stage.locking (some d)) h = tt
    from (Stage.waiting none) h = tt
    from (Stage.waiting (some at)) h =
        if-cases (IfDone (λ (u : Timer) _. Goes now u.entries u.stage)) (leb at now) _ _ (λ _. tt)
          (λ _. tt)

Step-Sound : (a b : Moment) → Step a b → IsSound a → IsSound b
Step-Sound a b (Step.passes le e) h =
    subst (λ t. Goes b.now t.entries t.stage) (sym e)
      (passes-Goes a.now b.now a.timer.entries a.timer.stage le h)
Step-Sound a b (Step.polls k s n e) h =
    subst (λ t. Goes b.now t.entries t.stage) (sym e)
      (subst (λ x. Goes x (poll a.now k s a.timer).1.entries (poll a.now k s a.timer).1.stage)
        (sym n) (poll-Goes a.now k s a.timer h))
Step-Sound a b (Step.advances v w n e) h =
    subst (λ x. Goes x b.timer.entries b.timer.stage) (sym n)
      (IfDone-eq (λ u _. Goes a.now u.entries u.stage) (advance-Goes a.now a.timer v h) e)

Reach-Sound : (a b : Moment) → Reach a b → IsSound a → IsSound b
Reach-Sound a b Reach.here h = h
Reach-Sound a c (Reach.next {b = b} r s) h = Step-Sound b c s (Reach-Sound a b r h)

advance-popping :
    (now : ℕ) (t : Timer) (w : World) (e : TimerEntry) (rest : List TimerEntry)
    → t.stage ≡ Stage.popping
    → pop t.entries ≡ some (e, rest)
    → advance now t w ≡ done (record { entries = rest; stage = Stage.waking e.waker }) w
unfolding advance
advance-popping now t w e rest at_pop pops = rw at_pop (rw (pops, advance) refl)

-- Whenever the timer thread comes to pop, however polls, the clock and the thread interleaved, the
-- heap holds an entry, so that the pop does not panic, and the one that is popped is due and no
-- later than any other.
pub Reach-pops_due :
    (start : ℕ) (b : Moment) (w : World)
    → Reach (record { timer = started_timer; now = start }) b
    → b.timer.stage ≡ Stage.popping
    → (e : TimerEntry) × (rest : List TimerEntry) × (advance b.now b.timer w
        ≡ done (record { entries = rest; stage = Stage.waking e.waker }) w)
      × (e.when ≤ b.now)
      × All (λ x. e.when ≤ x.when) b.timer.entries
Reach-pops_due start b w r at_pop =
    let (e, rest, pops, due, least) =
      pop-due b.now b.timer.entries
        (subst (λ s. Goes b.now b.timer.entries s) at_pop (Reach-Sound _ b r tt)) in
    (e, rest, advance-popping b.now b.timer w e rest at_pop pops, due, least)
