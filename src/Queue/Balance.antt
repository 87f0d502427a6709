-- ===== src/Queue/Balance.antt =====
-- What the specification means for the tasks of a whole run: an account of every task.
use mvsync.Base.{
  ℕ, ◌+◌, ◌<◌, true, ◌⊎◌, inl, inr, List, [], ◌∷◌, ◌++◌, ◌≡◌, ap, ◌∙◌, count, count-append, copies,
  copies-add, All, All-append, All-mono, All-with_count, arith,
}
use mvsync.World.{World}
use mvsync.Queue.Conserve.{is_over}
use mvsync.Queue.Spec.{Tasks, Spec, view}
use mvsync.Queue.System.{System, Step, Reach}
use mvsync.Queue.Effects.{StopsBy, submitted_by, submitted_in}
use mvsync.Queue.Refines.{Step-refines}

-- Fewer copies of a task wait after a step than before, or more of them run.
abbrev pub FewerWait : ℕ → Tasks → Tasks → Type 0
FewerWait i x y = copies i y.waiting < copies i x.waiting

abbrev pub MoreRun : ℕ → Tasks → Tasks → Type 0
MoreRun i x y = copies i x.running < copies i y.running

-- A step of the run made the task wait no more, and at its end the task had panicked or was cancelled.
abbrev pub IsPassed : {a b : System} → Reach a b → ℕ → Type 0
IsPassed Reach.here i = ⊥
IsPassed (Reach.next {b = b} {c = c} r s) i =
    IsPassed r i ⊎ (FewerWait i (view b.queue) (view c.queue) × (is_over (c.world.states i) ≡ true))

-- A step of the run made the task run instead of wait.
abbrev pub IsStarted : {a b : System} → Reach a b → ℕ → Type 0
IsStarted Reach.here i = ⊥
IsStarted (Reach.next {b = b} {c = c} r s) i =
    IsStarted r i
    ⊎ (FewerWait i (view b.queue) (view c.queue) × MoreRun i (view b.queue) (view c.queue))

-- A step of the run made the task run no more: a thread polled it, and the poll came to an end, or left it
-- cancelled.
abbrev pub IsStopped : {a b : System} → Reach a b → ℕ → Type 0
IsStopped Reach.here i = ⊥
IsStopped (Reach.next {b = b} {c = c} r s) i =
    IsStopped r i ⊎ (MoreRun i (view c.queue) (view b.queue) × StopsBy s i)

-- The tasks that were submitted in a run, and those that waited at its start, were passed over, or started,
-- or wait still; those that ran or started have stopped or run still.
pub record Balances {a b : System} (r : Reach a b) : Type 0 where
  pub passed : List ℕ
  pub started : List ℕ
  pub stopped : List ℕ
  pub are_passed : All (IsPassed r) passed
  pub are_started : All (IsStarted r) started
  pub are_stopped : All (IsStopped r) stopped
  pub waiting :
      (n : ℕ)
      → count n (submitted_in r) + copies n (view a.queue).waiting
        ≡ count n passed + count n started + copies n (view b.queue).waiting
  pub running :
      (n : ℕ)
      → copies n (view a.queue).running + count n started
        ≡ count n stopped + copies n (view b.queue).running

-- The account of one step.
record Accounts (w : World) (new : List ℕ) (Stops : ℕ → Type 0) (x y : Tasks) : Type 0 where
  passed : List ℕ
  started : List ℕ
  stopped : List ℕ
  are_passed : All (λ i. FewerWait i x y × (is_over (w.states i) ≡ true)) passed
  are_started : All (λ i. FewerWait i x y × MoreRun i x y) started
  are_stopped : All (λ i. MoreRun i y x × Stops i) stopped
  waiting :
      (n : ℕ)
      → count n new + copies n x.waiting ≡ count n passed + count n started + copies n y.waiting
  running : (n : ℕ) → copies n x.running + count n started ≡ count n stopped + copies n y.running

Spec-Accounts :
    (w : World) (new : List ℕ) (Stops : ℕ → Type 0) (x y : Tasks)
    → Spec w new Stops x y
    → Accounts w new Stops x y
Spec-Accounts w new Stops x y (Spec.submits e f) = record {
  passed = [];
  started = [];
  stopped = [];
  are_passed = tt;
  are_started = tt;
  are_stopped = tt;
  waiting = λ n. omega (arith, ap (copies n) e ∙ copies-add n new x.waiting);
  running = λ n. omega (arith, ap (copies n) f);
}
Spec-Accounts w new Stops x y (Spec.skips none ts over e f) =
    let split : (n : ℕ) → copies n x.waiting ≡ count n ts + copies n y.waiting =
      λ n. ap (copies n) e ∙ copies-add n ts y.waiting in
    record {
      passed = ts;
      started = [];
      stopped = [];
      are_passed = All-with_count _ _ ts over (λ i o c. (omega (arith, c, split i), o));
      are_started = tt;
      are_stopped = tt;
      waiting = λ n. omega (arith, ap (count n) none, split n);
      running = λ n. omega (arith, ap (copies n) f);
    }
Spec-Accounts w new Stops x y (Spec.starts none ts e f) =
    let split : (n : ℕ) → copies n x.waiting ≡ count n ts + copies n y.waiting =
      λ n. ap (copies n) e ∙ copies-add n ts y.waiting in
    let grown : (n : ℕ) → copies n y.running ≡ count n ts + copies n x.running =
      λ n. ap (copies n) f ∙ copies-add n ts x.running in
    record {
      passed = [];
      started = ts;
      stopped = [];
      are_passed = tt;
      are_started =
          All-with_count (λ _. Unit {0}) _ ts (All-units ts)
            (λ i _ c. (omega (arith, c, split i), omega (arith, c, grown i)));
      are_stopped = tt;
      waiting = λ n. omega (arith, ap (count n) none, split n);
      running = λ n. omega (arith, grown n);
    }
  where
    All-units : (ks : List ℕ) → All (λ _. Unit {0}) ks
    All-units [] = tt
    All-units (k ∷ ks) = (tt, All-units ks)
Spec-Accounts w new Stops x y (Spec.stops none ts stop e f) =
    let split : (n : ℕ) → copies n x.running ≡ count n ts + copies n y.running =
      λ n. ap (copies n) f ∙ copies-add n ts y.running in
    record {
      passed = [];
      started = [];
      stopped = ts;
      are_passed = tt;
      are_started = tt;
      are_stopped = All-with_count _ _ ts stop (λ i s c. (omega (arith, c, split i), s));
      waiting = λ n. omega (arith, ap (count n) none, ap (copies n) e);
      running = λ n. omega (arith, split n);
    }

module _ {a b c : System} (r : Reach a b) (s : Step b c) where
  -- What holds of some tasks up to a step, and of others by that step.
  extend :
      (P Q : ℕ → Type 0) (front back : List ℕ)
      → All P front
      → All Q back
      → All (λ i. P i ⊎ Q i) (front ++ back)
  extend P Q front back p q =
      All-append (λ i. P i ⊎ Q i) front back (All-mono P (λ i. P i ⊎ Q i) front (λ _ h. inl h) p)
        (All-mono Q (λ i. P i ⊎ Q i) back (λ _ h. inr h) q)

  Balances-next :
      Balances r
      → Accounts c.world (submitted_by s) (StopsBy s) (view b.queue) (view c.queue)
      → Balances (Reach.next r s)
  Balances-next x y = record {
    passed = x.passed ++ y.passed;
    started = x.started ++ y.started;
    stopped = x.stopped ++ y.stopped;
    are_passed = extend (IsPassed r) _ x.passed y.passed x.are_passed y.are_passed;
    are_started = extend (IsStarted r) _ x.started y.started x.are_started y.are_started;
    are_stopped = extend (IsStopped r) _ x.stopped y.stopped x.are_stopped y.are_stopped;
    waiting = λ n. omega (
      arith,
      x.waiting n,
      y.waiting n,
      count-append n (submitted_in r) (submitted_by s),
      count-append n x.started y.started,
      count-append n x.passed y.passed,
    );
    running = λ n. omega (
      arith,
      x.running n,
      y.running n,
      count-append n x.started y.started,
      count-append n x.stopped y.stopped,
    );
  }

-- However submissions, the queue's loop, the threads' loops and user code interleave: each task that was
-- submitted or that waited at the start waits still, or was started by a step of the run, or was passed over
-- by a step at whose end it had panicked or was cancelled; each task that was started or that ran at the
-- start runs still, or was stopped by a step in which a thread polled it, and the poll returned or panicked,
-- or left it cancelled. This holds with the number of times: no task is lost, and none is started twice.
pub Reach-Balances : (a b : System) (r : Reach a b) → Balances r
Reach-Balances a b Reach.here = record {
  passed = [];
  started = [];
  stopped = [];
  are_passed = tt;
  are_started = tt;
  are_stopped = tt;
  waiting = λ n. omega arith;
  running = λ n. omega arith;
}
Reach-Balances a c (Reach.next {b = b} r s) = Balances-next r s (Reach-Balances a b r) (
    Spec-Accounts c.world (submitted_by s) (StopsBy s) (view b.queue) (view c.queue)
      (Step-refines b c s))
