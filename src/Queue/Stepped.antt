-- ===== src/Queue/Stepped.antt =====
-- What a queue of one thread, in src/queue.rs, makes of one task in a turn of the queue and one of the thread: a
-- task over a function, or a continuation.
use mvsync.Base.{
  ℕ, suc, ◌<◌, ◌^◌, true, false, none, List, [], ◌∷◌, ◌≡◌, ◌≢◌, refl, sym, subst, ap, ◌∙◌, all,
  elem, length, arith,
}
use mvsync.World.{World, Value, TaskState, unit, context, set_state}
use mvsync.Exec.{done}
use mvsync.Signal
use mvsync.Signal.Frame.{wake-SameData, wake-keeps-ready}
use mvsync.Task
use mvsync.Task.{Task}
use mvsync.Task.State
use mvsync.Task.Body
use mvsync.Task.Body.{Outcome}
use mvsync.Task.Handle
use mvsync.Task.Handle.{TaskHandle, TaskResult}
use mvsync.Run.{settle}
use mvsync.Run.Settle.{settle-Settled}
use mvsync.Run.Execute.{
  Holds, IsRunnable, IsRunnable-can_execute, wait-Holds, after_take, poll-continuing,
}
use mvsync.Run.Ended.{Ended, wait-panicked}
use mvsync.Buffer.Pipeline.{IsStep, IsLinked, IsLinked-frame, all-elem, and_call, pipe}
use mvsync.Worker.{WorkerThread}
use mvsync.Queue.{Queue}
use mvsync.Queue.Single.{alone, alternate, alternate-ready, alternate-unwinds, alternate-passes}

-- The task of the handle has come to the outcome.
abbrev pub Told : TaskHandle → Outcome → World → Type 0
Told h (Outcome.returns x) w = Holds h x w
Told h (Outcome.panics _) w = (p : Value) × Ended h (TaskState.panicked p) w w

-- What the handle gives then.
abbrev pub told : Outcome → TaskResult
told (Outcome.returns x) = TaskResult.returned x
told (Outcome.panics _) = TaskResult.panicked unit

pub wait-Told :
    (h : TaskHandle) (o : Outcome) (w : World)
    → Told h o w
    → (w' : World) × (Handle.wait h w ≡ done (told o) w')
wait-Told h (Outcome.returns x) w held = (after_take h w, wait-Holds h x w held)
wait-Told h (Outcome.panics _) w (p, ended) =
    (Signal.set_ready h.signal false w, wait-panicked h p w w ended)

and_call_assoc :
    (o : Outcome) (g k : Value → Outcome)
    → and_call (and_call o g) k ≡ and_call o (λ x. and_call (g x) k)
and_call_assoc (Outcome.returns x) g k = refl
and_call_assoc (Outcome.panics p) g k = refl

-- The thread can take another task if the outcome is a value.
abbrev pub Spares : Outcome → ℕ → Type 0
Spares (Outcome.returns _) free = (0 < free) × (free < 2 ^ 32)
Spares (Outcome.panics _) free = Unit {0}

-- A task of the handle `r` that may run on any thread.
pub record IsPlain (r : TaskHandle) (t : Task) : Type 0 where
  pub self_state : t.self_state ≡ r.state
  pub own : t.signal.0 ≡ r.signal
  pub anywhere : t.preferred_thread ≡ none
  pub included : t.not_on ≡ []

abbrev Signalled : List ℕ → World → Type 0
Signalled ss w = (i : ℕ) → elem i ss ≡ true → w.semaphores i ≡ true

module _ (q : Queue) (c : WorkerThread) where
  -- A turn of the queue and one of the thread bring the task of the handle `r` to the outcome.
  abbrev pub Stepped : Task → List Task → ℕ → TaskHandle → Outcome → World → Type 0
  Stepped t ts free r o w =
      (free' : ℕ) × (w' : World) × ((n : ℕ)
        → alternate (suc n) (alone q c (t ∷ ts) free) w ≡ alternate n (alone q c ts free') w')
      × Told r o w'
      × Spares o free'
      × ((s : ℕ) → s ≢ r.state → w'.states s ≡ w.states s)
      × Signalled t.semaphores w'

  module _ (t : Task) (r : TaskHandle) (plain : IsPlain r t) (ts : List Task) (free : ℕ)
      (w : World) where
    -- The end of the task in the world `v`.
    settle-Ended :
        (p : Value) (u : World)
        → let w' = settle t.semaphores t.signal (set_state t.self_state (TaskState.panicked p) u) in
          Ended r (TaskState.panicked p) w' w'
    settle-Ended p u =
        let v = set_state t.self_state (TaskState.panicked p) u in
        let d = settle-Settled t.semaphores t.signal v in
        record {
          up = ap (λ i. ((settle t.semaphores t.signal v).signals i).ready) (sym plain.own) ∙ d.own;
          state = ap (λ f. f r.state) d.states ∙ ground (arith, plain.self_state);
          buffers = refl;
        }

    settle-Signalled : (v : World) → Signalled t.semaphores (settle t.semaphores t.signal v)
    settle-Signalled v i e =
        (settle-Settled t.semaphores t.signal v).semaphores i ∙ ground (arith, e)

    -- The task is sent, and its poll comes down to the call of a function.
    pub sent-Stepped :
        (o : Outcome) (u : World)
        → 0 < free
        → free < 2 ^ 32
        → IsRunnable t w
        → u.states ≡ w.states
        → Body.poll (context c.signal) t.inner (Signal.wake c.signal w)
          ≡ Body.call o r.inner r.state u
        → Stepped t ts free r o w
    unfolding Body.call Body.complete
    sent-Stepped (Outcome.returns x) u more few runnable same polls =
        let v = Body.complete r.inner r.state x u in
        let d = settle-Settled t.semaphores t.signal v in
        let (can, sound, uncancelled) = IsRunnable-can_execute t w runnable in
        (
          free,
          settle t.semaphores t.signal v,
          (λ n.
              alternate-ready q c t ts free w plain.anywhere plain.included more few can sound
                uncancelled v n polls),
          record {
            up =
                ap (λ i. ((settle t.semaphores t.signal v).signals i).ready) (sym plain.own)
                ∙ d.own;
            state = ap (λ f. f r.state) d.states ∙ ground arith;
            inner = ap (λ f. f r.inner) d.buffers ∙ ground arith;
          },
          (more, few),
          (λ s other. ap (λ f. f s) d.states ∙ ground (arith, ap (λ f. f s) same)),
          settle-Signalled v,
        )
    sent-Stepped (Outcome.panics p) u more few runnable same polls =
        let v = set_state t.self_state (TaskState.panicked p) u in
        let d = settle-Settled t.semaphores t.signal v in
        let (can, sound, uncancelled) = IsRunnable-can_execute t w runnable in
        (
          _,
          settle t.semaphores t.signal v,
          (λ n.
              alternate-unwinds q c t ts free w plain.anywhere plain.included more few can sound
                uncancelled u n p polls),
          (p, settle-Ended p u),
          tt,
          (λ s other.
              ap (λ f. f s) d.states ∙ ground (arith, plain.self_state, ap (λ f. f s) same)),
          settle-Signalled v,
        )

    -- The task is passed over, since its predecessor has panicked.
    passed-Stepped :
        (p x : Value)
        → w.states t.state ≡ TaskState.panicked p
        → all w.semaphores t.wait ≡ true
        → Stepped t ts free r (Outcome.panics x) w
    unfolding Task.can_execute Task.is_panicked State.eq
    passed-Stepped p x panics waits =
        let v = set_state t.self_state (TaskState.panicked unit) w in
        let d = settle-Settled t.semaphores t.signal v in
        (
          free,
          settle t.semaphores t.signal v,
          (λ n. alternate-passes q c t ts free w n (ground arith) (ground arith)),
          (unit, settle-Ended unit w),
          tt,
          (λ s other. ap (λ f. f s) d.states ∙ ground (arith, plain.self_state)),
          settle-Signalled v,
        )

  pub continuing-Stepped :
      (g : Value → Outcome) (prev r : TaskHandle) (t : Task) (ts : List Task) (free : ℕ)
      (o : Outcome) (w : World)
      → IsStep prev g r t
      → Told prev o w
      → Spares o free
      → w.states r.state ≡ TaskState.pending
      → all w.semaphores t.wait ≡ true
      → Stepped t ts free r (and_call o g) w
  continuing-Stepped g prev r t ts free o w step = by_outcome o
    where
      plain : IsPlain r t
      plain = record {
        self_state = step.self_state;
        own = step.own;
        anywhere = step.anywhere;
        included = step.included;
      }

      by_outcome :
          (o : Outcome)
          → Told prev o w
          → Spares o free
          → w.states r.state ≡ TaskState.pending
          → all w.semaphores t.wait ≡ true
          → Stepped t ts free r (and_call o g) w
      by_outcome (Outcome.returns x) held (more, few) pending waits =
          let v = Signal.wake c.signal w in
          let same = wake-SameData c.signal w in
          sent-Stepped t r plain ts free w (g x) (after_take prev v) more few
            (record {
              state = ap w.states step.state ∙ held.state;
              self_state = ap w.states step.self_state ∙ pending;
              waits = waits;
            })
            same.states
            (ap (λ i. Body.poll (context c.signal) i v) step.inner
              ∙ poll-continuing (context c.signal) g r.inner r.state prev x v (record {
                up = wake-keeps-ready c.signal prev.signal w held.up;
                state = ap (λ f. f prev.state) same.states ∙ held.state;
                inner = ap (λ f. f prev.inner) same.buffers ∙ held.inner;
              }))
      by_outcome (Outcome.panics x) (p, ended) _ pending waits =
          passed-Stepped t r plain ts free w p x (ap w.states step.state ∙ ended.state) waits

  -- The whole chain, from the outcome `o` of the task before it on, which has signalled `ss`.
  pub chain-Told :
      (prev : TaskHandle) (ss : List ℕ) (gs : List (Value → Outcome)) (ts : List Task) (lo hi : ℕ)
      (last : TaskHandle) (free : ℕ) (o : Outcome) (w : World)
      → Told prev o w
      → Spares o free
      → Signalled ss w
      → IsLinked prev ss gs ts lo hi last w
      → (free' : ℕ) × (w' : World) × (alternate (length gs) (alone q c ts free) w
          ≡ done (alone q c [] free') w')
        × Told last (and_call o (λ x. pipe x gs)) w'
  unfolding alternate
  chain-Told prev ss [] [] lo hi last free (Outcome.returns x) w held spares up e =
      (free, w, refl, rw (sym e) held)
  chain-Told prev ss [] [] lo hi last free (Outcome.panics x) w held spares up e =
      (free, w, refl, rw (sym e) held)
  chain-Told prev ss [] (t ∷ ts) lo hi last free o w held spares up k = absurd k
  chain-Told prev ss (g ∷ gs) [] lo hi last free o w held spares up k = absurd k
  chain-Told prev ss (g ∷ gs) (t ∷ ts) lo hi last free o w held spares up
        (r, step, waits, le, old, pending, k) =
      let (free₁, w₁, steps, held₁, spares₁, same, up₁) =
        continuing-Stepped g prev r t ts free o w step held spares pending
          (all-elem ss t.wait w up waits) in
      let k₁ =
        IsLinked-frame r t.semaphores gs ts (suc r.state) hi last w w₁
          (λ s lt. same s (omega arith)) k in
      let (free₂, w₂, runs, held₂) =
        chain-Told r t.semaphores gs ts (suc r.state) hi last free₁ (and_call o g) w₁ held₁ spares₁
          up₁ k₁ in
      (
        free₂,
        w₂,
        steps (length gs) ∙ runs,
        subst (λ p. Told last p w₂) (and_call_assoc o g (λ x. pipe x gs)) held₂,
      )
