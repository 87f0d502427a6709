-- ===== src/Worker/Stalled.antt =====
-- A continuation on a thread of src/queue.rs, whose predecessor's signal someone else has waited for.
use mvsync.Base.{ℕ, Bool, true, false, List, [], ◌∷◌, ◌≡◌, refl, ap, subst, ◌∙◌, arith}
use mvsync.World.{World, Value, TaskState, context, set_state}
use mvsync.Exec.{done, blocks}
use mvsync.Signal
use mvsync.Task
use mvsync.Task.{Task}
use mvsync.Task.State
use mvsync.Task.Body
use mvsync.Task.Body.{Outcome}
use mvsync.Task.Controller
use mvsync.Task.Handle
use mvsync.Task.Handle.{TaskHandle}
use mvsync.Run.Settle.{settle-Settled}
use mvsync.Run.Execute.{Holds, after_take, poll-continuing}
use mvsync.Worker
use mvsync.Worker.{WorkerThread}
use mvsync.Worker.Single.{given, turn-ready, turn-unwinds}
use mvsync.Worker.Grows.{IsDone, set_state-Grows, complete-Grows}

-- A turn of the thread ends the task with the state `s` and leaves the tasks `ts` in the channel.
abbrev pub Finishes : Bool → WorkerThread → World → ℕ → List Task → Type 0
Finishes e c w s ts =
    (u : WorkerThread) × (v : World) × (Worker.turn e c w ≡ done (Worker.continues u) v)
    × (u.channel ≡ ts)
    × IsDone v s

module _ (g : Value → Outcome) (b s : ℕ) (signal : ℕ × ℕ) (h : TaskHandle) (t : WorkerThread)
    (e : Bool) (ts : List Task) (w : World) where
  abbrev continuation : Task
  continuation = Task.from_continuation g b s signal h

  abbrev stalled : WorkerThread
  stalled = given (continuation ∷ ts) t

  turn-Finishes : (x : Value) → Holds h x w → Finishes e stalled w s ts
  unfolding Task.from_continuation Task.new Body.call State.eq
  turn-Finishes x held = at (g x) refl
    where
      polls :
          (o : Outcome)
          → g x ≡ o
          → Body.poll (context t.signal) (Body.continuing g b s h) w
            ≡ Body.call o b s (after_take h w)
      polls o ends =
          poll-continuing (context t.signal) g b s h x w held
          ∙ ap (λ o. Body.call o b s (after_take h w)) ends

      at : (o : Outcome) → g x ≡ o → Finishes e stalled w s ts
      at (Outcome.returns y) ends =
          let u = Body.complete b s y (after_take h w) in
          (
            _,
            _,
            turn-ready t continuation ts w u e (polls (Outcome.returns y) ends),
            refl,
            ap (λ f. State.eq (f s) TaskState.pending) (settle-Settled [] signal u).states
                ∙ (complete-Grows b s y (after_take h w)).1,
          )
      at (Outcome.panics p) ends =
          let u = set_state s (TaskState.panicked p) (after_take h w) in
          (
            _,
            _,
            turn-unwinds t continuation ts w (after_take h w) e p (polls (Outcome.panics p) ends),
            refl,
            ap (λ f. State.eq (f s) TaskState.pending) (settle-Settled [] signal u).states
                ∙ (set_state-Grows s (TaskState.panicked p) (after_take h w) refl).1,
          )

-- The predecessor's signal is down: the thread parks inside the poll.
turn-parks :
    (g : Value → Outcome) (b s : ℕ) (signal : ℕ × ℕ) (h : TaskHandle) (t : WorkerThread) (e : Bool)
    (ts : List Task) (w : World)
    → (w.signals h.signal).ready ≡ false
    → Worker.turn e (stalled g b s signal h t e ts w) w ≡ blocks w
unfolding Worker.turn Worker.receive Worker.receive_first Worker.poll_all Worker.retain
    Worker.poll_one Worker.start Task.from_continuation Task.new Body.poll Body.continue Handle.wait
    Signal.wait
turn-parks g b s signal h t true ts w down = rw down refl
turn-parks g b s signal h t false ts w down = rw down refl

-- A task has returned, and a continuation of it stands first in the channel of a thread that nobody has ended
-- and that has no futures: the next turn of the thread ends the continuation, and goes on to the tasks behind
-- it. But if a controller of the first task waits for it before, that wait passes and the continuation can be
-- executed still, yet the turn parks inside its poll, since the flag is taken: neither the continuation nor a
-- task behind it is run.
pub turn-stalls :
    (g : Value → Outcome) (b s : ℕ) (signal : ℕ × ℕ) (h : TaskHandle) (x : Value) (t : WorkerThread)
    (e : Bool) (ts : List Task) (w : World)
    → Holds h x w
    → t.channel ≡ Task.from_continuation g b s signal h ∷ ts
    → t.futures ≡ []
    → t.end ≡ 0
    → Finishes e t w s ts
      × ((w₁ : World) × (Controller.wait (Handle.make_controller h) w ≡ done tt w₁)
          × (Task.can_execute (Task.from_continuation g b s signal h) w₁ ≡ true)
          × (Worker.turn e t w₁ ≡ blocks w₁))
unfolding Controller.wait Handle.make_controller Signal.wait Task.can_execute Task.from_continuation
    Task.new State.eq
turn-stalls g b s signal h x t e ts w held waiting idle live =
    let w₁ = Signal.set_ready h.signal false w in
    let same : stalled g b s signal h t e ts w ≡ t = rw waiting (rw idle (rw live refl)) in
    (
      subst (λ c. Finishes e c w s ts) same (turn-Finishes g b s signal h t e ts w x held),
      (
        w₁,
        rw (held.up) refl,
        rw (held.state) refl,
        subst (λ u. Worker.turn e u w₁ ≡ blocks w₁) same
            (turn-parks g b s signal h t e ts w₁ (ground arith)),
      ),
    )
