-- ===== src/MvSync/Awake.antt =====
-- The main thread does not miss a task while it waits for its signal: `submit_to_main_thread` of src/lib.rs
-- and the wait in `WorkerThread::run` of src/queue.rs.
use mvsync.Base.{
  Bool, true, false, not, ◌&&◌, Option, none, some, List, [], ◌∷◌, String, ◌≡◌, refl, sym, subst,
  is_empty, if-cases, arith,
}
use mvsync.World.{World}
use mvsync.Exec.{done, blocks, IfDone, IfDone-and_then, IfDone-always, IfDone-eq}
use mvsync.Signal
use mvsync.Signal.Frame.{ready-wake}
use mvsync.Task.{Task}
use mvsync.Task.Body.{Script}
use mvsync.Worker
use mvsync.Worker.{WorkerThread}
use mvsync.Queue.{MvSyncSpecs}
use mvsync.MvSync.Main.{
  send_task, MvSync, Stage, labelled, main_thread_ended, main_thread_finished, register_main_thread,
  submit_to_main_thread, end_main_thread, step, advance,
}
use mvsync.MvSync.Registered.{Instance, Step, Reach, fresh}

-- If the thread waits while a task is in its channel, its signal is up.
abbrev pub Awake : Stage → Option WorkerThread → World → Type 0
Awake (Stage.waiting e) (some t) w = is_empty t.channel ≡ false → (w.signals t.signal).ready ≡ true
Awake _ _ w = Unit {0}

abbrev pub IsAwake : MvSync → World → Type 0
IsAwake m w = Awake m.stage m.worker w

-- The main thread's signal, if it is up in `v`, is up in `w`.
abbrev pub StaysUp : Option WorkerThread → World → World → Type 0
StaysUp none v w = Unit {0}
StaysUp (some t) v w = (v.signals t.signal).ready ≡ true → (w.signals t.signal).ready ≡ true

-- Where a step leaves room for what other threads do to the world meanwhile, none of them takes the wake of
-- the main thread's signal.
abbrev pub NoThief : {a b : Instance} → Step a b → Type 0
NoThief {a = a} {b = b} (Step.user e) = StaysUp a.sync.worker a.world b.world
NoThief (Step.registers init e r) = Unit {0}
NoThief (Step.submits t r) = Unit {0}
NoThief {a = a} {b = b} (Step.ends e) = StaysUp a.sync.worker a.world b.world
NoThief (Step.advances r) = Unit {0}

abbrev pub NoThieves : {a b : Instance} → Reach a b → Type 0
NoThieves Reach.here = Unit {0}
NoThieves (Reach.next r s) = NoThieves r × NoThief s

stays-Awake :
    (s : Stage) (o : Option WorkerThread) (v w : World) → StaysUp o v w → Awake s o v → Awake s o w
stays-Awake (Stage.waiting e) (some t) v w up h = λ some_task. up (h some_task)
stays-Awake (Stage.waiting e) none v w up h = tt
stays-Awake Stage.idle o v w up h = tt
stays-Awake (Stage.at_head e) o v w up h = tt
stays-Awake (Stage.receiving e) o v w up h = tt
stays-Awake (Stage.polling e) o v w up h = tt
stays-Awake (Stage.testing e) o v w up h = tt

-- The flag of the end changes nothing.
ended-Awake :
    (s : Stage) (t : WorkerThread) (w : World)
    → Awake s (some t) w
    → Awake s (some (Worker.end t)) w
unfolding Worker.end
ended-Awake (Stage.waiting e) t w h = h
ended-Awake Stage.idle t w h = tt
ended-Awake (Stage.at_head e) t w h = tt
ended-Awake (Stage.receiving e) t w h = tt
ended-Awake (Stage.polling e) t w h = tt
ended-Awake (Stage.testing e) t w h = tt

end-IsAwake : (m : MvSync) (w : World) → IsAwake m w → IsAwake (end_main_thread m) w
unfolding end_main_thread
end-IsAwake m w h =
    if-cases (λ x. IsAwake x w) (main_thread_ended m) _ _ (λ _. h) (λ _. at m.worker h)
  where
    at :
        (o : Option WorkerThread)
        → Awake m.stage o w
        → IsAwake (elim o [ none ↦ m | some t ↦ record m { worker = some (Worker.end t) } ]) w
    at none h' = h
    at (some t) h' = ended-Awake m.stage t w h'

-- A task that is sent wakes the signal.
sent-Awake :
    (s : Stage) (t : WorkerThread) (task : Task) (w : World)
    → let (t', w') = Worker.send task t w in Awake s (some t') w'
unfolding Worker.send
sent-Awake (Stage.waiting e) t task w = λ _. ready-wake t.signal w
sent-Awake Stage.idle t task w = tt
sent-Awake (Stage.at_head e) t task w = tt
sent-Awake (Stage.receiving e) t task w = tt
sent-Awake (Stage.polling e) t task w = tt
sent-Awake (Stage.testing e) t task w = tt

submit-IsAwake :
    (task : Task) (m : MvSync) (w : World)
    → IsAwake m w
    → IfDone IsAwake (submit_to_main_thread task m w)
unfolding submit_to_main_thread
submit-IsAwake task m w h =
    if-cases (IfDone IsAwake) (main_thread_ended m) _ _ (λ _. tt) (λ _. at m.worker h)
  where
    at :
        (o : Option WorkerThread)
        → Awake m.stage o w
        → let (m', w') = send_task task (record m { worker = o }) w in IsAwake m' w'
    at none h = h
    at (some t) h = sent-Awake m.stage t task w

register-IsAwake :
    (init : Script) (e : Bool) (m : MvSync) (w : World)
    → IfDone IsAwake (register_main_thread init e m w)
unfolding register_main_thread
register-IsAwake init e m w =
    if-cases (IfDone IsAwake) (main_thread_finished m) _ _ (λ _. tt) (λ _. tt)

-- The thread comes to its wait only with an empty channel.
abbrev Waits : Stage × WorkerThread → World → Type 0
Waits (s, t) w = Awake s (some t) w

step-Waits : (s : Stage) (t : WorkerThread) (w : World) → IfDone Waits (step s t w)
unfolding step Signal.wait
step-Waits Stage.idle t w = tt
step-Waits (Stage.at_head e) t w = at (Worker.receive e t)
  where
    at :
        (r : Worker.Turn)
        → IfDone Waits (elim r [
          | Worker.continues u ↦ done (Stage.polling e, u) w
          | Worker.ends u ↦ done (Stage.idle, record u { end = 2 }) w
          | Worker.parked u ↦ done (Stage.receiving e, u) w
        ])
    at (Worker.continues u) = tt
    at (Worker.ends u) = tt
    at (Worker.parked u) = tt
step-Waits (Stage.receiving e) t w = at t.channel
  where
    at :
        (ts : List Task)
        → IfDone Waits (elim ts [
          | [] ↦ blocks w
          | task ∷ rest ↦
              done
                (Stage.polling e, record t { channel = rest; futures = Worker.start task ∷ [] })
                w
        ])
    at [] = tt
    at (task ∷ rest) = tt
step-Waits (Stage.polling e) t w =
    IfDone-and_then (λ _ _. Unit {0}) Waits (Worker.poll_all t w) _
      (IfDone-always _ (Worker.poll_all t w) (λ _ _. tt)) (λ _ _ _. tt)
step-Waits (Stage.testing e) t w =
    if-cases (IfDone Waits) (not (is_empty t.futures) && is_empty t.channel) _ _
      (λ empty some_task. absurd (both (not (is_empty t.futures)) empty some_task)) (λ _. tt)
  where
    both : {c : Bool} (b : Bool) → (b && c) ≡ true → c ≡ false → ⊥
    both b empty some_task = ground arith
step-Waits (Stage.waiting e) t w =
    IfDone-and_then (λ _ _. Unit {0}) Waits (Signal.wait t.signal w) _
      (IfDone-always _ (Signal.wait t.signal w) (λ _ _. tt)) (λ _ _ _. tt)

advance-IsAwake : (m : MvSync) (w : World) → IfDone IsAwake (advance m w)
unfolding advance
advance-IsAwake m w = at m.worker
  where
    at : (o : Option WorkerThread) → IfDone IsAwake (advance (record m { worker = o }) w)
    at none = tt
    at (some t) =
        IfDone-and_then Waits IsAwake (step m.stage t w) _ (step-Waits m.stage t w) (λ _ _ k. k)

Step-IsAwake :
    (a b : Instance) (s : Step a b) → NoThief s → IsAwake a.sync a.world → IsAwake b.sync b.world
Step-IsAwake a b (Step.user e) up h =
    subst (λ m. IsAwake m b.world) (sym e)
      (stays-Awake a.sync.stage a.sync.worker a.world b.world up h)
Step-IsAwake a b (Step.registers init e r) up h =
    IfDone-eq IsAwake (register-IsAwake init e a.sync a.world) r
Step-IsAwake a b (Step.submits t r) up h = IfDone-eq IsAwake (submit-IsAwake t a.sync a.world h) r
Step-IsAwake a b (Step.ends e) up h =
    subst (λ m. IsAwake m b.world) (sym e)
      (end-IsAwake a.sync b.world (stays-Awake a.sync.stage a.sync.worker a.world b.world up h))
Step-IsAwake a b (Step.advances r) up h = IfDone-eq IsAwake (advance-IsAwake a.sync a.world) r

Reach-IsAwake :
    (a b : Instance) (r : Reach a b) → NoThieves r → IsAwake a.sync a.world → IsAwake b.sync b.world
Reach-IsAwake a b Reach.here up h = h
Reach-IsAwake a c (Reach.next {b = b} r s) (ups, up) h =
    Step-IsAwake b c s up (Reach-IsAwake a b r ups h)

-- In every state that callers, the thread's loop and user code bring about from a new instance, if no other
-- thread takes the wake of the main thread's signal: a main thread that waits for its signal while a task is
-- in its channel is not parked, and its next step is back at the head of its loop.
pub Reach-fresh-advance :
    (specs : MvSyncSpecs) (labels : List String) (w : World) (b : Instance) (e : Bool)
    (t : WorkerThread) (r : Reach (fresh specs labels w) b)
    → NoThieves r
    → b.sync.stage ≡ Stage.waiting e
    → b.sync.worker ≡ some t
    → is_empty t.channel ≡ false
    → advance b.sync b.world
      ≡ done
          (record b.sync { worker = some t; stage = Stage.at_head e })
          (Signal.set_ready t.signal false b.world)
unfolding labelled advance step Signal.wait
Reach-fresh-advance specs labels w b e t r up at its some_task =
    let awake = Reach-IsAwake (fresh specs labels w) b r up tt in
    let ready : (b.world.signals t.signal).ready ≡ true =
      subst (λ s. Awake s (some t) b.world) at (subst (λ o. Awake b.sync.stage o b.world) its awake)
        some_task in
    rw its (rw at (rw ready refl))
