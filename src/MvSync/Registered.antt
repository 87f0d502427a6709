-- ===== src/MvSync/Registered.antt =====
-- The main thread as a step relation: what callers do to it, its own loop, and user code in between.
use mvsync.Base.{
  Bool, true, false, not, ◌&&◌, ◌||◌, Option, none, some, List, [], ◌∷◌, String, ◌≡◌, refl, sym,
  subst, ap, ◌∙◌, ltb, if-cases, is_empty, arith,
}
use mvsync.World.{World}
use mvsync.Exec.{done, blocks, IfDone, IfDone-and_then, IfDone-always, IfDone-eq}
use mvsync.Exec.Guarded.{Guarded, Guarded-when}
use mvsync.Signal
use mvsync.Task.{Task}
use mvsync.Task.Body.{Script}
use mvsync.Worker
use mvsync.Worker.{WorkerThread}
use mvsync.Queue.{MvSyncSpecs}
use mvsync.MvSync.Main.{
  send_task, has_main_thread, MvSync, Stage, labelled, main_thread_ended, main_thread_finished,
  register_main_thread, submit_to_main_thread, end_main_thread, step, advance,
}

pub record Instance : Type 0 where
  pub sync : MvSync
  pub world : World

pub data Step (a b : Instance) : Type 0 where
  user : b.sync ≡ a.sync → Step a b
  registers :
      (init : Script) (end_when_done : Bool)
      → register_main_thread init end_when_done a.sync a.world ≡ done b.sync b.world
      → Step a b
  submits : (t : Task) → submit_to_main_thread t a.sync a.world ≡ done b.sync b.world → Step a b
  ends : b.sync ≡ end_main_thread a.sync → Step a b
  advances : advance a.sync a.world ≡ done b.sync b.world → Step a b

pub data Reach (a : Instance) : Instance → Type 0 where
  here : Reach a a
  next : {b c : Instance} → Reach a b → Step b c → Reach a c

abbrev pub is_idle : Stage → Bool
is_idle Stage.idle = true
is_idle _ = false

-- `main_thread_finished` tells whether no thread is in the loop.
abbrev Serves : MvSync → Type 0
Serves m = main_thread_finished m ≡ is_idle m.stage

end-poll_all : (t : WorkerThread) (w : World) → IfDone (λ u _. u.end ≡ t.end) (Worker.poll_all t w)
unfolding Worker.poll_all
end-poll_all t w =
    IfDone-and_then (λ _ _. Unit {0}) (λ u _. u.end ≡ t.end)
      (Worker.retain t.signal t.futures t.free_workers w) _
      (IfDone-always _ (Worker.retain t.signal t.futures t.free_workers w) (λ _ _. tt))
      (λ _ _ _. refl)

abbrev KeepsEnd : WorkerThread → Worker.Turn → Type 0
KeepsEnd t (Worker.continues u) = u.end ≡ t.end
KeepsEnd t (Worker.parked u) = u.end ≡ t.end
KeepsEnd t (Worker.ends u) = Unit

end-receive : (e : Bool) (t : WorkerThread) → KeepsEnd t (Worker.receive e t)
unfolding Worker.receive Worker.receive_first Worker.receive_none Worker.receive_all
end-receive e t =
    if-cases (KeepsEnd t) (is_empty t.futures) _ _
      (λ _.
        if-cases (KeepsEnd t) (ltb 0 t.end || (e && is_empty t.channel)) _ _ (λ _. tt)
          (λ _. first t.channel))
      (λ _. refl)
  where
    first :
        (ts : List Task)
        → KeepsEnd t (elim ts [
          | [] ↦ Worker.receive_none t
          | task ∷ rest ↦
              Worker.continues (record t { channel = rest; futures = Worker.start task ∷ [] })
        ])
    first [] = if-cases (KeepsEnd t) t.connected _ _ (λ _. refl) (λ _. tt)
    first (task ∷ rest) = refl

-- A step of the loop keeps the end flag, or leaves the loop with the flag at 2.
abbrev Keeps : Stage × WorkerThread → World → Type 0
Keeps (s, u) _ = ltb 1 u.end ≡ is_idle s

step-Keeps :
    (s : Stage) (t : WorkerThread) (w : World) → ltb 1 t.end ≡ is_idle s → IfDone Keeps (step s t w)
unfolding step Signal.wait
step-Keeps Stage.idle t w h = tt
step-Keeps (Stage.at_head e) t w h = at (Worker.receive e t) (end-receive e t)
  where
    at :
        (r : Worker.Turn)
        → KeepsEnd t r
        → IfDone Keeps (elim r [
          | Worker.continues u ↦ done (Stage.polling e, u) w
          | Worker.ends u ↦ done (Stage.idle, record u { end = 2 }) w
          | Worker.parked u ↦ done (Stage.receiving e, u) w
        ])
    at (Worker.continues u) k = ap (ltb 1) k ∙ h
    at (Worker.ends u) k = refl
    at (Worker.parked u) k = ap (ltb 1) k ∙ h
step-Keeps (Stage.receiving e) t w h = at t.channel
  where
    at :
        (ts : List Task)
        → IfDone Keeps (elim ts [
          | [] ↦ blocks w
          | task ∷ rest ↦
              done
                (Stage.polling e, record t { channel = rest; futures = Worker.start task ∷ [] })
                w
        ])
    at [] = tt
    at (task ∷ rest) = h
step-Keeps (Stage.polling e) t w h =
    IfDone-and_then (λ u _. u.end ≡ t.end) Keeps (Worker.poll_all t w) _ (end-poll_all t w)
      (λ u _ k. ap (ltb 1) k ∙ h)
step-Keeps (Stage.testing e) t w h =
    if-cases (IfDone Keeps) (not (is_empty t.futures) && is_empty t.channel) _ _ (λ _. h) (λ _. h)
step-Keeps (Stage.waiting e) t w h =
    IfDone-and_then (λ _ _. Unit {0}) Keeps (Signal.wait t.signal w) _
      (IfDone-always _ (Signal.wait t.signal w) (λ _ _. tt)) (λ _ _ _. h)

advance-Serves : (m : MvSync) (w : World) → Serves m → IfDone (λ m' _. Serves m') (advance m w)
unfolding advance main_thread_finished Worker.finished
advance-Serves m w h = at m.worker h
  where
    at :
        (o : Option WorkerThread)
        → main_thread_finished (record m { worker = o }) ≡ is_idle m.stage
        → IfDone (λ m' _. Serves m') (advance (record m { worker = o }) w)
    at none h = tt
    at (some t) h =
        IfDone-and_then Keeps (λ m' _. Serves m') (step m.stage t w) _ (step-Keeps m.stage t w h)
          (λ _ _ k. k)

register-Serves :
    (init : Script) (e : Bool) (m : MvSync) (w : World)
    → IfDone (λ m' _. Serves m') (register_main_thread init e m w)
unfolding register_main_thread main_thread_finished Worker.finished Worker.send
register-Serves init e m w =
    if-cases (IfDone (λ m' _. Serves m')) (main_thread_finished m) _ _ (λ _. refl) (λ _. tt)

submit-Serves :
    (task : Task) (m : MvSync) (w : World)
    → Serves m
    → IfDone (λ m' _. Serves m') (submit_to_main_thread task m w)
unfolding submit_to_main_thread main_thread_finished Worker.finished Worker.send
submit-Serves task m w h =
    if-cases (IfDone (λ m' _. Serves m')) (main_thread_ended m) _ _ (λ _. tt) (λ _. at m.worker h)
  where
    at :
        (o : Option WorkerThread)
        → main_thread_finished (record m { worker = o }) ≡ is_idle m.stage
        → Serves (send_task task (record m { worker = o }) w).0
    at none h = h
    at (some t) h = h

end-Serves : (m : MvSync) → Serves m → Serves (end_main_thread m)
unfolding end_main_thread main_thread_ended main_thread_finished Worker.finished Worker.ended
    Worker.end
end-Serves m h = at m.worker h
  where
    at :
        (o : Option WorkerThread)
        → main_thread_finished (record m { worker = o }) ≡ is_idle m.stage
        → Serves (end_main_thread (record m { worker = o }))
    at none h = h
    at (some t) h = if-cases Serves (ltb 0 t.end) _ _ (λ _. h) (λ none_yet. ground arith)

Step-Serves : (a b : Instance) → Step a b → Serves a.sync → Serves b.sync
Step-Serves a b (Step.user e) h = subst Serves (sym e) h
Step-Serves a b (Step.registers init e r) h =
    IfDone-eq (λ m _. Serves m) (register-Serves init e a.sync a.world) r
Step-Serves a b (Step.submits t r) h =
    IfDone-eq (λ m _. Serves m) (submit-Serves t a.sync a.world h) r
Step-Serves a b (Step.ends e) h = subst Serves (sym e) (end-Serves a.sync h)
Step-Serves a b (Step.advances r) h =
    IfDone-eq (λ m _. Serves m) (advance-Serves a.sync a.world h) r

Reach-Serves : (a b : Instance) → Reach a b → Serves a.sync → Serves b.sync
Reach-Serves a b Reach.here h = h
Reach-Serves a c (Reach.next {b = b} r s) h = Step-Serves b c s (Reach-Serves a b r h)

abbrev pub fresh : MvSyncSpecs → List String → World → Instance
fresh specs labels w = let (m, w') = labelled specs labels w in record { sync = m; world = w' }

-- In every state that callers, the thread's loop and user code bring about from a new instance, a
-- registration succeeds exactly when no thread is in the loop, and panics otherwise; the thread
-- that it registers is then at the head of its loop.
pub Reach-fresh-registers :
    (specs : MvSyncSpecs) (labels : List String) (w : World) (b : Instance) (init : Script)
    (e : Bool)
    → Reach (fresh specs labels w) b
    → Guarded
        (λ m _. m.stage ≡ Stage.at_head e)
        (is_idle b.sync.stage)
        (register_main_thread init e b.sync b.world)
unfolding labelled main_thread_finished register_main_thread Worker.send
Reach-fresh-registers specs labels w b init e r =
    subst
      (λ c.
        Guarded (λ m _. m.stage ≡ Stage.at_head e) c (register_main_thread init e b.sync b.world))
      (Reach-Serves _ b r refl)
      (Guarded-when (λ m _. m.stage ≡ Stage.at_head e) (main_thread_finished b.sync) _
        has_main_thread b.world refl)
