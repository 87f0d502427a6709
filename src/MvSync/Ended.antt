-- ===== src/MvSync/Ended.antt =====
-- Tasks that are submitted to the main thread shortly before it is ended.
use mvsync.Base.{
  ℕ, ◌<◌, Bool, true, false, some, [], ◌∷◌, ◌++◌, ◌≡◌, refl, sym, subst, ap, ◌∙◌, arith,
}
use mvsync.World.{World}
use mvsync.Exec.{done, blocks, IfDone, IfDone-eq}
use mvsync.Signal
use mvsync.Task.{Task}
use mvsync.Task.Body
use mvsync.Task.Body.{Outcome, Script}
use mvsync.Task
use mvsync.Task.Handle
use mvsync.Task.Handle.{TaskHandle}
use mvsync.Worker
use mvsync.Worker.{WorkerThread}
use mvsync.MvSync.{create_task, create_async_task}
use mvsync.MvSync.Main.{
  MvSync, Stage, main_worker, main_thread_ended, main_thread_finished, register_main_thread,
  submit_to_main_thread, end_main_thread, step, advance,
}
use mvsync.MvSync.Registered.{Instance, Step, Reach}

-- The handle's flag is down.
abbrev IsDown : TaskHandle → World → Type 0
IsDown h w = (w.signals h.signal).ready ≡ false

-- No main thread is registered in the run, and what user code does leaves the handle's flag down.
abbrev pub IsLeft : {a b : Instance} → TaskHandle → Reach a b → Type 0
IsLeft h Reach.here = Unit
IsLeft h (Reach.next {c = c} r (Step.user _)) = IsLeft h r × IsDown h c.world
IsLeft h (Reach.next r (Step.registers _ _ _)) = ⊥
IsLeft h (Reach.next r (Step.submits _ _)) = IsLeft h r
IsLeft h (Reach.next {c = c} r (Step.ends _)) = IsLeft h r × IsDown h c.world
IsLeft h (Reach.next r (Step.advances _)) = IsLeft h r

-- The thread has left its loop, with the task in its channel.
abbrev pub left_behind : MvSync → WorkerThread → Task → MvSync
left_behind m t task = record m {
  worker = some (record t {
    channel = t.channel ++ task ∷ [];
    free_workers = Worker.fetch_sub t.free_workers;
    end = 2;
  });
  stage = Stage.idle;
}

send-IsDown :
    (q : ℕ) (f : Outcome) (t : WorkerThread) (w : World)
    → t.signal < w.next
    → (w.signals t.signal).wakers ≡ []
    → let ((task, h), w₀) = create_task q f w in IsDown h (Worker.send task t w₀).1
unfolding create_task Handle.new_handle Handle.new_buffer Task.from_function Worker.send Signal.wake
send-IsDown q f t w old quiet =
    let ((task, h), w₀) = create_task q f w in
    let calm : (w₀.signals t.signal).wakers ≡ [] = ground arith in rw calm (ground arith)

wait-IsDown : (h : TaskHandle) (w : World) → IsDown h w → Handle.wait h w ≡ blocks w
unfolding Handle.wait Signal.wait
wait-IsDown h w down = rw down refl

module _ (h : TaskHandle) (m : MvSync) (t : WorkerThread) (task : Task) where
  abbrev Never : MvSync → World → Type 0
  Never _ _ = ⊥

  IsLeft-stays :
      (a b : Instance) (r : Reach a b)
      → a.sync ≡ left_behind m t task
      → IsDown h a.world
      → IsLeft h r
      → (b.sync ≡ left_behind m t task) × IsDown h b.world
  unfolding submit_to_main_thread end_main_thread main_thread_ended advance step Worker.ended
  IsLeft-stays a b Reach.here e down l = (e, down)
  IsLeft-stays a c (Reach.next {b = b} r (Step.user same)) e down (l, still) =
      (same ∙ (IsLeft-stays a b r e down l).0, still)
  IsLeft-stays a c (Reach.next r (Step.registers _ _ _)) e down l = absurd l
  IsLeft-stays a c (Reach.next {b = b} r (Step.submits u runs)) e down l = absurd (
      IfDone-eq Never {r = submit_to_main_thread u b.sync b.world}
        (subst (λ x. IfDone Never (submit_to_main_thread u x b.world))
          (sym (IsLeft-stays a b r e down l).0) tt)
        runs)
  IsLeft-stays a c (Reach.next {b = b} r (Step.ends same)) e down (l, still) =
      (same ∙ ap end_main_thread (IsLeft-stays a b r e down l).0, still)
  IsLeft-stays a c (Reach.next {b = b} r (Step.advances runs)) e down l = absurd (
      IfDone-eq Never {r = advance b.sync b.world}
        (subst (λ x. IfDone Never (advance x b.world)) (sym (IsLeft-stays a b r e down l).0) tt)
        runs)

  -- A new main thread starts with its own first task alone.
  register-left_behind :
      (init : Script) (e : Bool) (w : World)
      → (m' : MvSync) × (w' : World) × (u : WorkerThread) × (first : Task) × (x y : ℕ)
        × (register_main_thread init e (left_behind m t task) w ≡ done m' w')
        × (m'.worker ≡ some u)
        × (u.channel ≡ first ∷ [])
        × (u.futures ≡ [])
        × (first.inner ≡ Body.running init 0 x y)
  unfolding register_main_thread main_thread_finished Worker.finished create_async_task Worker.send
      Handle.new_handle Handle.new_buffer Task.from_async
  register-left_behind init e w =
      let (s, w₁) = Signal.new w in
      let ((first, _), w₂) = create_async_task m.signal init w₁ in
      let (u, w₃) = Worker.send first (main_worker s) w₂ in
      (
        record m { worker = some u; stage = Stage.at_head e },
        w₃,
        u,
        first,
        _,
        _,
        refl,
        refl,
        refl,
        refl,
        refl,
      )

-- A task that is submitted to a main thread at the head of its loop with no futures, just before the
-- thread is ended, is left behind: the thread leaves its loop at its next step and counts as finished, with
-- the task in its channel. In every later state up to which no main thread was registered and user code did
-- not raise the handle's flag, this is still so, and waiting for the handle blocks. A main thread that is
-- registered then has its own first task alone in its channel, and no futures.
pub submit-end_main_thread :
    (m : MvSync) (t : WorkerThread) (e : Bool) (f : Outcome) (w : World)
    → m.worker ≡ some t
    → m.stage ≡ Stage.at_head e
    → t.futures ≡ []
    → t.end ≡ 0
    → t.signal < w.next
    → (w.signals t.signal).wakers ≡ []
    → let ((task, h), w₀) = create_task m.signal f w in
      let w₁ = (Worker.send task t w₀).1 in
      (b : Instance)
      → (r : Reach (record { sync = left_behind m t task; world = w₁ }) b) → IsLeft h r
      → (m₁ : MvSync) × (submit_to_main_thread task m w₀ ≡ done m₁ w₁)
        × (advance (end_main_thread m₁) w₁ ≡ done (left_behind m t task) w₁)
        × (main_thread_finished (left_behind m t task) ≡ true)
        × (b.sync ≡ left_behind m t task)
        × (Handle.wait h b.world ≡ blocks b.world)
        × ((init : Script) (ends : Bool)
            → (m' : MvSync) × (w' : World) × (u : WorkerThread) × (first : Task) × (x y : ℕ)
              × (register_main_thread init ends b.sync b.world ≡ done m' w')
              × (m'.worker ≡ some u)
              × (u.channel ≡ first ∷ [])
              × (u.futures ≡ [])
              × (first.inner ≡ Body.running init 0 x y))
unfolding submit_to_main_thread main_thread_ended Worker.ended Worker.end end_main_thread advance
    step Worker.receive Worker.receive_first Worker.send main_thread_finished Worker.finished
submit-end_main_thread m t e f w registered head none_running live old quiet b r left =
    let ((task, h), w₀) = create_task m.signal f w in
    let (t', w₁) = Worker.send task t w₀ in
    let (same, down) =
      IsLeft-stays h m t task _ b r refl (send-IsDown m.signal f t w old quiet) left in
    (
      record m { worker = some t' },
      rw registered (rw live refl),
      rw live (rw head (rw none_running refl)),
      refl,
      same,
      wait-IsDown h b.world down,
      λ init ends. rw same (register-left_behind h m t task init ends b.world),
    )
