-- ===== src/MvSync/Stuck.antt =====
-- `end_main_thread` on a main thread that has nothing to do.
use mvsync.Base.{ℕ, ◌+◌, Bool, true, false, some, [], ◌∷◌, ◌≡◌, refl, sym, subst, ap, ◌∙◌}
use mvsync.World.{World, Value}
use mvsync.Exec.{done, IfDone, IfDone-eq, Unwinds}
use mvsync.Signal
use mvsync.Task
use mvsync.Task.Handle
use mvsync.Task.{Task}
use mvsync.Task.Body
use mvsync.Task.Body.{Script, Reply}
use mvsync.Worker
use mvsync.Worker.{WorkerThread}
use mvsync.MvSync.{create_async_task}
use mvsync.MvSync.Main.{
  main_worker, MvSync, Stage, main_thread_ended, main_thread_finished, register_main_thread,
  submit_to_main_thread, end_main_thread, step, advance, advance_times,
}
use mvsync.MvSync.Registered.{Instance, Step, Reach}

-- The thread is inside `recv`, its channel is empty, and its end flag was set.
abbrev stuck : MvSync → Bool → WorkerThread → MvSync
stuck m e t = record m {
  worker = some (record t { channel = []; end = 1 });
  stage = Stage.receiving e;
}

module _ (m : MvSync) (e : Bool) (t : WorkerThread) where
  abbrev Stays : MvSync → World → Type 0
  Stays x _ = x ≡ stuck m e t

  register-stuck :
      (init : Script) (f : Bool) (w : World) → Unwinds (register_main_thread init f (stuck m e t) w)
  unfolding register_main_thread main_thread_finished Worker.finished
  register-stuck init f w = tt

  submit-stuck : (task : Task) (w : World) → Unwinds (submit_to_main_thread task (stuck m e t) w)
  unfolding submit_to_main_thread main_thread_ended Worker.ended
  submit-stuck task w = tt

  finished-stuck : main_thread_finished (stuck m e t) ≡ false
  unfolding main_thread_finished Worker.finished
  finished-stuck = refl

  Step-stuck : (a b : Instance) → Step a b → a.sync ≡ stuck m e t → b.sync ≡ stuck m e t
  unfolding register_main_thread submit_to_main_thread end_main_thread main_thread_finished
      main_thread_ended advance step Worker.finished Worker.ended
  Step-stuck a b (Step.user r) h = r ∙ h
  Step-stuck a b (Step.registers init f r) h =
      IfDone-eq Stays {r = register_main_thread init f a.sync a.world}
        (subst (λ x. IfDone Stays (register_main_thread init f x a.world)) (sym h) tt) r
  Step-stuck a b (Step.submits task r) h =
      IfDone-eq Stays {r = submit_to_main_thread task a.sync a.world}
        (subst (λ x. IfDone Stays (submit_to_main_thread task x a.world)) (sym h) tt) r
  Step-stuck a b (Step.ends r) h = r ∙ ap end_main_thread h
  Step-stuck a b (Step.advances r) h =
      IfDone-eq Stays {r = advance a.sync a.world}
        (subst (λ x. IfDone Stays (advance x a.world)) (sym h) tt) r

  Reach-stuck : (a b : Instance) → Reach a b → a.sync ≡ stuck m e t → b.sync ≡ stuck m e t
  Reach-stuck a b Reach.here h = h
  Reach-stuck a c (Reach.next {b = b} r s) h = Step-stuck b c s (Reach-stuck a b r h)

-- What is true of a main thread that can neither be used nor be replaced.
pub record IsLost (m : MvSync) : Type 0 where
  pub unfinished : main_thread_finished m ≡ false
  pub registers : (init : Script) (e : Bool) (w : World) → Unwinds (register_main_thread init e m w)
  pub submits : (task : Task) (w : World) → Unwinds (submit_to_main_thread task m w)

stuck-IsLost : (m : MvSync) (e : Bool) (t : WorkerThread) → IsLost (stuck m e t)
stuck-IsLost m e t = record {
  unfinished = finished-stuck m e t;
  registers = register-stuck m e t;
  submits = submit-stuck m e t;
}

module _ (m : MvSync) (t : WorkerThread) (task : Task) (init : Script) (b s : ℕ) (v : Value)
    (w : World) where
  -- The first task of a registered thread, and the thread with it in its channel.
  abbrev first : Task
  first = record task { inner = Body.running init 0 b s }

  abbrev loaded : MvSync
  loaded = record m {
    worker = some (record t { channel = first ∷ []; connected = true; futures = []; end = 0 });
    stage = Stage.at_head false;
  }

  abbrev served : WorkerThread
  served = record t {
    channel = [];
    connected = true;
    futures = [];
    end = 0;
    free_workers = Worker.fetch_add t.free_workers;
  }

  abbrev drained : MvSync
  drained = record m { worker = some served; stage = Stage.receiving false }

  abbrev drained_world : World
  drained_world = Worker.settled (Worker.start first) (Body.complete b s v w)

  advance_times-loaded :
      init 0 ≡ Reply.returns v → advance_times 4 loaded w ≡ done drained drained_world
  unfolding advance_times advance step Worker.receive Worker.receive_first Worker.poll_all
      Worker.retain Worker.poll_one Worker.judge Worker.start Body.poll Body.resume
  advance_times-loaded returns = rw returns refl

-- A main thread whose `init` future returns at its first poll, with `end_when_done` false, comes to wait
-- for tasks in four steps. If `end_main_thread` is called then, whatever is done afterwards it never counts
-- as finished, and every registration and submission panics.
pub end_main_thread-IsLost :
    (m : MvSync) (init : Script) (v : Value) (w : World)
    → main_thread_finished m ≡ true
    → init 0 ≡ Reply.returns v
    → (m₁ m₂ : MvSync) × (w₁ w₂ : World) × (register_main_thread init false m w ≡ done m₁ w₁)
      × (advance_times 4 m₁ w₁ ≡ done m₂ w₂)
      × ((b : Instance)
          → Reach (record { sync = end_main_thread m₂; world = w₂ }) b
          → IsLost b.sync)
unfolding register_main_thread create_async_task Worker.send Handle.new_handle Handle.new_buffer
    Task.from_async end_main_thread main_thread_ended Worker.ended Worker.end
end_main_thread-IsLost m init v w free returns =
    let (s, w₁) = Signal.new w in
    let ((task, _), w₂) = create_async_task m.signal init w₁ in
    let (t, w₃) = Worker.send task (main_worker s) w₂ in
    (
      loaded m t task init w₁.next (w₁.next + 1) v w₃,
      drained m t task init w₁.next (w₁.next + 1) v w₃,
      w₃,
      drained_world m t task init w₁.next (w₁.next + 1) v w₃,
      rw free refl,
      advance_times-loaded m t task init w₁.next (w₁.next + 1) v w₃ returns,
      λ b r.
          subst IsLost
            (sym (Reach-stuck m false (served m t task init w₁.next (w₁.next + 1) v w₃) _ b r refl))
            (stuck-IsLost m false (served m t task init w₁.next (w₁.next + 1) v w₃)),
    )
