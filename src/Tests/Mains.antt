-- ===== src/Tests/Mains.antt =====
-- The theorems on the main thread and on the specifications at concrete inputs.
use mvsync.Base.{ℕ, Bool, true, false, none, some, [], ◌∷◌, ◌≡◌, refl, arith}
use mvsync.World.{World, num}
use mvsync.Exec.{done, blocks, Exec}
use mvsync.Signal
use mvsync.Task
use mvsync.Task.{Task}
use mvsync.Task.Body
use mvsync.Exec.Guarded.{Guarded}
use mvsync.Task.Body.{Outcome, Reply, Script}
use mvsync.Task.Handle
use mvsync.Task.Handle.{TaskHandle, TaskResult}
use mvsync.Worker
use mvsync.Worker.{WorkerThread}
use mvsync.MvSync.Polled.{run-create_async_task_threaded}
use mvsync.MvSync.{create_task, create_async_task}
use mvsync.MvSync.Main.{
  MvSync, Stage, register_main_thread, submit_to_main_thread, end_main_thread, advance,
  advance_times, main_thread_ended, main_thread_finished, main_worker,
}
use mvsync.MvSync.Registered.{Instance, Step, Reach, fresh, is_idle, Reach-fresh-registers}
use mvsync.MvSync.Stuck.{IsLost, end_main_thread-IsLost}
use mvsync.MvSync.Ended.{IsLeft, left_behind, submit-end_main_thread}
use mvsync.Tests.Data.{thread, world, specs, late_seven, inline_queue}

abbrev at_once : Script
at_once n = Reply.returns (num 3)

abbrev plain : MvSync
plain = record { queue = inline_queue; signal = 12; worker = none; stage = Stage.idle }

end_main_thread-IsLost_example :
    (m₁ m₂ : MvSync) × (w₁ w₂ : World) × (register_main_thread at_once false plain world
      ≡ done m₁ w₁)
    × (advance_times 4 m₁ w₁ ≡ done m₂ w₂)
    × ((b : Instance) → Reach (record { sync = end_main_thread m₂; world = w₂ }) b → IsLost b.sync)
unfolding main_thread_finished
end_main_thread-IsLost_example = end_main_thread-IsLost plain at_once (num 3) world refl refl

abbrev serving : MvSync
serving = record plain { worker = some (main_worker 15); stage = Stage.at_head false }

-- The task that is submitted to it, and the world after that.
abbrev created : (Task × TaskHandle) × World
created = create_task 12 (Outcome.returns (num 7)) world

abbrev abandoned : Instance
abandoned = record {
  sync = left_behind serving (main_worker 15) created.0.0;
  world = (Worker.send created.0.0 (main_worker 15) created.1).1;
}

-- `end_main_thread` is called again.
abandoned-Reach : Reach abandoned abandoned
unfolding end_main_thread main_thread_ended Worker.ended
abandoned-Reach = Reach.next {b = abandoned} Reach.here (Step.ends refl)

abandoned-IsLeft : IsLeft created.0.1 abandoned-Reach
unfolding abandoned-Reach create_task Handle.new_handle Handle.new_buffer Task.from_function
    Worker.send Signal.wake
abandoned-IsLeft = (tt, refl)

submit-end_main_thread_example :
    (m₁ : MvSync) × (submit_to_main_thread created.0.0 serving created.1 ≡ done m₁ abandoned.world)
    × (advance (end_main_thread m₁) abandoned.world ≡ done abandoned.sync abandoned.world)
    × (main_thread_finished abandoned.sync ≡ true)
    × (abandoned.sync ≡ left_behind serving (main_worker 15) created.0.0)
    × (Handle.wait created.0.1 abandoned.world ≡ blocks abandoned.world)
    × ((init : Script) (ends : Bool)
        → (m' : MvSync) × (w' : World) × (u : WorkerThread) × (first : Task) × (x y : ℕ)
          × (register_main_thread init ends abandoned.sync abandoned.world ≡ done m' w')
          × (m'.worker ≡ some u)
          × (u.channel ≡ first ∷ [])
          × (u.futures ≡ [])
          × (first.inner ≡ Body.running init 0 x y))
submit-end_main_thread_example =
    submit-end_main_thread serving (main_worker 15) false (Outcome.returns (num 7)) world refl refl
      refl refl (omega arith) refl abandoned abandoned-Reach abandoned-IsLeft

-- A first registration, whatever the thread does in it.
abbrev instance_of : Exec MvSync → Instance
instance_of (done m w) = record { sync = m; world = w }
instance_of _ = fresh specs [] world

abbrev registered : Instance
registered =
    instance_of (
      register_main_thread late_seven false (fresh specs [] world).sync
        (fresh specs [] world).world)

registered-Reach : Reach (fresh specs [] world) registered
unfolding register_main_thread main_thread_finished mvsync.MvSync.Main.labelled
registered-Reach = Reach.next Reach.here (Step.registers late_seven false refl)

Reach-fresh-registers_example :
    Guarded
      (λ m _. m.stage ≡ Stage.at_head true)
      (is_idle registered.sync.stage)
      (register_main_thread late_seven true registered.sync registered.world)
Reach-fresh-registers_example =
    Reach-fresh-registers specs [] world registered late_seven true registered-Reach

run-create_async_task_threaded_example :
    let ((task, h), w₀) = create_async_task 12 late_seven world in
    let (t₁, w₁) = Worker.send task (thread 2) w₀ in
    (t₂ : WorkerThread) × (w₂ w₃ : World) × (Worker.run 4 false t₁ w₁ ≡ done (Worker.parked t₂) w₂)
    × (t₂.futures ≡ [])
    × (t₂.free_workers ≡ 2)
    × (Handle.is_done h w₂ ≡ true)
    × (Handle.wait h w₂ ≡ done (TaskResult.returned (num 7)) w₃)
run-create_async_task_threaded_example =
    run-create_async_task_threaded (thread 2) 12 late_seven 2 (num 7) world (refl, (refl, refl))
      refl refl refl refl (omega arith) (omega arith)
