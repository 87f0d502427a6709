-- ===== src/Tests/Awake.antt =====
-- The theorem on the waiting main thread at a concrete input.
use mvsync.Base.{false, none, some, [], ◌≡◌, refl}
use mvsync.Exec.{Exec, done}
use mvsync.Signal
use mvsync.Task
use mvsync.Task.State
use mvsync.Task.Body
use mvsync.Task.Body.{Reply, Script}
use mvsync.Task.Handle
use mvsync.Worker
use mvsync.Worker.{WorkerThread}
use mvsync.Queue
use mvsync.MvSync.{create_async_task}
use mvsync.MvSync.Main
use mvsync.MvSync.Main.{MvSync, Stage, register_main_thread, submit_to_main_thread, advance}
use mvsync.MvSync.Registered.{Instance, Step, Reach, fresh}
use mvsync.MvSync.Awake.{Reach-fresh-advance}
use mvsync.Tests.Data.{world, task, specs, thread}

abbrev drowsy : Script
drowsy n = Reply.pends false

abbrev start : Instance
start = fresh specs [] world

abbrev instance_of : Exec MvSync → Instance
instance_of (done m w) = record { sync = m; world = w }
instance_of _ = start

-- A main thread whose init future pends, up to its wait; then a task is submitted.
abbrev at_head : Instance
at_head = instance_of (register_main_thread drowsy false start.sync start.world)

abbrev polling : Instance
polling = instance_of (advance at_head.sync at_head.world)

abbrev testing : Instance
testing = instance_of (advance polling.sync polling.world)

abbrev waiting : Instance
waiting = instance_of (advance testing.sync testing.world)

abbrev woken : Instance
woken = instance_of (submit_to_main_thread (task 1 9) waiting.sync waiting.world)

abbrev worker_of : MvSync → WorkerThread
worker_of m = elim m.worker [ none ↦ thread 0 | some t ↦ t ]

Reach-fresh-advance_example :
    advance woken.sync woken.world
    ≡ done
        (record woken.sync { worker = woken.sync.worker; stage = Stage.at_head false })
        (Signal.set_ready (worker_of woken.sync).signal false woken.world)
unfolding register_main_thread Main.main_thread_finished Main.labelled advance Main.step Worker.send
    Worker.receive Worker.receive_first create_async_task Task.from_async Worker.poll_all
    Worker.retain Worker.poll_one Worker.judge Worker.start Worker.after_verdict Body.poll
    Body.resume State.eq Handle.new_handle State.new Signal.new Signal.wake Signal.drain Queue.new
    Queue.new_threads Queue.label_all Worker.new submit_to_main_thread Main.main_thread_ended
    Worker.ended
Reach-fresh-advance_example =
    Reach-fresh-advance specs [] world woken false (worker_of woken.sync)
      (Reach.next {b = waiting} {c = woken}
        (Reach.next {b = testing} {c = waiting}
          (Reach.next {b = polling} {c = testing}
            (Reach.next {b = at_head} {c = polling}
              (Reach.next {b = start} {c = at_head} Reach.here (Step.registers drowsy false refl))
              (Step.advances refl))
            (Step.advances refl))
          (Step.advances refl))
        (Step.submits (task 1 9) refl))
      (((((tt, tt), tt), tt), tt), tt) refl refl refl
