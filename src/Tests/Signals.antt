-- ===== src/Tests/Signals.antt =====
-- The theorems on signals and awaiters at concrete inputs.
use mvsync.Task.Handle
use mvsync.Task.Handle.{TaskHandle}
use mvsync.Await.Handles.{SameEnd, awaited, awaited-wait}
use mvsync.Base.{some, [], true, ◌≡◌, refl, [], arith}
use mvsync.World.{set_buffer, set_signal, World, num, foreign, context}
use mvsync.Exec.{done, Poll, caught}
use mvsync.Signal
use mvsync.Signal.{SignalFuture, poll, wait, wake}
use mvsync.Signal.Wakeups.{was_called, poll-wake, poll-stale}
use mvsync.Task.Body
use mvsync.Task.Body.{Reply, running}
use mvsync.Await.{await_loop, await_sync, await_sync_safe}
use mvsync.Await.Safe.{await_sync_safe-caught}
use mvsync.Await.Scripts.{OnlySignal, answer, loop-Resolves}
use mvsync.Tests.Data.{world, late_seven}

poll-wake_example :
    (f : SignalFuture) × (w' : World) × (poll (foreign 3) (Signal.wait_async 5) world
      ≡ done (Poll.pending f) w')
    × (was_called (foreign 3) (wake 5 w') ≡ true)
    × (poll (context 1) f (wake 5 w') ≡ done (Poll.ready tt) (wake 5 w'))
poll-wake_example = poll-wake (foreign 3) (context 1) 5 world refl

poll-stale_example :
    (f : SignalFuture) × (w₁ w₂ : World) × (poll (foreign 3) (Signal.wait_async 5) world
      ≡ done (Poll.pending f) w₁)
    × (wait 5 (wake 5 w₁) ≡ done tt w₂)
    × (poll (foreign 4) f w₂ ≡ done (Poll.pending f) w₂)
    × ((w₂.signals 5).wakers ≡ [])
poll-stale_example = poll-stale (foreign 3) (foreign 4) 5 world refl

await_sync_safe-caught_example :
    await_sync_safe Body.poll 5 (running late_seven 0 10 1) world
    ≡ caught (await_sync Body.poll 5 (running late_seven 0 10 1) world)
await_sync_safe-caught_example =
    await_sync_safe-caught Body.poll 5 (running late_seven 0 10 1) world

loop-Resolves_example :
    (w' : World) × OnlySignal 5 world w'
    × (await_loop Body.poll 3 5 (running late_seven 0 10 1) world
        ≡ answer (Reply.returns (num 7)) 10 1 w')
loop-Resolves_example =
    loop-Resolves late_seven 10 1 5 2 0 3 (Reply.returns (num 7)) world (refl, (refl, refl))
      (λ e. cc) refl (omega arith)

-- A handle whose task has returned 7.
abbrev finished : World
finished = set_buffer 10 (some (num 7)) (set_signal 11 (record { ready = true; wakers = [] }) world)

abbrev handle : TaskHandle
handle = record { inner = 10; state = 9; signal = 11 }

awaited-wait_example : SameEnd (awaited handle 3 finished) (Handle.wait handle finished)
awaited-wait_example = awaited-wait handle 3 finished (omega arith)
