-- ===== src/Await.antt =====
-- `await_sync` and `await_sync_safe` of src/block.rs, for any future given by its `poll`. The fuel
-- bounds the polls.
pub mod Safe
pub mod Scripts
pub mod Handles
use mvsync.Base.{ℕ, zero, suc}
use mvsync.World.{Waker, context}
use mvsync.Exec.{out_of_fuel, M, Poll, and_then, ◌>>◌, pure, Caught, ok, err, catch_unwind}
use mvsync.Signal

module _ {F A : Type 0} (poll : Waker → F → M (Poll F A)) where
  unfoldable pub await_loop : ℕ → ℕ → F → M A
  unfolding Signal.wait
  await_loop zero signal future w = out_of_fuel
  await_loop (suc fuel) signal future w = and_then (poll (context signal) future w) λ p. elim p [
    | Poll.ready output ↦ pure output
    | Poll.pending future' ↦ Signal.wait signal >> await_loop fuel signal future'
  ]

  unfoldable pub await_sync : ℕ → F → M A
  unfolding await_loop Signal.new
  await_sync fuel future w = let (signal, w') = Signal.new w in await_loop fuel signal future w'

  unfoldable pub safe_loop : ℕ → ℕ → F → M (Caught A)
  unfolding Signal.wait
  safe_loop zero signal future w = out_of_fuel
  safe_loop (suc fuel) signal future w =
      and_then (catch_unwind (poll (context signal) future) w) λ c. elim c [
        | err payload ↦ pure (err payload)
        | ok (Poll.ready output) ↦ pure (ok output)
        | ok (Poll.pending future') ↦ Signal.wait signal >> safe_loop fuel signal future'
      ]

  unfoldable pub await_sync_safe : ℕ → F → M (Caught A)
  unfolding safe_loop Signal.new
  await_sync_safe fuel future w = let (signal, w') = Signal.new w in safe_loop fuel signal future w'
