-- ===== src/Await/Safe.antt =====
-- The two awaiters of src/block.rs compared.
use mvsync.Base.{ℕ, zero, suc, ◌≡◌, refl, false, arith}
use mvsync.World.{World, Waker, context}
use mvsync.Exec.{M, Poll, caught, caught-and_then}
use mvsync.Signal
use mvsync.Await.{await_loop, await_sync, safe_loop, await_sync_safe}

module _ {F A : Type 0} (poll : Waker → F → M (Poll F A)) where
  loop-caught :
      (fuel signal : ℕ) (future : F) (w : World)
      → safe_loop poll fuel signal future w ≡ caught (await_loop poll fuel signal future w)
  unfolding safe_loop await_loop Signal.wait
  loop-caught zero signal future w = refl
  loop-caught (suc fuel) signal future w =
      caught-and_then (poll (context signal) future w) _ _
        (elim [
          | Poll.ready output ↦ λ w'. refl
          | Poll.pending future' ↦ λ w'.
              ground (arith, loop-caught fuel signal future' (Signal.set_ready signal false w'))
        ])
        (λ p w'. refl)

  -- `await_sync_safe` is `await_sync` with a panic of the future turned into `Err`.
  pub await_sync_safe-caught :
      (fuel : ℕ) (future : F) (w : World)
      → await_sync_safe poll fuel future w ≡ caught (await_sync poll fuel future w)
  unfolding await_sync_safe await_sync
  await_sync_safe-caught fuel future w = loop-caught fuel _ future _
