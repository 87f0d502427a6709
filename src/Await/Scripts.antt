-- ===== src/Await/Scripts.antt =====
-- `await_sync` on a user's future, by the replies of the future.
use mvsync.Base.{ℕ, zero, suc, ◌<◌, true, false, ◌≡◌, ◌≢◌, refl, ◌∙◌, arith}
use mvsync.World.{World}
use mvsync.Exec.{Exec, done, unwinds, blocks}
use mvsync.Signal
use mvsync.Task.Body
use mvsync.Task.Body.{Reply, Script, running, complete}
use mvsync.Await.{await_loop}

-- The future pends at the polls `j`, …, `j + n - 1`, waking its waker, and then replies `r`.
abbrev pub Resolves : Script → ℕ → ℕ → Reply → Type 0
Resolves f j zero r = f j ≡ r
Resolves f j (suc n) r = (f j ≡ Reply.pends true) × Resolves f (suc j) n r

-- What the awaiting thread comes to by the last reply: a future that pends and never calls its waker
-- parks it.
abbrev pub answer : Reply → ℕ → ℕ → World → Exec (Unit {0})
answer (Reply.returns v) b s w = done tt (complete b s v w)
answer (Reply.panics p) b s w = unwinds p w
answer (Reply.pends _) b s w = blocks w

-- Only the signal `k` may differ, and its flag is down in both.
pub record OnlySignal (k : ℕ) (v w : World) : Type 0 where
  pub states : w.states ≡ v.states
  pub buffers : w.buffers ≡ v.buffers
  pub semaphores : w.semaphores ≡ v.semaphores
  pub fences : w.fences ≡ v.fences
  pub next : w.next ≡ v.next
  pub woken : w.woken ≡ v.woken
  pub signals : (i : ℕ) → i ≢ k → w.signals i ≡ v.signals i
  pub down : (w.signals k).ready ≡ false

pub OnlySignal-trans :
    {k : ℕ} {u v w : World} → OnlySignal k u v → OnlySignal k v w → OnlySignal k u w
OnlySignal-trans a b = record {
  states = b.states ∙ a.states;
  buffers = b.buffers ∙ a.buffers;
  semaphores = b.semaphores ∙ a.semaphores;
  fences = b.fences ∙ a.fences;
  next = b.next ∙ a.next;
  woken = b.woken ∙ a.woken;
  signals = λ i h. b.signals i h ∙ a.signals i h;
  down = b.down;
}

-- The thread's flag goes up by a waker and down by `wait`.
abbrev up_and_down : ℕ → World → World
up_and_down k w = Signal.set_ready k false (Signal.set_ready k true w)

up_and_down-OnlySignal : (k : ℕ) (w : World) → OnlySignal k w (up_and_down k w)
up_and_down-OnlySignal k w = record {
  states = refl;
  buffers = refl;
  semaphores = refl;
  fences = refl;
  next = refl;
  woken = refl;
  signals = λ i h. ground arith;
  down = ground arith;
}

module _ (f : Script) (b s k : ℕ) where
  loop-pends :
      (j fuel : ℕ) (w : World)
      → f j ≡ Reply.pends true
      → await_loop Body.poll (suc fuel) k (running f j b s) w
        ≡ await_loop Body.poll fuel k (running f (suc j) b s) (up_and_down k w)
  unfolding await_loop Body.poll Signal.call Signal.wait
  loop-pends j fuel w h = rw h (ground arith)

  loop-answer :
      (r : Reply) (j fuel : ℕ) (w : World)
      → f j ≡ r
      → r ≢ Reply.pends true
      → (w.signals k).ready ≡ false
      → await_loop Body.poll (suc fuel) k (running f j b s) w ≡ answer r b s w
  unfolding await_loop Body.poll Signal.wait
  loop-answer (Reply.returns v) j fuel w h n down = rw h
  loop-answer (Reply.panics p) j fuel w h n down = rw h
  loop-answer (Reply.pends true) j fuel w h n down = absurd (n refl)
  loop-answer (Reply.pends false) j fuel w h n down = rw h (rw down)

  -- With one unit of fuel for each poll the loop comes to the answer.
  pub loop-Resolves :
      (n j fuel : ℕ) (r : Reply) (w : World)
      → Resolves f j n r
      → r ≢ Reply.pends true
      → (w.signals k).ready ≡ false
      → n < fuel
      → (w' : World) × OnlySignal k w w'
        × (await_loop Body.poll fuel k (running f j b s) w ≡ answer r b s w')
  loop-Resolves n j zero r w h ne down lt = absurd (omega arith)
  loop-Resolves zero j (suc fuel) r w h ne down lt = (
    w,
    record {
      states = refl;
      buffers = refl;
      semaphores = refl;
      fences = refl;
      next = refl;
      woken = refl;
      signals = λ i h. refl;
      down = down;
    },
    loop-answer r j fuel w h ne down,
  )
  loop-Resolves (suc n) j (suc fuel) r w h ne down lt =
      let (w', same, e) =
        loop-Resolves n (suc j) fuel r (up_and_down k w) h.1 ne (ground arith) (omega arith) in
      (w', OnlySignal-trans (up_and_down-OnlySignal k w) same, loop-pends j fuel w h.0 ∙ e)
