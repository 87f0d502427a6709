-- ===== src/Buffer/Panics.antt =====
-- A chain of commands one of whose functions panics, on a queue without threads.
use mvsync.Base.{
  ℕ, suc, ◌≤◌, ◌<◌, true, ◌⊎◌, inl, inr, List, [], ◌∷◌, ◌≡◌, refl, ap, ◌∙◌, elem, arith,
}
use mvsync.World.{World, Value}
use mvsync.Exec.{done, unwinds}
use mvsync.Signal
use mvsync.Task
use mvsync.Task.State
use mvsync.Task.{Task}
use mvsync.Task.Body
use mvsync.Task.Body.{Outcome, calling, continuing}
use mvsync.Task.Handle.{TaskHandle}
use mvsync.Await.{await_sync, await_loop}
use mvsync.Run.{execute, try_run, run_pass}
use mvsync.Run.Execute.{Completed-Holds, Holds, IsRunnable, after_take, wait-Holds}
use mvsync.Buffer.Pipeline.{
  IsLinked, IsLinked-frame, pipe, and_call, step-executes, all-elem, states-Completed,
  Completed-semaphores,
}

execute-panicking :
    (t : Task) (g : Value → Outcome) (b s fuel : ℕ) (h : TaskHandle) (v p : Value) (w : World)
    → t.inner ≡ continuing g b s h
    → Holds h v w
    → h.signal < w.next
    → g v ≡ Outcome.panics p
    → (w' : World) × (execute (suc fuel) t w ≡ unwinds p w')
unfolding execute await_sync await_loop Body.poll Body.continue Signal.new
execute-panicking t g b s fuel h v p w e held old fails =
    let w₁ = (Signal.new w).1 in
    let held₁ : Holds h v w₁ = record {
      up = ground (arith, held.up);
      state = held.state;
      inner = held.inner;
    } in
    (
      after_take h w₁,
      rw e (
          rw (wait-Holds h v w₁ held₁)
            (rw (held.state) (rw (fails, Body.after_wait, State.take, Body.call) refl))),
    )

-- A task over a synchronous function that panics.
pub execute-calling_panics :
    (t : Task) (b s fuel : ℕ) (p : Value) (w : World)
    → t.inner ≡ calling (Outcome.panics p) b s
    → (w' : World) × (execute (suc fuel) t w ≡ unwinds p w')
unfolding execute await_sync await_loop Body.poll Signal.new
execute-calling_panics t b s fuel p w e = ((Signal.new w).1, rw e refl)

pub try_run-panicking :
    (fuel : ℕ) (u : Task) (p : Value) (w w' : World)
    → IsRunnable u w
    → execute fuel u w ≡ unwinds p w'
    → try_run fuel u w ≡ unwinds p w'
unfolding try_run Task.can_execute Task.is_panicked Task.is_cancelled
try_run-panicking fuel u p w w' r e = ground arith

-- A composition that panics does so in its first function, or in the others.
and_call-panics :
    (o : Outcome) (k : Value → Outcome) (p : Value)
    → and_call o k ≡ Outcome.panics p
    → (o ≡ Outcome.panics p) ⊎ ((y : Value) × (o ≡ Outcome.returns y) × (k y ≡ Outcome.panics p))
and_call-panics (Outcome.returns v) k p e = inr (v, refl, e)
and_call-panics (Outcome.panics q) k p e = inl e

pub run_pass-unwinds :
    (fuel : ℕ) (u : Task) (us : List Task) (p : Value) (w w' : World)
    → try_run fuel u w ≡ unwinds p w'
    → run_pass fuel (u ∷ us) w ≡ unwinds p w'
unfolding run_pass
run_pass-unwinds fuel u us p w w' e = rw e refl

pub run_pass-unwinds_later :
    (fuel : ℕ) (u : Task) (us : List Task) (p : Value) (w v w' : World)
    → try_run fuel u w ≡ done true v
    → run_pass fuel us v ≡ unwinds p w'
    → run_pass fuel (u ∷ us) w ≡ unwinds p w'
unfolding run_pass
run_pass-unwinds_later fuel u us p w v w' e e' = rw e (rw e' refl)

module _ (fuel hi : ℕ) where
  pub run_pass-panics :
      (prev : TaskHandle) (ss : List ℕ) (gs : List (Value → Outcome)) (us : List Task) (lo : ℕ)
      (last : TaskHandle) (v p : Value) (w : World)
      → IsLinked prev ss gs us lo hi last w
      → Holds prev v w
      → ((i : ℕ) → elem i ss ≡ true → w.semaphores i ≡ true)
      → prev.signal < hi
      → hi ≤ w.next
      → pipe v gs ≡ Outcome.panics p
      → (w' : World) × (run_pass (suc fuel) us w ≡ unwinds p w')
  run_pass-panics prev ss [] us lo last v p w c held signalled old le e = cc
  run_pass-panics prev ss (g ∷ gs) [] lo last v p w c held signalled old le e = absurd c
  run_pass-panics prev ss (g ∷ gs) (u ∷ us) lo last v p w (h, step, waits, _, new, st, rest) held
        signalled old le e =
      elim (and_call-panics (g v) (λ z. pipe z gs) p e) [
        | inl fails ↦
            let (w', runs) =
              execute-panicking u g h.inner h.state fuel prev v p w step.inner held (omega arith)
                fails in
            let runnable : IsRunnable u w = record {
              state = ap w.states step.state ∙ held.state;
              self_state = ap w.states step.self_state ∙ st;
              waits = all-elem ss u.wait w signalled waits;
            } in
            (
              w',
              run_pass-unwinds (suc fuel) u us p w w'
                  (try_run-panicking (suc fuel) u p w w' runnable runs),
            )
        | inr (y, ret, e') ↦
            let (w₁, runs, c) =
              step-executes fuel prev h g u ss v y w step waits st held signalled (omega arith)
                ret in
            let (w₂, fails) =
              run_pass-panics h u.semaphores gs us (suc h.state) last y p w₁
                (IsLinked-frame h u.semaphores gs us (suc h.state) hi last w w₁
                  (states-Completed u h.inner h.state y (after_take prev w) w₁ c) rest)
                (Completed-Holds u h y (after_take prev w) w₁ step.own c)
                (Completed-semaphores u h.inner h.state y (after_take prev w) w₁ c) new
                (omega (arith, c.next)) e' in
            (w₂, run_pass-unwinds_later (suc fuel) u us p w w₁ w₂ runs fails)
      ]
