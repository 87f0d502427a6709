-- ===== src/Task/Leaves.antt =====
-- What polling the async block of a task, in src/task.rs, leaves alone: it writes a buffer and a state, it may
-- take the flag of a predecessor's signal, and it may have the waker of its thread called.
use mvsync.Base.{ℕ, zero, true, false, Option, inl, inr, if-cases, Option-cases}
use mvsync.World.{World, Value, TaskState, context, set_state, set_buffer}
use mvsync.Exec.{Exec, done, unwinds, blocks, out_of_fuel, Poll, caught, and_then, M, IfDone}
use mvsync.Signal
use mvsync.Task.State
use mvsync.Task.Body
use mvsync.Task.Body.{Inner, Outcome, Reply, Script}
use mvsync.Task.Handle
use mvsync.Task.Handle.{TaskHandle, TaskResult}

-- Whether the step returns or unwinds, its world meets a condition.
abbrev pub Leaves {ℓ} : {A : Type ℓ} → (World → Type 0) → Exec A → Type 0
Leaves P (done _ w) = P w
Leaves P (unwinds _ w) = P w
Leaves P _ = Unit {0}

Leaves-and_then {ℓ κ} :
    {A : Type ℓ} {B : Type κ} (P : World → Type 0) (r : Exec A) (f : A → M B)
    → Leaves P r
    → ((a : A) (w : World) → P w → Leaves P (f a w))
    → Leaves P (and_then r f)
Leaves-and_then P (done a w) f p next = next a w p
Leaves-and_then P (unwinds _ w) f p next = p
Leaves-and_then P (blocks w) f p next = tt
Leaves-and_then P out_of_fuel f p next = tt

pub IfDone-caught {ℓ} :
    {A : Type ℓ} (P : World → Type 0) (r : Exec A) → Leaves P r → IfDone (λ _ w. P w) (caught r)
IfDone-caught P (done a w) p = p
IfDone-caught P (unwinds _ w) p = p
IfDone-caught P (blocks w) p = tt
IfDone-caught P out_of_fuel p = tt

-- A condition on the world that none of the writes of a poll breaks, by a thread with the signal `k`.
pub record Withstands (k : ℕ) (P : World → Type 0) : Type 0 where
  pub buffer : (b : ℕ) (x : Option Value) (w : World) → P w → P (set_buffer b x w)
  pub state : (s : ℕ) (x : TaskState) (w : World) → P w → P (set_state s x w)
  pub falls : (i : ℕ) (w : World) → P w → P (Signal.set_ready i false w)
  pub rises : (w : World) → P w → P (Signal.call (context k) w)

module _ (k : ℕ) (P : World → Type 0) (lasts : Withstands k P) where
  take_inner-Leaves : (b : ℕ) (w : World) → P w → Leaves P (Handle.take_inner b w)
  unfolding Handle.take_inner
  take_inner-Leaves b w p = elim (Option-cases (w.buffers b)) [
    | inl e ↦ rw (e, Leaves, Handle.take_inner) p
    | inr (x, e) ↦ rw (e, Leaves, Handle.take_inner) (lasts.buffer b _ w p)
  ]

  result_of-Leaves : (b : ℕ) (s : TaskState) (w : World) → P w → Leaves P (Handle.result_of b s w)
  unfolding Handle.result_of
  result_of-Leaves b TaskState.pending w p = p
  result_of-Leaves b TaskState.ready w p = take_inner-Leaves b w p
  result_of-Leaves b (TaskState.panicked x) w p = p
  result_of-Leaves b TaskState.cancelled w p = p

  wait-Leaves : (h : TaskHandle) (w : World) → P w → Leaves P (Handle.wait h w)
  unfolding Handle.wait Handle.take_result Signal.wait
  wait-Leaves h w p =
      Leaves-and_then P (Signal.wait h.signal w) _
        (if-cases (Leaves P) (w.signals h.signal).ready _ _ (λ _. lasts.falls h.signal w p)
          (λ _. tt))
        (λ _ u q. result_of-Leaves h.inner (State.take (u.states h.state)) u q)

  complete-Withstands : (b s : ℕ) (x : Value) (w : World) → P w → P (Body.complete b s x w)
  unfolding Body.complete
  complete-Withstands b s x w p = lasts.state s _ _ (lasts.buffer b _ w p)

  call-Leaves : (o : Outcome) (b s : ℕ) (w : World) → P w → Leaves P (Body.call o b s w)
  unfolding Body.call
  call-Leaves (Outcome.returns x) b s w p = complete-Withstands b s x w p
  call-Leaves (Outcome.panics x) b s w p = p

  resume-Leaves :
      (r : Reply) (f : Script) (n b s : ℕ) (w : World)
      → P w
      → Leaves P (Body.resume (context k) r f n b s w)
  unfolding Body.resume
  resume-Leaves (Reply.returns x) f n b s w p = complete-Withstands b s x w p
  resume-Leaves (Reply.panics x) f n b s w p = p
  resume-Leaves (Reply.pends true) f n b s w p = lasts.rises w p
  resume-Leaves (Reply.pends false) f n b s w p = p

  after_wait-Leaves :
      (use_value : Value → M (Poll Inner (Unit {0})))
      → ((x : Value) (w : World) → P w → Leaves P (use_value x w))
      → (s : ℕ) (r : TaskResult) (v : TaskState) (w : World) → P w
      → Leaves P (Body.after_wait use_value s r v w)
  unfolding Body.after_wait
  after_wait-Leaves use_value h s (TaskResult.returned x) TaskState.ready w p = h x w p
  after_wait-Leaves use_value h s (TaskResult.panicked x) TaskState.ready w p = p
  after_wait-Leaves use_value h s TaskResult.cancelled TaskState.ready w p = p
  after_wait-Leaves use_value h s r (TaskState.panicked x) w p = lasts.state s _ w p
  after_wait-Leaves use_value h s r TaskState.cancelled w p = lasts.state s _ w p
  after_wait-Leaves use_value h s r TaskState.pending w p = lasts.state s _ w p

  continue-Leaves :
      (use_value : Value → M (Poll Inner (Unit {0})))
      → ((x : Value) (w : World) → P w → Leaves P (use_value x w))
      → (s : ℕ) (h : TaskHandle) (w : World) → P w
      → Leaves P (Body.continue use_value s h w)
  unfolding Body.continue
  continue-Leaves use_value more s h w p =
      Leaves-and_then P (Handle.wait h w) _ (wait-Leaves h w p)
        (λ r u q. after_wait-Leaves use_value more s r (State.take (u.states h.state)) u q)

  pub poll-Leaves : (i : Inner) (w : World) → P w → Leaves P (Body.poll (context k) i w)
  unfolding Body.poll
  poll-Leaves (Body.calling o b s) w p = call-Leaves o b s w p
  poll-Leaves (Body.running f n b s) w p = resume-Leaves (f n) f n b s w p
  poll-Leaves (Body.continuing g b s h) w p =
      continue-Leaves (λ x. Body.call (g x) b s) (λ x u q. call-Leaves (g x) b s u q) s h w p
  poll-Leaves (Body.async_continuing g b s h) w p =
      continue-Leaves (λ x. Body.resume (context k) (g x zero) (g x) zero b s)
        (λ x u q. resume-Leaves (g x zero) (g x) zero b s u q) s h w p
