-- ===== src/Run/Settle.antt =====
-- The loops that end a task: which flags are up after them, and what they leave alone.
use mvsync.Base.{ℕ, true, ◌||◌, List, [], ◌∷◌, ◌≡◌, refl, ap, ◌∙◌, ◌==◌, elem, arith}
use mvsync.World.{World, TaskState, unit, set_state}
use mvsync.Exec.{done}
use mvsync.Task
use mvsync.Task.{Task}
use mvsync.Signal
use mvsync.Signal.Frame.{SameData-trans, wake-SameData, ready-wake, wake-keeps-ready}
use mvsync.Sync.Semaphore
use mvsync.Run.{signal_all, settle, pass_panic}

-- Between `v` and `w` the semaphores `ss` were signalled and both signals were woken.
pub record Settled (ss : List ℕ) (signal : ℕ × ℕ) (v w : World) : Type 0 where
  pub states : w.states ≡ v.states
  pub buffers : w.buffers ≡ v.buffers
  pub semaphores : (i : ℕ) → w.semaphores i ≡ (elem i ss || v.semaphores i)
  pub fences : w.fences ≡ v.fences
  pub next : w.next ≡ v.next
  pub own : (w.signals signal.0).ready ≡ true
  pub queue : (w.signals signal.1).ready ≡ true
  pub others : (i : ℕ) → (v.signals i).ready ≡ true → (w.signals i).ready ≡ true

-- `signal_all` changes the semaphores of its list alone.
semaphores-signal_all :
    (ss : List ℕ) (w : World) (i : ℕ)
    → (signal_all ss w).semaphores i ≡ (elem i ss || w.semaphores i)
unfolding signal_all
semaphores-signal_all [] w i = refl
semaphores-signal_all (s ∷ ss) w i =
    semaphores-signal_all ss (Semaphore.signal s w) i ∙ signal-elem s ss w i
  where
    signal-elem :
        (s : ℕ) (ss : List ℕ) (w : World) (i : ℕ)
        → (elem i ss || (Semaphore.signal s w).semaphores i)
          ≡ (((s == i) || elem i ss) || w.semaphores i)
    signal-elem s ss w i = ground arith

pub record OnlySemaphores (v w : World) : Type 0 where
  pub states : w.states ≡ v.states
  pub buffers : w.buffers ≡ v.buffers
  pub signals : w.signals ≡ v.signals
  pub fences : w.fences ≡ v.fences
  pub next : w.next ≡ v.next

pub signal_all-OnlySemaphores : (ss : List ℕ) (w : World) → OnlySemaphores w (signal_all ss w)
unfolding signal_all Semaphore.signal
signal_all-OnlySemaphores [] w = record {
  states = refl;
  buffers = refl;
  signals = refl;
  fences = refl;
  next = refl;
}
signal_all-OnlySemaphores (s ∷ ss) w =
    let r = signal_all-OnlySemaphores ss (Semaphore.signal s w) in
    record {
      states = r.states;
      buffers = r.buffers;
      signals = r.signals;
      fences = r.fences;
      next = r.next;
    }

pub settle-Settled :
    (ss : List ℕ) (signal : ℕ × ℕ) (w : World) → Settled ss signal w (settle ss signal w)
unfolding settle
settle-Settled ss signal w =
    let w₁ = signal_all ss w in
    let w₂ = Signal.wake signal.0 w₁ in
    let a = signal_all-OnlySemaphores ss w in
    let b = SameData-trans (wake-SameData signal.0 w₁) (wake-SameData signal.1 w₂) in
    record {
      states = b.states ∙ a.states;
      buffers = b.buffers ∙ a.buffers;
      semaphores = λ i. ap (λ f. f i) b.semaphores ∙ semaphores-signal_all ss w i;
      fences = b.fences ∙ a.fences;
      next = b.next ∙ a.next;
      own = wake-keeps-ready signal.1 signal.0 w₂ (ready-wake signal.0 w₁);
      queue = ready-wake signal.1 w₂;
      others = λ i h.
          wake-keeps-ready signal.1 i w₂
            (wake-keeps-ready signal.0 i w₁ (ap (λ f. (f i).ready) a.signals ∙ h));
    }

-- Where the predecessor has panicked the handler returns; the payload that it passes on is the unit.
pub pass_panic_lem :
    (t : Task) (w : World)
    → Task.is_panicked t w ≡ true
    → pass_panic t w
      ≡ done tt (settle t.semaphores t.signal (set_state t.self_state (TaskState.panicked unit) w))
unfolding pass_panic Task.is_panicked
pass_panic_lem t w h = ground arith
