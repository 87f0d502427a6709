-- ===== src/Worker/Grows.antt =====
-- What only grows while a thread of src/queue.rs polls: the flags that are up, and the tasks that are done.
use mvsync.Base.{ℕ, true, false, List, ◌≡◌, ap, ◌∙◌, arith}
use mvsync.World.{World, Value, TaskState, context, set_state}
use mvsync.Signal
use mvsync.Task.State
use mvsync.Task.Body
use mvsync.Run.{settle}
use mvsync.Run.Settle.{settle-Settled}

abbrev pub IsDone : World → ℕ → Type 0
IsDone w i = State.eq (w.states i) TaskState.pending ≡ false

abbrev pub IsUp : World → ℕ → Type 0
IsUp w k = (w.signals k).ready ≡ true

pub record Grows (v w : World) : Type 0 where
  pub awake : (i : ℕ) → IsUp v i → IsUp w i
  pub over : (i : ℕ) → IsDone v i → IsDone w i

pub Grows-refl : (w : World) → Grows w w
Grows-refl w = record { awake = λ i e. e; over = λ i e. e }

pub Grows-trans : (u v w : World) → Grows u v → Grows v w → Grows u w
Grows-trans u v w a b = record {
  awake = λ i e. b.awake i (a.awake i e);
  over = λ i e. b.over i (a.over i e);
}

pub call-Grows : (k : ℕ) (w : World) → Grows w (Signal.call (context k) w)
unfolding Signal.call
call-Grows k w = record { awake = λ i e. ground arith; over = λ i e. e }

pub settle-Grows : (ss : List ℕ) (signal : ℕ × ℕ) (w : World) → Grows w (settle ss signal w)
settle-Grows ss signal w =
    let d = settle-Settled ss signal w in
    record {
      awake = d.others;
      over = λ i e. ap (λ f. State.eq (f i) TaskState.pending) d.states ∙ e;
    }

-- A state that is not pending.
pub set_state-Grows :
    (s : ℕ) (x : TaskState) (w : World)
    → State.eq x TaskState.pending ≡ false
    → Grows w (set_state s x w) × IsDone (set_state s x w) s
set_state-Grows s x w e = (record { awake = λ i h. h; over = λ i h. ground arith }, ground arith)

pub complete-Grows :
    (b s : ℕ) (x : Value) (w : World)
    → Grows w (Body.complete b s x w) × IsDone (Body.complete b s x w) s
unfolding Body.complete State.eq
complete-Grows b s x w = (record { awake = λ i h. h; over = λ i h. ground arith }, ground arith)
