-- ===== src/Worker/Fences.antt =====
-- Fences of src/sync.rs that are bound to tasks on the threads of src/queue.rs.
use mvsync.Base.{ℕ, Bool, true, false, some, List, [], ◌≡◌, ◌≢◌, refl, ap, ◌∙◌, if-cases, arith}
use mvsync.World.{World, Waker, TaskState, context, set_state}
use mvsync.Exec.{
  done, blocks, Poll, Caught, ok, err, catch_unwind, IfDone, IfDone-and_then, IfDone-eq,
}
use mvsync.Signal
use mvsync.Signal.Frame.{wakers-drain}
use mvsync.Sync.Fence
use mvsync.Task
use mvsync.Task.{Task}
use mvsync.Task.State
use mvsync.Task.Body
use mvsync.Task.Body.{Inner}
use mvsync.Task.Leaves.{Withstands, IfDone-caught, poll-Leaves}
use mvsync.Run.{signal_all, settle}
use mvsync.Run.Settle.{settle-Settled, signal_all-OnlySemaphores}
use mvsync.Worker
use mvsync.Worker.{Running, Verdict, settled, start}

-- The fences and the lists of wakers are those of `v`, and no flag but that of the thread has come up.
record Quiet (k : ℕ) (v w : World) : Type 0 where
  fences : w.fences ≡ v.fences
  wakers : (i : ℕ) → (w.signals i).wakers ≡ (v.signals i).wakers
  down : (i : ℕ) → i ≢ k → (v.signals i).ready ≡ false → (w.signals i).ready ≡ false

Quiet-refl : (k : ℕ) (w : World) → Quiet k w w
Quiet-refl k w = record { fences = refl; wakers = λ i. refl; down = λ i _ e. e }

Quiet-Withstands : (k : ℕ) (v : World) → Withstands k (Quiet k v)
unfolding Signal.call
Quiet-Withstands k v = record {
  buffer = λ _ _ w q. record { fences = q.fences; wakers = q.wakers; down = q.down };
  state = λ _ _ w q. record { fences = q.fences; wakers = q.wakers; down = q.down };
  falls = λ i w q. record {
    fences = q.fences;
    wakers = λ j. ground (arith, q.wakers i, q.wakers j);
    down = λ j other e. ground (arith, q.down j other e);
  };
  rises = λ w q. record {
    fences = q.fences;
    wakers = λ j. ground (arith, q.wakers k, q.wakers j);
    down = λ j other e. ground (arith, q.down j other e);
  };
}

-- An entry that is removed was settled after its last poll.
abbrev Settles : ℕ → World → Running → Verdict → World → Type 0
Settles k v r (Verdict.keep _) w = Unit {0}
Settles k v r (Verdict.remove _) w = (u : World) × Quiet k v u × (w ≡ settled r u)

poll_one-Settles :
    (k : ℕ) (r : Running) (v : World) → IfDone (Settles k v r) (Worker.poll_one k r v)
unfolding Worker.poll_one Worker.judge
poll_one-Settles k r v =
    IfDone-and_then (λ _ w. Quiet k v w) (Settles k v r)
      (catch_unwind (Body.poll (context k) r.inner) v) (Worker.judge r)
      (IfDone-caught (Quiet k v) (Body.poll (context k) r.inner v)
        (poll-Leaves k (Quiet k v) (Quiet-Withstands k v) r.inner v (Quiet-refl k v)))
      judges
  where
    judges :
        (c : Caught (Poll Inner (Unit {0}))) (w : World)
        → Quiet k v w
        → IfDone (Settles k v r) (Worker.judge r c w)
    judges (ok (Poll.pending inner)) w q =
        if-cases (IfDone (Settles k v r)) (State.eq (w.states r.state) TaskState.cancelled) _ _
          (λ _. (w, q, refl)) (λ _. tt)
    judges (err e) w q =
        (set_state r.state (TaskState.panicked e) w, (Quiet-Withstands k v).state _ _ w q, refl)
    judges (ok (Poll.ready _)) w q = (w, q, refl)

-- A wake of a signal without wakers puts up its own flag alone.
wake-alone :
    (i j : ℕ) (w : World)
    → (w.signals i).wakers ≡ []
    → j ≢ i
    → (w.signals j).ready ≡ false
    → ((Signal.wake i w).signals j).ready ≡ false
unfolding Signal.wake Signal.drain
wake-alone i j w alone other down = rw alone (ground arith)

wake-stays_alone :
    (i j : ℕ) (w : World) → (w.signals j).wakers ≡ [] → ((Signal.wake i w).signals j).wakers ≡ []
unfolding Signal.wake
wake-stays_alone i j w alone = wakers-drain (w.signals i).wakers _ j ∙ ground arith

settle-alone :
    (ss : List ℕ) (signal : ℕ × ℕ) (j : ℕ) (w : World)
    → (w.signals signal.0).wakers ≡ []
    → (w.signals signal.1).wakers ≡ []
    → j ≢ signal.0
    → j ≢ signal.1
    → (w.signals j).ready ≡ false
    → ((settle ss signal w).signals j).ready ≡ false
unfolding settle
settle-alone ss signal j w own queue not_own not_queue down =
    let v = signal_all ss w in
    let same = (signal_all-OnlySemaphores ss w).signals in
    wake-alone signal.1 j (Signal.wake signal.0 v)
      (wake-stays_alone signal.0 signal.1 v (ap (λ f. (f signal.1).wakers) same ∙ queue)) not_queue
      (wake-alone signal.0 j v (ap (λ f. (f signal.0).wakers) same ∙ own) not_own
        (ap (λ f. (f j).ready) same ∙ down))

-- What code outside the tasks sees of a fence that is bound to the signal `s`.
module _ (i s : ℕ) (w : World) (bound : w.fences i ≡ some s) where
  fence-shut :
      (w.signals s).ready ≡ false → (Fence.ready i w ≡ done false w) × (Fence.wait i w ≡ blocks w)
  unfolding Fence.ready Fence.wait Fence.bound Signal.ready Signal.wait
  fence-shut down = (ground arith, ground arith)

  fence-open :
      (k : Waker)
      → (w.signals s).ready ≡ true
      → (Fence.ready i w ≡ done true w)
        × (Fence.poll k (Fence.wait_async i) w ≡ done (Poll.ready tt) w)
        × (Fence.wait i w ≡ done tt (Signal.set_ready s false w))
  unfolding Fence.ready Fence.wait Fence.bound Fence.poll Fence.poll_await Fence.wait_async
      Signal.ready Signal.wait Signal.poll Signal.wait_async
  fence-open k up = (ground arith, ground arith, ground arith)

-- A fence is bound to a task and then to another one, whose signal is down and is not one that is woken for
-- the first task or that of the thread that polls it; nobody waits asynchronously for the signals of the
-- first task. However the first task ends on a thread (it returns, panics or was cancelled), the fence is
-- shut and a wait for it parks. However the second one ends after it, the fence is open for `ready` and
-- `wait_async`; the first `wait` passes and shuts it again, and the next one parks.
pub bind_fence-last :
    (t₁ t₂ : Task) (k₁ k₂ i : ℕ) (k : Waker) (b₁ b₂ : Bool) (v v₁ v₂ : World)
    → t₂.signal.0 ≢ t₁.signal.0
    → t₂.signal.0 ≢ t₁.signal.1
    → t₂.signal.0 ≢ k₁
    → (v.signals t₂.signal.0).ready ≡ false
    → (v.signals t₁.signal.0).wakers ≡ []
    → (v.signals t₁.signal.1).wakers ≡ []
    → Worker.poll_one k₁ (start t₁) (Task.bind_fence t₂ i (Task.bind_fence t₁ i v))
      ≡ done (Verdict.remove b₁) v₁
    → Worker.poll_one k₂ (start t₂) v₁ ≡ done (Verdict.remove b₂) v₂
    → (Fence.ready i v₁ ≡ done false v₁)
      × (Fence.wait i v₁ ≡ blocks v₁)
      × (Fence.ready i v₂ ≡ done true v₂)
      × (Fence.poll k (Fence.wait_async i) v₂ ≡ done (Poll.ready tt) v₂)
      × ((v₃ : World) × (Fence.wait i v₂ ≡ done tt v₃)
          × (Fence.ready i v₃ ≡ done false v₃)
          × (Fence.wait i v₃ ≡ blocks v₃))
unfolding Task.bind_fence Fence.bind Worker.start
bind_fence-last t₁ t₂ k₁ k₂ i k b₁ b₂ v v₁ v₂ not_own not_queue not_thread down own queue ends₁
      ends₂ =
    let v₀ = Task.bind_fence t₂ i (Task.bind_fence t₁ i v) in
    let s = t₂.signal.0 in
    let (u₁, q₁, e₁) =
      IfDone-eq (Settles k₁ v₀ (start t₁)) (poll_one-Settles k₁ (start t₁) v₀) ends₁ in
    let (u₂, q₂, e₂) =
      IfDone-eq (Settles k₂ v₁ (start t₂)) (poll_one-Settles k₂ (start t₂) v₁) ends₂ in
    let d₁ = settle-Settled t₁.semaphores t₁.signal u₁ in
    let d₂ = settle-Settled t₂.semaphores t₂.signal u₂ in
    let bound₁ : v₁.fences i ≡ some s =
      ap (λ w. w.fences i) e₁ ∙ ap (λ f. f i) (d₁.fences ∙ q₁.fences) ∙ ground arith in
    let bound₂ : v₂.fences i ≡ some s =
      ap (λ w. w.fences i) e₂ ∙ ap (λ f. f i) (d₂.fences ∙ q₂.fences) ∙ bound₁ in
    let down₁ : (v₁.signals s).ready ≡ false =
      ap (λ w. (w.signals s).ready) e₁
      ∙ settle-alone t₁.semaphores t₁.signal s u₁ (q₁.wakers t₁.signal.0 ∙ own)
          (q₁.wakers t₁.signal.1 ∙ queue) not_own not_queue (q₁.down s not_thread down) in
    let up₂ : (v₂.signals s).ready ≡ true = ap (λ w. (w.signals s).ready) e₂ ∙ d₂.own in
    let (shut, parks) = fence-shut i s v₁ bound₁ down₁ in
    let (opened, awaited, passes) = fence-open i s v₂ bound₂ k up₂ in
    let v₃ = Signal.set_ready s false v₂ in
    let (shut₃, parks₃) = fence-shut i s v₃ bound₂ (ground arith) in
    (shut, parks, opened, awaited, (v₃, passes, shut₃, parks₃))
