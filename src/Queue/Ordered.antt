-- ===== src/Queue/Ordered.antt =====
-- Semaphores order tasks: `Queue::run` of src/queue.rs sends no task to a thread before the semaphores that
-- it waits for are signalled.
use mvsync.Base.{
  ℕ, zero, suc, Bool, true, ◌||◌, Option, none, some, List, [], ◌∷◌, ◌≡◌, refl, ap, ◌∙◌, inl, inr,
  ltb, is_empty, if-cases, Option-cases, get_elem?, all, All, All-append, All-mono, arith,
}
use mvsync.World.{World, TaskState, unit, set_state}
use mvsync.Exec.{Exec, IfDone, IfDone-and_then}
use mvsync.Signal.Frame.{wake-SameData}
use mvsync.Sync.Semaphore
use mvsync.Task
use mvsync.Task.{Task}
use mvsync.Worker.{WorkerThread}
use mvsync.Worker.Semaphores.{Signals, Signals-trans, settle-Signals}
use mvsync.Run.{settle, pass_cancel}
use mvsync.Run.Settle.{pass_panic_lem}
use mvsync.Queue.Dispatch.{target_thread, send_to, offer, offer_to, assign, dispatch, dispatch_all}

-- All semaphores that the task waits for are signalled.
abbrev pub IsSignalled : World → Task → Type 0
IsSignalled w t = All (λ s. w.semaphores s ≡ true) t.wait

-- So it is for every task in a thread's channel.
abbrev pub IsOrdered : World → List WorkerThread → Type 0
IsOrdered w = All (λ t. All (IsSignalled w) t.channel)

pub tasks-Signals :
    (v w : World) (ts : List Task) → Signals v w → All (IsSignalled v) ts → All (IsSignalled w) ts
tasks-Signals v w ts s =
    All-mono (IsSignalled v) (IsSignalled w) ts
      (λ t. All-mono (λ i. v.semaphores i ≡ true) (λ i. w.semaphores i ≡ true) t.wait s)

pub threads-Signals :
    (v w : World) (ts : List WorkerThread) → Signals v w → IsOrdered v ts → IsOrdered w ts
threads-Signals v w ts s =
    All-mono (λ t. All (IsSignalled v) t.channel) (λ t. All (IsSignalled w) t.channel) ts
      (λ t. tasks-Signals v w t.channel s)

all-All : (p : ℕ → Bool) (ss : List ℕ) → all p ss ≡ true → All (λ s. p s ≡ true) ss
all-All p [] h = tt
all-All p (s ∷ ss) h =
    let first : p s ≡ true = ground arith in
    let rest : all p ss ≡ true = ground arith in (first, all-All p ss rest)

can_execute-IsSignalled : (t : Task) (w : World) → Task.can_execute t w ≡ true → IsSignalled w t
unfolding Task.can_execute Semaphore.ready
can_execute-IsSignalled t w h = from t.wait (ground (arith, h))
  where
    from :
        (ss : List ℕ)
        → (is_empty ss || all (λ s. w.semaphores s) ss) ≡ true
        → All (λ s. w.semaphores s ≡ true) ss
    from [] h = tt
    from (s ∷ ss) h = all-All (λ s. w.semaphores s) (s ∷ ss) h

-- What a round keeps: the threads are ordered, and no semaphore was reset.
abbrev pub Keeps {ℓ} : {A : Type ℓ} → World → A × List WorkerThread → World → Type 0
Keeps v (_, ts) w = IsOrdered w ts × Signals v w

send_to-semaphores :
    (i : ℕ) (task : Task) (ts : List WorkerThread) (w : World)
    → (send_to i task ts w).1.semaphores ≡ w.semaphores
unfolding send_to
send_to-semaphores i task [] w = refl
send_to-semaphores zero task (t ∷ ts) w = (wake-SameData t.signal w).semaphores
send_to-semaphores (suc i) task (t ∷ ts) w = send_to-semaphores i task ts w

send_to-IsOrdered :
    (i : ℕ) (task : Task) (ts : List WorkerThread) (v w : World)
    → IsSignalled v task
    → IsOrdered v ts
    → IsOrdered v (send_to i task ts w).0
unfolding send_to
send_to-IsOrdered i task [] v w s o = tt
send_to-IsOrdered zero task (t ∷ ts) v w s (front, o) =
    (All-append (IsSignalled v) t.channel (task ∷ []) front (s, tt), o)
send_to-IsOrdered (suc i) task (t ∷ ts) v w s (front, o) =
    (front, send_to-IsOrdered i task ts v w s o)

module _ (v : World) where
  send_to-Keeps :
      (i : ℕ) (task : Task) (ts : List WorkerThread) (w : World)
      → IsSignalled w task
      → IsOrdered w ts
      → Signals v w
      → Keeps {A = Option Task} v (none, (send_to i task ts w).0) (send_to i task ts w).1
  send_to-Keeps i task ts w s o g =
      let w' = (send_to i task ts w).1 in
      let same : Signals w w' = λ k e. ap (λ f. f k) (send_to-semaphores i task ts w) ∙ e in
      (
        threads-Signals w w' (send_to i task ts w).0 same (send_to-IsOrdered i task ts w w s o),
        Signals-trans v w w' g same,
      )

  offer_to-Keeps :
      (c : Option WorkerThread) (i : ℕ) (task : Task) (ts : List WorkerThread) (w : World)
      → IsSignalled w task
      → IsOrdered w ts
      → Signals v w
      → IfDone (Keeps v) (offer_to c i task ts w)
  unfolding offer_to
  offer_to-Keeps none i task ts w s o g = (o, g)
  offer_to-Keeps (some c) i task ts w s o g =
      if-cases (IfDone (Keeps v)) (ltb 0 c.free_workers) _ _ (λ _. send_to-Keeps i task ts w s o g)
        (λ _. (o, g))

  assign-Keeps :
      (task : Task) (ts : List WorkerThread) (w : World)
      → IsSignalled w task
      → IsOrdered w ts
      → Signals v w
      → IfDone (Keeps v) (assign task ts w)
  unfolding assign offer
  assign-Keeps task ts w s o g = elim (Option-cases (target_thread task ts)) [
    | inl e ↦ rw (e, IfDone, assign) (o, g)
    | inr (i, e) ↦ rw (e, IfDone, assign) (offer_to-Keeps (get_elem? ts i) i task ts w s o g)
  ]

  settled-Keeps :
      (task : Task) (s : TaskState) (ts : List WorkerThread) (w : World)
      → IsOrdered w ts
      → Signals v w
      → Keeps {A = Option Task} v
          (none, ts)
          (settle task.semaphores task.signal (set_state task.self_state s w))
  settled-Keeps task s ts w o g =
      let w₁ = set_state task.self_state s w in
      let up = settle-Signals task.semaphores task.signal w₁ in
      let w₂ = settle task.semaphores task.signal w₁ in
      (threads-Signals w w₂ ts up o, Signals-trans v w w₂ g up)

  dispatch-Keeps :
      (task : Task) (ts : List WorkerThread) (w : World)
      → IsOrdered w ts
      → Signals v w
      → IfDone (Keeps v) (dispatch task ts w)
  unfolding dispatch pass_cancel
  dispatch-Keeps task ts w o g =
      if-cases P (Task.can_execute task w) _ _
        (λ can.
          if-cases P (Task.is_panicked task w) _ _
            (λ panics.
              rw (pass_panic_lem task w panics)
                (settled-Keeps task (TaskState.panicked unit) ts w o g))
            λ _.
              if-cases P (Task.is_cancelled task w) _ _
                (λ _. settled-Keeps task TaskState.cancelled ts w o g)
                (λ _. assign-Keeps task ts w (can_execute-IsSignalled task w can) o g))
        (λ _. (o, g))
    where
      P : Exec (Option Task × List WorkerThread) → Type 0
      P = IfDone (Keeps v)

  pub dispatch_all-Keeps :
      (tasks : List Task) (ts : List WorkerThread) (w : World)
      → IsOrdered w ts
      → Signals v w
      → IfDone (Keeps v) (dispatch_all tasks ts w)
  unfolding dispatch_all
  dispatch_all-Keeps [] ts w o g = (o, g)
  dispatch_all-Keeps (task ∷ tasks) ts w o g =
      IfDone-and_then (Keeps v) (Keeps v) (dispatch task ts w) _ (dispatch-Keeps task ts w o g)
        λ (kept, us) w' (o', g').
          IfDone-and_then (Keeps v) (Keeps v) (dispatch_all tasks us w') _
            (dispatch_all-Keeps tasks us w' o' g') (λ _ _ k. k)
