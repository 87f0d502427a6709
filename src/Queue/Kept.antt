-- ===== src/Queue/Kept.antt =====
-- Handing tasks out leaves as it is what the threads have apart from their channels and counters.
use mvsync.Base.{
  ℕ, zero, suc, Option, none, some, List, [], ◌∷◌, map, ◌≡◌, refl, ap, ◌∙◌, inl, inr, ltb, if-cases,
  Option-cases, get_elem?,
}
use mvsync.World.{World}
use mvsync.Exec.{Exec, and_then, pure, IfDone, IfDone-and_then, IfDone-always}
use mvsync.Task
use mvsync.Task.{Task}
use mvsync.Worker
use mvsync.Worker.{WorkerThread}
use mvsync.Run.{pass_panic, pass_cancel}
use mvsync.Queue.Dispatch.{target_thread, send_to, offer, offer_to, assign, dispatch, dispatch_all}

-- What a thread has that sending it a task does not change.
module _ {A : Type 0} (g : WorkerThread → A)
    (keeps : (task : Task) (t : WorkerThread) (w : World) → g (Worker.send task t w).0 ≡ g t) where
  map-send_to :
      (i : ℕ) (task : Task) (ts : List WorkerThread) (w : World)
      → map g (send_to i task ts w).0 ≡ map g ts
  unfolding send_to
  map-send_to i task [] w = refl
  map-send_to zero task (t ∷ ts) w = ap (λ a. a ∷ map g ts) (keeps task t w)
  map-send_to (suc i) task (t ∷ ts) w = ap (λ bs. g t ∷ bs) (map-send_to i task ts w)

  abbrev Keeps {ℓ} : {B : Type ℓ} → List WorkerThread → B × List WorkerThread → World → Type 0
  Keeps ts (_, us) _ = map g us ≡ map g ts

  offer_to-Keeps :
      (c : Option WorkerThread) (i : ℕ) (task : Task) (ts : List WorkerThread) (w : World)
      → IfDone (Keeps ts) (offer_to c i task ts w)
  unfolding offer_to
  offer_to-Keeps none i task ts w = refl
  offer_to-Keeps (some c) i task ts w =
      if-cases (IfDone (Keeps ts)) (ltb 0 c.free_workers) _ _ (λ _. map-send_to i task ts w)
        (λ _. refl)

  assign-Keeps :
      (task : Task) (ts : List WorkerThread) (w : World) → IfDone (Keeps ts) (assign task ts w)
  unfolding assign offer
  assign-Keeps task ts w = elim (Option-cases (target_thread task ts)) [
    | inl e ↦ rw (e, IfDone, assign) refl
    | inr (i, e) ↦ rw (e, IfDone, assign) (offer_to-Keeps (get_elem? ts i) i task ts w)
  ]

  dispatch-Keeps :
      (task : Task) (ts : List WorkerThread) (w : World) → IfDone (Keeps ts) (dispatch task ts w)
  unfolding dispatch
  dispatch-Keeps task ts w =
      if-cases P (Task.can_execute task w) _ _
        (λ _.
          if-cases P (Task.is_panicked task w) _ _ (λ _. passes (pass_panic task w))
            λ _.
              if-cases P (Task.is_cancelled task w) _ _ (λ _. passes (pass_cancel task w))
                (λ _. assign-Keeps task ts w))
        (λ _. refl)
    where
      P : Exec (Option Task × List WorkerThread) → Type 0
      P = IfDone (Keeps ts)

      passes : (r : Exec (Unit {0})) → P (and_then r (λ _. pure (none, ts)))
      passes r =
          IfDone-and_then (λ _ _. Unit {0}) (Keeps ts) r _ (IfDone-always _ r (λ _ _. tt))
            (λ _ _ _. refl)

  pub map-dispatch_all :
      (tasks : List Task) (ts : List WorkerThread) (w : World)
      → IfDone (λ (_, us) _. map g us ≡ map g ts) (dispatch_all tasks ts w)
  unfolding dispatch_all
  map-dispatch_all [] ts w = refl
  map-dispatch_all (task ∷ tasks) ts w =
      IfDone-and_then (Keeps ts) (Keeps ts) (dispatch task ts w) _ (dispatch-Keeps task ts w)
        λ (kept, us) v e.
          IfDone-and_then (Keeps us) (Keeps ts) (dispatch_all tasks us v) _
            (map-dispatch_all tasks us v) (λ _ _ e'. e' ∙ e)
