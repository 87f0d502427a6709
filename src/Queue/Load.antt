-- ===== src/Queue/Load.antt =====
-- How many workers of a thread are free or taken: handing tasks out keeps the number.
use mvsync.Base.{
  ℕ, zero, suc, ◌^◌, ◌<◌, true, Option, none, some, List, [], ◌∷◌, map, ◌≡◌, refl, ap, ◌∙◌, inl,
  inr, ltb, if-cases, Bool-cases, Option-cases, get_elem?, length-append, All, arith,
}
use mvsync.World.{World}
use mvsync.Exec.{Exec, done, pure, ◌>>◌, Returns, Returns-and_then, Returns-done}
use mvsync.Task
use mvsync.Task.{Task}
use mvsync.Worker
use mvsync.Worker.Load.{load}
use mvsync.Worker.{WorkerThread}
use mvsync.Run.{pass_panic, pass_cancel}
use mvsync.Run.Settle.{pass_panic_lem}
use mvsync.Queue.Dispatch.{target_thread, send_to, offer, offer_to, assign, dispatch, dispatch_all}

-- The counter is an `AtomicU32`.
abbrev pub IsCounter : WorkerThread → Type 0
IsCounter t = t.free_workers < 2 ^ 32

send-load :
    (task : Task) (t : WorkerThread) (w : World)
    → 0 < t.free_workers
    → IsCounter t
    → (load (Worker.send task t w).0 ≡ load t) × IsCounter (Worker.send task t w).0
unfolding Worker.send
send-load task t w some_free fits = omega (arith, length-append t.channel (task ∷ []))

-- The loads after a task is sent to the thread at index `i`.
abbrev pub Balanced : List WorkerThread → List WorkerThread → Type 0
Balanced ts us = (map load us ≡ map load ts) × All IsCounter us

send_to-Balanced :
    (i : ℕ) (task : Task) (ts : List WorkerThread) (w : World) (c : WorkerThread)
    → get_elem? ts i ≡ some c
    → 0 < c.free_workers
    → All IsCounter ts
    → Balanced ts (send_to i task ts w).0
unfolding send_to
send_to-Balanced i task [] w c at some_free fits = (refl, tt)
send_to-Balanced zero task (t ∷ ts) w c at some_free fits =
    let s = send-load task t w (ground arith) fits.0 in
    (ap (λ n. n ∷ map load ts) s.0, (s.1, fits.1))
send_to-Balanced (suc i) task (t ∷ ts) w c at some_free fits =
    let (e, f) = send_to-Balanced i task ts w c at some_free fits.1 in
    (ap (λ ns. load t ∷ ns) e, (fits.0, f))

abbrev Keeps : List WorkerThread → Option Task × List WorkerThread → World → Type 0
Keeps ts (left, us) w = Balanced ts us

offer_to-Keeps :
    (c : Option WorkerThread) (i : ℕ) (task : Task) (ts : List WorkerThread) (w : World)
    → get_elem? ts i ≡ c
    → All IsCounter ts
    → Returns (Keeps ts) (offer_to c i task ts w)
unfolding offer_to
offer_to-Keeps none i task ts w e fits = (refl, fits)
offer_to-Keeps (some c) i task ts w e fits = elim (Bool-cases (ltb 0 c.free_workers)) [
  | inl free ↦ rw (free, Returns) (send_to-Balanced i task ts w c e (ground arith) fits)
  | inr full ↦ rw (full, Returns) (refl, fits)
]

assign-Keeps :
    (task : Task) (ts : List WorkerThread) (w : World)
    → All IsCounter ts
    → Returns (Keeps ts) (assign task ts w)
unfolding assign offer
assign-Keeps task ts w fits = elim (Option-cases (target_thread task ts)) [
  | inl e ↦ rw (e, Returns, assign) (refl, fits)
  | inr (i, e) ↦ rw (e, Returns, assign) (offer_to-Keeps (get_elem? ts i) i task ts w refl fits)
]

pass_panic-Keeps :
    (task : Task) (ts : List WorkerThread) (w : World)
    → All IsCounter ts
    → Task.is_panicked task w ≡ true
    → Returns (Keeps ts) ((pass_panic task >> pure (none, ts)) w)
pass_panic-Keeps task ts w fits panics = rw (pass_panic_lem task w panics) (refl, fits)

dispatch-Keeps :
    (task : Task) (ts : List WorkerThread) (w : World)
    → All IsCounter ts
    → Returns (Keeps ts) (dispatch task ts w)
unfolding dispatch pass_cancel
dispatch-Keeps task ts w fits =
    if-cases P (Task.can_execute task w) _ _
      (λ _.
        if-cases P (Task.is_panicked task w) _ _ (λ panics. pass_panic-Keeps task ts w fits panics)
          λ _.
            if-cases P (Task.is_cancelled task w) _ _ (λ _. (refl, fits))
              (λ _. assign-Keeps task ts w fits))
      (λ _. (refl, fits))
  where
    P : Exec (Option Task × List WorkerThread) → Type 0
    P = Returns (Keeps ts)

dispatch_all-Keeps :
    (tasks : List Task) (ts : List WorkerThread) (w : World)
    → All IsCounter ts
    → Returns (λ (left, us) _. Balanced ts us) (dispatch_all tasks ts w)
unfolding dispatch_all
dispatch_all-Keeps [] ts w fits = (refl, fits)
dispatch_all-Keeps (task ∷ tasks) ts w fits =
    Returns-and_then (Keeps ts) _ (dispatch task ts w) _ (dispatch-Keeps task ts w fits)
      λ (left, us) v (e, fits').
        Returns-and_then (λ (_, vs) _. Balanced us vs) _ (dispatch_all tasks us v) _
          (dispatch_all-Keeps tasks us v fits') λ (_, vs) _ (e', fits''). (e' ∙ e, fits'')

-- A round of the queue returns. It takes a free worker for each task that it sends, so that no thread
-- is sent more tasks than it has free workers, and no counter wraps below 0.
pub dispatch_all-load :
    (tasks : List Task) (ts : List WorkerThread) (w : World)
    → All IsCounter ts
    → (r : List Task × List WorkerThread) × (w' : World) × (dispatch_all tasks ts w ≡ done r w')
      × Balanced ts r.1
dispatch_all-load tasks ts w fits =
    Returns-done (λ (_, vs) _. Balanced ts vs) (dispatch_all tasks ts w)
      (dispatch_all-Keeps tasks ts w fits)
