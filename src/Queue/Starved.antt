-- ===== src/Queue/Starved.antt =====
-- What a lost worker means for the queue: see also `poll_all-panics`.
use mvsync.Base.{
  ℕ, zero, suc, Option, none, some, List, [], ◌∷◌, ◌≡◌, refl, inl, inr, if-cases, Option-cases,
  get_elem?, All, arith,
}
use mvsync.World.{World, Value, context}
use mvsync.Exec.{Exec, done, unwinds, Returns, Returns-and_then}
use mvsync.Task
use mvsync.Task.{Task}
use mvsync.Task.Body
use mvsync.Run.{pass_cancel}
use mvsync.Run.Settle.{pass_panic_lem}
use mvsync.Worker.{WorkerThread, Running, poll_all}
use mvsync.Worker.Leak.{emptied, poll_all-panics}
use mvsync.Queue.Dispatch.{target_thread, offer, offer_to, assign, dispatch, dispatch_all}

abbrev IsFull : WorkerThread → Type 0
IsFull t = t.free_workers ≡ 0

abbrev Same : List WorkerThread → Option Task × List WorkerThread → World → Type 0
Same ts (_, us) _ = us ≡ ts

full-get :
    (ts : List WorkerThread) (i : ℕ) (c : WorkerThread)
    → All IsFull ts
    → get_elem? ts i ≡ some c
    → c.free_workers ≡ 0
full-get [] i c f e = cc
full-get (t ∷ ts) zero c f e = ground arith
full-get (t ∷ ts) (suc i) c f e = full-get ts i c f.1 e

offer_to-Same :
    (c : Option WorkerThread) (i : ℕ) (u : Task) (ts : List WorkerThread) (w : World)
    → get_elem? ts i ≡ c
    → All IsFull ts
    → Returns (Same ts) (offer_to c i u ts w)
unfolding offer_to
offer_to-Same none i u ts w e full = refl
offer_to-Same (some c) i u ts w e full = rw (full-get ts i c full e, Returns) refl

assign-Same :
    (u : Task) (ts : List WorkerThread) (w : World)
    → All IsFull ts
    → Returns (Same ts) (assign u ts w)
unfolding assign offer
assign-Same u ts w full = elim (Option-cases (target_thread u ts)) [
  | inl e ↦ rw (e, Returns, assign) refl
  | inr (i, e) ↦ rw (e, Returns, assign) (offer_to-Same (get_elem? ts i) i u ts w refl full)
]

dispatch-Same :
    (u : Task) (ts : List WorkerThread) (w : World)
    → All IsFull ts
    → Returns (Same ts) (dispatch u ts w)
unfolding dispatch pass_cancel
dispatch-Same u ts w full =
    if-cases P (Task.can_execute u w) _ _
      (λ _.
        if-cases P (Task.is_panicked u w) _ _ (λ panics. rw (pass_panic_lem u w panics) refl)
          λ _. if-cases P (Task.is_cancelled u w) _ _ (λ _. refl) (λ _. assign-Same u ts w full))
      (λ _. refl)
  where
    P : Exec (Option Task × List WorkerThread) → Type 0
    P = Returns (Same ts)

dispatch_all-Same :
    (us : List Task) (ts : List WorkerThread) (w : World)
    → All IsFull ts
    → Returns (λ (_, vs) _. vs ≡ ts) (dispatch_all us ts w)
unfolding dispatch_all
dispatch_all-Same [] ts w full = refl
dispatch_all-Same (u ∷ us) ts w full =
    Returns-and_then (Same ts) _ (dispatch u ts w) _ (dispatch-Same u ts w full) λ (left, vs) v e.
      rw e (
        Returns-and_then (λ (_, xs) _. xs ≡ ts) _ (dispatch_all us ts v) _
          (dispatch_all-Same us ts v full) λ _ _ e'. e')

-- A queue whose one thread runs its last free worker's task, where that task panics, never hands out a
-- task again: the thread is idle, and in any later world every round leaves it as it is.
pub panic_starves :
    (t : WorkerThread) (r : Running) (p : Value) (w v : World)
    → t.futures ≡ r ∷ []
    → t.channel ≡ []
    → t.free_workers ≡ 0
    → Body.poll (context t.signal) r.inner w ≡ unwinds p v
    → (t' : WorkerThread) × (w' : World) × (poll_all t w ≡ done t' w')
      × (t'.futures ≡ [])
      × (t'.channel ≡ [])
      × ((us : List Task) (x : World)
          → Returns (λ (_, ts) _. ts ≡ t' ∷ []) (dispatch_all us (t' ∷ []) x))
panic_starves t r p w v e idle full panics =
    let (w', polls, _) = poll_all-panics t r p w v e panics in
    (emptied t, w', polls, refl, idle, λ us x. dispatch_all-Same us (emptied t ∷ []) x (full, tt))
