-- ===== src/Queue/Sends.antt =====
-- A task that can be executed and prefers no thread: `Queue::run` in src/queue.rs sends it in one round if a
-- thread has a free worker.
use mvsync.Base.{
  ℕ, zero, suc, ◌<◌, true, false, not, Option, String, none, some, List, [], ◌∷◌, ◌≡◌, refl, sym,
  ap, subst, ◌∙◌, inl, inr, ltb, Option-cases, get_elem?, arith,
}
use mathlib.Core.Option.{some-injective}
use mvsync.World.{World}
use mvsync.Exec.{done}
use mvsync.Task
use mvsync.Task.{Task}
use mvsync.Worker
use mvsync.Worker.{WorkerThread}
use mvsync.Queue.Dispatch.{
  contains, allowed, target_thread, send_to, offer, offer_to, assign, dispatch,
}
use mvsync.Queue.Choice.{target_thread-IsBest, target_thread-none}

pub get_elem?-send_to :
    (i : ℕ) (task : Task) (ts : List WorkerThread) (w : World) (c : WorkerThread)
    → get_elem? ts i ≡ some c
    → get_elem? (send_to i task ts w).0 i ≡ some (Worker.send task c w).0
unfolding send_to Worker.send
get_elem?-send_to i task [] w c e = cc
get_elem?-send_to zero task (t ∷ ts) w c e =
    ap (λ x. some (Worker.send task x w).0) (some-injective _ _ e)
get_elem?-send_to (suc i) task (t ∷ ts) w c e = get_elem?-send_to i task ts w c e

allowed_anywhere : (d : WorkerThread) → allowed [] d ≡ true
allowed_anywhere d = by_label d.label
  where
    by_label : (l : Option String) → elim l [ none ↦ true | some m ↦ not (contains [] m) ] ≡ true
    by_label none = refl
    by_label (some m) = refl

module _ (task : Task) (ts : List WorkerThread) (w : World) (j : ℕ) (d : WorkerThread)
    (anywhere : task.preferred_thread ≡ none) (nowhere_excluded : task.not_on ≡ [])
    (at : get_elem? ts j ≡ some d) (free : 0 < d.free_workers) where
  -- The task went to a thread that had a free worker.
  abbrev pub Sent : Type 0
  Sent =
      (i : ℕ) × (c : WorkerThread) × (get_elem? ts i ≡ some c)
      × (0 < c.free_workers)
      × (dispatch task ts w ≡ done (none, (send_to i task ts w).0) (send_to i task ts w).1)

  sends :
      (i : ℕ) (c : WorkerThread)
      → Task.can_execute task w ≡ true
      → Task.is_panicked task w ≡ false
      → Task.is_cancelled task w ≡ false
      → target_thread task ts ≡ some i
      → get_elem? ts i ≡ some c
      → 0 < c.free_workers
      → dispatch task ts w ≡ done (none, (send_to i task ts w).0) (send_to i task ts w).1
  unfolding dispatch assign offer offer_to
  sends i c can sound uncancelled e at_i more =
      let positive : ltb 0 c.free_workers ≡ true = ground arith in
      rw can (rw sound (rw uncancelled (rw (e, assign) (rw (at_i, offer_to) (rw positive refl)))))

  pub dispatch-Sent :
      Task.can_execute task w ≡ true
      → Task.is_panicked task w ≡ false
      → Task.is_cancelled task w ≡ false
      → Sent
  unfolding dispatch assign offer offer_to
  dispatch-Sent can sound uncancelled = elim (Option-cases (target_thread task ts)) [
    | inl e ↦
        absurd (true≢false (sym (allowed_here d) ∙ target_thread-none task ts j d anywhere e at))
    | inr (i, e) ↦
        let (c, (at_i, ok, top)) = target_thread-IsBest task ts i anywhere e in
        let more : 0 < c.free_workers = omega (arith, (top j d at (allowed_here d)).0) in
        (i, c, at_i, more, sends i c can sound uncancelled e at_i more)
  ]
    where
      allowed_here : (c : WorkerThread) → allowed task.not_on c ≡ true
      allowed_here c = subst (λ l. allowed l c ≡ true) (sym nowhere_excluded) (allowed_anywhere c)

      true≢false : true ≡ false → ⊥
      true≢false e = cc
