-- ===== src/Queue/Asleep.antt =====
-- Tasks that ask for a thread that is not there: a round of `Queue::run` in src/queue.rs only drops what they
-- ask for, and the queue then waits for its signal.
use mvsync.Base.{
  ℕ, ◌<◌, true, false, none, some, List, [], ◌∷◌, map, String, ◌≡◌, refl, subst, sym, ap, get_elem?,
  All,
}
use mvsync.World.{World}
use mvsync.Exec.{done, blocks}
use mvsync.Signal
use mvsync.Task
use mvsync.Task.{Task}
use mvsync.Worker.{WorkerThread}
use mvsync.Queue
use mvsync.Queue.{Queue}
use mvsync.Queue.Dispatch.{find_label, target_thread, assign, relax, dispatch, dispatch_all}
use mvsync.Queue.Sends.{dispatch-Sent}

-- The task can be executed, excludes no thread, and prefers one that is not there.
pub record IsHomeless (ts : List WorkerThread) (w : World) (t : Task) : Type 0 where
  pub label : String
  pub prefers : t.preferred_thread ≡ some label
  pub missing : find_label label ts ≡ none
  pub not_on : t.not_on ≡ []
  pub can : Task.can_execute t w ≡ true
  pub sound : Task.is_panicked t w ≡ false
  pub uncancelled : Task.is_cancelled t w ≡ false

-- A round would send the task.
abbrev pub CanBeSent : List WorkerThread → World → Task → Type 0
CanBeSent ts w t = (us : List WorkerThread) × (w' : World) × (dispatch t ts w ≡ done (none, us) w')

module _ (ts : List WorkerThread) (w : World) where
  relax-IsHomeless : (t : Task) → IsHomeless ts w t → relax t ≡ record t { preferred_thread = none }
  unfolding relax Task.remove_preferred_thread
  relax-IsHomeless t h = rw (h.prefers) refl

  dispatch-relax : (t : Task) → IsHomeless ts w t → dispatch t ts w ≡ done (some (relax t), ts) w
  unfolding dispatch assign target_thread relax Task.remove_preferred_thread
  dispatch-relax t h = rw (h.can) (
      rw (h.sound) (
        rw (h.uncancelled) (
          rw (h.prefers, assign)
            (rw (h.missing) (ap (λ u. done (some u, ts) w) (relax-IsHomeless t h))))))

  dispatch_all-relax :
      (us : List Task) → All (IsHomeless ts w) us → dispatch_all us ts w ≡ done (map relax us, ts) w
  unfolding dispatch_all
  dispatch_all-relax [] hs = refl
  dispatch_all-relax (u ∷ us) (h, hs) = rw (dispatch-relax u h) (rw (dispatch_all-relax us hs) refl)

  relax-CanBeSent :
      (j : ℕ) (d : WorkerThread)
      → get_elem? ts j ≡ some d
      → 0 < d.free_workers
      → (t : Task) → IsHomeless ts w t
      → CanBeSent ts w (relax t)
  unfolding Task.can_execute Task.is_panicked Task.is_cancelled
  relax-CanBeSent j d at free t h = subst (CanBeSent ts w) (sym (relax-IsHomeless t h)) (
      let (i, c, at_i, more, sends) =
        dispatch-Sent (record t { preferred_thread = none }) ts w j d refl h.not_on at free h.can
          h.sound h.uncancelled in
      (_, _, sends))

  map-relax-CanBeSent :
      (j : ℕ) (d : WorkerThread)
      → get_elem? ts j ≡ some d
      → 0 < d.free_workers
      → (us : List Task) → All (IsHomeless ts w) us
      → All (CanBeSent ts w) (map relax us)
  map-relax-CanBeSent j d at free [] hs = tt
  map-relax-CanBeSent j d at free (u ∷ us) (h, hs) =
      (relax-CanBeSent j d at free u h, map-relax-CanBeSent j d at free us hs)

-- If every task that a queue has at hand could be executed but excludes no thread and prefers one that is not
-- there, and the signal of the queue is down, a round leaves all of them at hand, and the queue is parked,
-- although some thread has a free worker and a further round would send any of them.
pub round_sleeps :
    (q : Queue) (t : Task) (ts : List Task) (w : World) (j : ℕ) (d : WorkerThread)
    → q.tasks ≡ t ∷ ts
    → All (IsHomeless q.threads w) q.tasks
    → (w.signals q.signal).ready ≡ false
    → get_elem? q.threads j ≡ some d
    → 0 < d.free_workers
    → (q' : Queue) × (Queue.round q w ≡ done q' w)
      × (Queue.park q' w ≡ blocks w)
      × (q'.threads ≡ q.threads)
      × (q'.tasks ≡ map relax q.tasks)
      × All (CanBeSent q'.threads w) q'.tasks
unfolding Queue.round Queue.park Signal.wait
round_sleeps q t ts w j d at_hand homeless down at free = (
  record q { tasks = map relax q.tasks },
  rw (dispatch_all-relax q.threads w q.tasks homeless) refl,
  rw at_hand (rw down refl),
  refl,
  refl,
  map-relax-CanBeSent q.threads w j d at free q.tasks homeless,
)
