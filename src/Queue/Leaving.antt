-- ===== src/Queue/Leaving.antt =====
-- The threads of a queue of src/queue.rs before and after their handles are dropped.
use mvsync.Base.{
  ℕ, Bool, true, false, List, [], ◌∷◌, map, ◌≡◌, refl, sym, ap, subst, ◌∙◌, ◌⊎◌, inl, inr, All,
  arith,
}
use mvsync.World.{World}
use mvsync.Exec.{done, IfDone, IfDone-always, IfDone-eq, IfDone-and_then}
use mvsync.Worker
use mvsync.Worker.{WorkerThread}
use mvsync.Worker.Received.{Received, receive-Received, receive-drained}
use mvsync.Queue.System.{WorkerStep}

abbrev pub flags : WorkerThread → Bool × ℕ
flags t = (t.connected, t.end)

-- The queue holds the thread's handle, and the thread is in its loop.
abbrev pub IsLive : WorkerThread → Type 0
IsLive t = (t.connected ≡ true) × (t.end ≡ 0)

-- The handle is gone, and the thread is in its loop or has nothing left.
abbrev pub IsLeaving : WorkerThread → Type 0
IsLeaving t = (t.connected ≡ false) × ((t.end ≡ 0) ⊎ ((t.channel ≡ []) × (t.futures ≡ [])))

-- A pass keeps the flags and the channel.
abbrev Polled : WorkerThread → WorkerThread → World → Type 0
Polled t u _ = (u.connected ≡ t.connected) × (u.end ≡ t.end) × (u.channel ≡ t.channel)

poll_all-Polled : (t : WorkerThread) (w : World) → IfDone (Polled t) (Worker.poll_all t w)
unfolding Worker.poll_all
poll_all-Polled t w =
    IfDone-and_then (λ _ _. Unit {0}) (Polled t) (Worker.retain t.signal t.futures t.free_workers w)
      _ (IfDone-always _ (Worker.retain t.signal t.futures t.free_workers w) (λ _ _. tt))
      (λ _ _ _. (refl, refl, refl))

poll_all-idle :
    (t u : WorkerThread) (v w : World)
    → t.futures ≡ []
    → Worker.poll_all t v ≡ done u w
    → u.futures ≡ []
unfolding Worker.poll_all Worker.retain
poll_all-idle t u v w idle e = IfDone-eq (λ x _. x.futures ≡ []) (rw (idle, IfDone) refl) e

pub WorkerStep-IsLive :
    (t u : WorkerThread) (v w : World) → WorkerStep t u v w → IsLive t → IsLive u
WorkerStep-IsLive t u v w (WorkerStep.receives r) live =
    let (c, e) = subst (Received t) r (receive-Received t) in (c ∙ live.0, e ∙ live.1)
WorkerStep-IsLive t u v w (WorkerStep.polls r) live =
    let (c, e, _) = IfDone-eq (Polled t) (poll_all-Polled t v) r in (c ∙ live.0, e ∙ live.1)
WorkerStep-IsLive t u v w (WorkerStep.ends t' r e) live =
    elim ((subst (Received t) r (receive-Received t)).2) [
      | inl told ↦ absurd (omega arith)
      | inr (_, gone) ↦ (let no : true ≡ false = sym (live.0) ∙ gone in cc)
    ]

pub WorkerStep-IsLeaving :
    (t u : WorkerThread) (v w : World) → WorkerStep t u v w → IsLeaving t → IsLeaving u
WorkerStep-IsLeaving t u v w (WorkerStep.receives r) (gone, inl live) =
    let (c, e) = subst (Received t) r (receive-Received t) in (c ∙ gone, inl (e ∙ live))
WorkerStep-IsLeaving t u v w (WorkerStep.receives r) (gone, inr (empty, idle)) =
    let stuck : Worker.continues u ≡ Worker.ends t = sym r ∙ receive-drained t idle empty gone in cc
WorkerStep-IsLeaving t u v w (WorkerStep.polls r) (gone, why) =
    let (c, e, same) = IfDone-eq (Polled t) (poll_all-Polled t v) r in
    let still : u.connected ≡ false = c ∙ gone in
    elim why [
      | inl live ↦ (still, inl (e ∙ live))
      | inr (empty, idle) ↦ (still, inr (same ∙ empty, poll_all-idle t u v w idle r))
    ]
WorkerStep-IsLeaving t u v w (WorkerStep.ends t' r e) (gone, why) =
    let (same, idle, told) = subst (Received t) r (receive-Received t) in
    let empty : t.channel ≡ [] = elim told [
      | inr (empty, _) ↦ empty
      | inl ended ↦ elim why [ inl live ↦ absurd (omega arith) | inr (empty, _) ↦ empty ]
    ] in
    (
      ap (λ x. x.connected) e ∙ ap (λ x. x.connected) same ∙ gone,
      inr (
        ap (λ x. x.channel) e ∙ ap (λ x. x.channel) same ∙ empty,
        ap (λ x. x.futures) e ∙ ap (λ x. x.futures) same ∙ idle,
      ),
    )

pub drop-IsLeaving :
    (ts : List WorkerThread) → All IsLive ts ⊎ All IsLeaving ts → All IsLeaving (map Worker.drop ts)
unfolding Worker.drop
drop-IsLeaving [] l = tt
drop-IsLeaving (t ∷ ts) (inl ((_, e), l)) = ((refl, inl e), drop-IsLeaving ts (inl l))
drop-IsLeaving (t ∷ ts) (inr ((_, why), l)) = ((refl, why), drop-IsLeaving ts (inr l))
