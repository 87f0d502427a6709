-- ===== src/Queue/Shutdown.antt =====
-- The end of a queue: its last owner drops it, `Queue::run` of src/queue.rs leaves its loop and drops the
-- handles of the threads, and these leave theirs.
use mvsync.Base.{
  ℕ, zero, suc, ◌<◌, Bool, true, false, some, List, [], ◌∷◌, map, String, ◌≡◌, refl, sym, subst,
  ◌∙◌, ◌⊎◌, inl, inr, get_elem?, All, All-get_elem?, All-modify, All-of-map, arith,
}
use mvsync.World.{World}
use mvsync.Exec.{done, IfDone, IfDone-eq, IfDone-and_then}
use mvsync.Worker
use mvsync.Worker.{WorkerThread}
use mvsync.Queue
use mvsync.Queue.{Queue, MvSyncSpecs, push_all, new_threads, label_all}
use mvsync.Queue.Dispatch.{dispatch_all}
use mvsync.Queue.Leaving.{
  flags, IsLive, IsLeaving, WorkerStep-IsLive, WorkerStep-IsLeaving, drop-IsLeaving,
}
use mvsync.Queue.Kept.{map-dispatch_all}
use mvsync.Queue.System.{System, Step, Reach, fresh, threads-receive, receive-Closes}

-- Nothing waits in the queue, and nothing can come in.
abbrev pub IsQuiet : Queue → Type 0
IsQuiet q = (q.tasks ≡ []) × (q.channel ≡ []) × (q.connected ≡ false)

abbrev Phase : Queue → Type 0
Phase q = All IsLive q.threads ⊎ (IsQuiet q × All IsLeaving q.threads)

-- A round sends nothing if nothing is at hand, and keeps the flags of the threads anyway.
round-IsLive :
    (q q' : Queue) (v w : World)
    → Queue.round q v ≡ done q' w
    → All IsLive q.threads
    → All IsLive q'.threads
unfolding Queue.round Worker.send
round-IsLive q q' v w r live =
    IfDone-eq (λ x _. All IsLive x.threads)
      (IfDone-and_then (λ (_, us) _. map flags us ≡ map flags q.threads)
        (λ (x : Queue) _. All IsLive x.threads) (dispatch_all q.tasks q.threads v) _
        (map-dispatch_all flags (λ task t u. refl) q.tasks q.threads v)
        (λ (_, us) _ e.
          All-of-map (λ (b : Bool × ℕ). (b.0 ≡ true) × (b.1 ≡ 0)) flags q.threads us e live))
      r

round-IsQuiet :
    (q q' : Queue) (v w : World)
    → Queue.round q v ≡ done q' w
    → IsQuiet q
    → IsQuiet q' × (q'.threads ≡ q.threads)
unfolding Queue.round dispatch_all
round-IsQuiet q q' v w r (idle, empty, gone) =
    IfDone-eq (λ x _. IsQuiet x × (x.threads ≡ q.threads))
      (rw (idle, IfDone) ((refl, empty, gone), refl)) r

-- The loop does not go on if nothing is there.
receive-IsQuiet : (q : Queue) → IsQuiet q → Queue.receive q ≡ Queue.ends q
unfolding Queue.receive Queue.receive_none
receive-IsQuiet q (idle, empty, gone) = ground arith

release-Phase : (q : Queue) → IsQuiet q → Phase q → Phase (Queue.release q)
unfolding Queue.release
release-Phase q quiet (inl live) = inr (quiet, drop-IsLeaving q.threads (inl live))
release-Phase q quiet (inr (_, leaving)) = inr (quiet, drop-IsLeaving q.threads (inr leaving))

drop-Phase : (q : Queue) → Phase q → Phase (Queue.drop q)
unfolding Queue.drop
drop-Phase q (inl live) = inl live
drop-Phase q (inr ((idle, empty, _), leaving)) = inr ((idle, empty, refl), leaving)

Step-Phase : (a b : System) → Step a b → Phase a.queue → Phase b.queue
Step-Phase a b (Step.user e) p = subst Phase (sym e) p
Step-Phase a b (Step.submits ts open_end e) p = subst Phase (sym e) (from p)
  where
    from : Phase a.queue → Phase (push_all ts a.queue)
    from (inl live) = inl live
    from (inr ((_, _, gone), _)) = let no : true ≡ false = sym open_end ∙ gone in cc
Step-Phase a b (Step.drops e) p = subst Phase (sym e) (drop-Phase a.queue p)
Step-Phase a b (Step.closes q r e) p =
    let (same, idle, empty, gone) = receive-Closes a.queue q r in
    subst Phase (sym e)
      (release-Phase q (subst IsQuiet (sym same) (idle, empty, gone)) (subst Phase (sym same) p))
Step-Phase a b (Step.takes r) (inl live) =
    inl (subst (All IsLive) (sym (threads-receive a.queue b.queue r)) live)
Step-Phase a b (Step.takes r) (inr (quiet, _)) =
    let no : Queue.continues b.queue ≡ Queue.ends a.queue = sym r ∙ receive-IsQuiet a.queue quiet in
    cc
Step-Phase a b (Step.hands_out r) (inl live) =
    inl (round-IsLive a.queue b.queue a.world b.world r live)
Step-Phase a b (Step.hands_out r) (inr (quiet, leaving)) =
    let (quiet', same) = round-IsQuiet a.queue b.queue a.world b.world r quiet in
    inr (quiet', subst (All IsLeaving) (sym same) leaving)
Step-Phase a b (Step.works i t u at s e) (inl live) = subst Phase (sym e) (
    inl (
      All-modify IsLive a.queue.threads i u
        (WorkerStep-IsLive t u a.world b.world s (All-get_elem? IsLive a.queue.threads i t at live))
        live))
Step-Phase a b (Step.works i t u at s e) (inr (quiet, leaving)) = subst Phase (sym e) (
    inr (
      quiet,
      All-modify IsLeaving a.queue.threads i u
          (WorkerStep-IsLeaving t u a.world b.world s
            (All-get_elem? IsLeaving a.queue.threads i t at leaving))
          leaving,
    ))

new_threads-IsLive : (k n : ℕ) (w : World) → All IsLive (new_threads k n w).0
unfolding new_threads Worker.new
new_threads-IsLive zero n w = tt
new_threads-IsLive (suc k) n w = ((refl, refl), new_threads-IsLive k n _)

label_all-IsLive :
    (ls : List String) (ts : List WorkerThread) → All IsLive ts → All IsLive (label_all ls ts)
unfolding label_all Worker.set_label
label_all-IsLive [] ts live = live
label_all-IsLive (l ∷ ls) [] live = tt
label_all-IsLive (l ∷ ls) (t ∷ ts) (front, live) = (front, label_all-IsLive ls ts live)

Reach-Phase : (a b : System) → Reach a b → Phase a.queue → Phase b.queue
Reach-Phase a b Reach.here p = p
Reach-Phase a c (Reach.next {b = b} r s) p = Step-Phase b c s (Reach-Phase a b r p)

fresh-Phase :
    (specs : MvSyncSpecs) (labels : List String) (signal : ℕ) (w : World)
    → Phase (fresh specs labels signal w).queue
unfolding Queue.new
fresh-Phase specs labels signal w = inl (
    label_all-IsLive labels (new_threads specs.thread_count specs.workers_per_thread w).0
      (new_threads-IsLive specs.thread_count specs.workers_per_thread w))

-- However submissions, the loop of a new queue, the loops of its threads, user code and the drop of the queue
-- interleave: if a thread has left its loop, then the queue was dropped, no task is in its channel or at hand,
-- and none is left in the channel or among the futures of the thread.
pub Reach-fresh-ended :
    (specs : MvSyncSpecs) (labels : List String) (signal : ℕ) (w : World) (b : System) (i : ℕ)
    (t : WorkerThread)
    → Reach (fresh specs labels signal w) b
    → get_elem? b.queue.threads i ≡ some t
    → 0 < t.end
    → IsQuiet b.queue × (t.channel ≡ []) × (t.futures ≡ [])
Reach-fresh-ended specs labels signal w b i t r at ended =
    from (Reach-Phase (fresh specs labels signal w) b r (fresh-Phase specs labels signal w))
  where
    from : Phase b.queue → IsQuiet b.queue × (t.channel ≡ []) × (t.futures ≡ [])
    from (inl live) =
        let (_, e) = All-get_elem? IsLive b.queue.threads i t at live in absurd (omega arith)
    from (inr (quiet, leaving)) =
        elim ((All-get_elem? IsLeaving b.queue.threads i t at leaving).1) [
          | inl e ↦ absurd (omega arith)
          | inr (empty, idle) ↦ (quiet, empty, idle)
        ]
