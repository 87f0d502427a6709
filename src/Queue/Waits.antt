-- ===== src/Queue/Waits.antt =====
-- Semaphores order tasks, whatever the queue, its threads and their users do.
use mvsync.Base.{
  ℕ, zero, suc, Bool, ◌&&◌, ◌||◌, List, [], ◌∷◌, String, ◌≡◌, sym, subst, ltb, is_empty, if-cases,
  some, map, ap, ◌∙◌, false, get_elem?, modify, All, All-get_elem?, All-modify,
}
use mvsync.World.{World}
use mvsync.Exec.{done, IfDone-and_then, IfDone-eq}
use mvsync.Task.{Task}
use mvsync.Worker
use mvsync.Worker.{WorkerThread}
use mvsync.Worker.Received.{Received, receive-Received}
use mvsync.Worker.Stops.{Passed, poll_all-Passed}
use mvsync.Worker.Semaphores.{Signals, poll_all-Signals}
use mvsync.Queue
use mvsync.Queue.{Queue, MvSyncSpecs, new_threads, label_all}
use mvsync.Queue.System.{
  System, WorkerStep, Step, Reach, threads-receive, threads-drop, receive-Closes, fresh,
}
use mvsync.Queue.Ordered.{
  IsSignalled, IsOrdered, Keeps, tasks-Signals, threads-Signals, dispatch_all-Keeps,
}

-- Where a step leaves room for what other threads do to the world meanwhile, they reset no semaphore.
abbrev pub OnlySignals : {a b : System} → Step a b → Type 0
OnlySignals {a = a} {b = b} (Step.user q) = Signals a.world b.world
OnlySignals {a = a} {b = b} (Step.submits ts live q) = Signals a.world b.world
OnlySignals {a = a} {b = b} (Step.drops q) = Signals a.world b.world
OnlySignals {a = a} {b = b} (Step.closes q r e) = Signals a.world b.world
OnlySignals {a = a} {b = b} (Step.takes r) = Signals a.world b.world
OnlySignals (Step.hands_out r) = Unit {0}
OnlySignals {a = a} {b = b} (Step.works i t u at (WorkerStep.receives r) q) =
    Signals a.world b.world
OnlySignals (Step.works i t u at (WorkerStep.polls r) q) = Unit {0}
OnlySignals {a = a} {b = b} (Step.works i t u at (WorkerStep.ends t' r e) q) =
    Signals a.world b.world

abbrev pub AllOnlySignals : {a b : System} → Reach a b → Type 0
AllOnlySignals Reach.here = Unit {0}
AllOnlySignals (Reach.next r s) = AllOnlySignals r × OnlySignals s

-- A thread takes from the front of its channel, or everything.
abbrev Leftover : (Task → Type 0) → Worker.Turn → Type 0
Leftover P (Worker.continues u) = All P u.channel
Leftover P _ = Unit {0}

receive-Leftover :
    (P : Task → Type 0) (e : Bool) (t : WorkerThread)
    → All P t.channel
    → Leftover P (Worker.receive e t)
unfolding Worker.receive Worker.receive_first Worker.receive_none Worker.receive_all
receive-Leftover P e t all =
    if-cases (Leftover P) (is_empty t.futures) _ _
      (λ _.
        if-cases (Leftover P) (ltb 0 t.end || (e && is_empty t.channel)) _ _ (λ _. tt)
          (λ _. first t.channel all))
      (λ _. tt)
  where
    first :
        (ts : List Task)
        → All P ts
        → Leftover P (elim ts [
          | [] ↦ Worker.receive_none t
          | task ∷ rest ↦
              Worker.continues (record t { channel = rest; futures = Worker.start task ∷ [] })
        ])
    first [] all = if-cases (Leftover P) t.connected _ _ (λ _. tt) (λ _. tt)
    first (task ∷ rest) (_, all) = all

works-IsOrdered :
    (v w : World) (ts : List WorkerThread) (i : ℕ) (u : WorkerThread)
    → Signals v w
    → All (IsSignalled w) u.channel
    → IsOrdered v ts
    → IsOrdered w (modify ts i (λ _. u))
works-IsOrdered v w ts i u s all o =
    All-modify (λ t. All (IsSignalled w) t.channel) ts i u all (threads-Signals v w ts s o)

channel-IsSignalled :
    (v : World) (ts : List WorkerThread) (i : ℕ) (t : WorkerThread)
    → get_elem? ts i ≡ some t
    → IsOrdered v ts
    → All (IsSignalled v) t.channel
channel-IsSignalled v ts i t at o = All-get_elem? (λ t. All (IsSignalled v) t.channel) ts i t at o

round-IsOrdered :
    (q q' : Queue) (v w : World)
    → Queue.round q v ≡ done q' w
    → IsOrdered v q.threads
    → IsOrdered w q'.threads
unfolding Queue.round
round-IsOrdered q q' v w e o =
    IfDone-eq (λ x u. IsOrdered u x.threads)
      (IfDone-and_then (Keeps v) (λ x u. IsOrdered u x.threads) _ _
        (dispatch_all-Keeps v q.tasks q.threads v o (λ _ up. up)) (λ _ _ k. k.0))
      e

release-IsOrdered :
    (w : World) (q : Queue) → IsOrdered w q.threads → IsOrdered w (Queue.release q).threads
unfolding Queue.release
release-IsOrdered w q o = from q.threads o
  where
    from : (ts : List WorkerThread) → IsOrdered w ts → IsOrdered w (map Worker.drop ts)
    from [] o = tt
    from (t ∷ ts) o = (o.0, from ts o.1)

Step-IsOrdered :
    (a b : System) (s : Step a b)
    → OnlySignals s
    → IsOrdered a.world a.queue.threads
    → IsOrdered b.world b.queue.threads
Step-IsOrdered a b (Step.user q) m o =
    subst (λ x. IsOrdered b.world x.threads) (sym q)
      (threads-Signals a.world b.world a.queue.threads m o)
Step-IsOrdered a b (Step.submits ts live q) m o =
    subst (λ x. IsOrdered b.world x.threads) (sym q)
      (threads-Signals a.world b.world a.queue.threads m o)
Step-IsOrdered a b (Step.drops q) m o =
    subst (λ x. IsOrdered b.world x.threads) (sym q)
      (subst (IsOrdered b.world) (sym (threads-drop a.queue))
        (threads-Signals a.world b.world a.queue.threads m o))
Step-IsOrdered a b (Step.closes q r e) m o =
    subst (λ x. IsOrdered b.world x.threads) (sym e)
      (release-IsOrdered b.world q (
        threads-Signals a.world b.world q.threads m
          (subst (λ x. IsOrdered a.world x.threads) (sym ((receive-Closes a.queue q r).0)) o)))
Step-IsOrdered a b (Step.takes r) m o =
    subst (IsOrdered b.world) (sym (threads-receive a.queue b.queue r))
      (threads-Signals a.world b.world a.queue.threads m o)
Step-IsOrdered a b (Step.hands_out r) m o = round-IsOrdered a.queue b.queue a.world b.world r o
Step-IsOrdered a b (Step.works i t u at (WorkerStep.receives r) q) m o =
    let left = subst (Leftover (IsSignalled a.world)) r (
      receive-Leftover (IsSignalled a.world) false t
        (channel-IsSignalled a.world a.queue.threads i t at o)) in
    subst (λ x. IsOrdered b.world x.threads) (sym q)
      (works-IsOrdered a.world b.world a.queue.threads i u m
        (tasks-Signals a.world b.world u.channel m left) o)
Step-IsOrdered a b (Step.works i t u at (WorkerStep.polls r) q) m o =
    let (same, _) = IfDone-eq (Passed t a.world) (poll_all-Passed t a.world) r in
    let up = IfDone-eq (λ _ w. Signals a.world w) (poll_all-Signals t a.world) r in
    subst (λ x. IsOrdered b.world x.threads) (sym q)
      (works-IsOrdered a.world b.world a.queue.threads i u up
        (tasks-Signals a.world b.world u.channel up (
          subst (All (IsSignalled a.world)) (sym same)
            (channel-IsSignalled a.world a.queue.threads i t at o)))
        o)
Step-IsOrdered a b (Step.works i t u at (WorkerStep.ends t' r e) q) m o =
    let same : u.channel ≡ t.channel =
      ap (λ x. x.channel) e ∙ ap (λ x. x.channel) ((subst (Received t) r (receive-Received t)).0) in
    subst (λ x. IsOrdered b.world x.threads) (sym q)
      (works-IsOrdered a.world b.world a.queue.threads i u m
        (tasks-Signals a.world b.world u.channel m (
          subst (All (IsSignalled a.world)) (sym same)
            (channel-IsSignalled a.world a.queue.threads i t at o)))
        o)

new_threads-IsOrdered : (k n : ℕ) (v w : World) → IsOrdered v (new_threads k n w).0
unfolding new_threads Worker.new
new_threads-IsOrdered zero n v w = tt
new_threads-IsOrdered (suc k) n v w = (tt, new_threads-IsOrdered k n v _)

label_all-IsOrdered :
    (v : World) (ls : List String) (ts : List WorkerThread)
    → IsOrdered v ts
    → IsOrdered v (label_all ls ts)
unfolding label_all Worker.set_label
label_all-IsOrdered v [] ts o = o
label_all-IsOrdered v (l ∷ ls) [] o = tt
label_all-IsOrdered v (l ∷ ls) (t ∷ ts) (front, o) = (front, label_all-IsOrdered v ls ts o)

Reach-IsOrdered :
    (a b : System) (r : Reach a b)
    → AllOnlySignals r
    → IsOrdered a.world a.queue.threads
    → IsOrdered b.world b.queue.threads
Reach-IsOrdered a b Reach.here m o = o
Reach-IsOrdered a c (Reach.next {b = b} r s) (ms, m) o =
    Step-IsOrdered b c s m (Reach-IsOrdered a b r ms o)

-- However submissions, the loop of a new queue, the loops of its threads and user code interleave, if no
-- other thread resets a semaphore: whenever a task is in the channel of a thread, all semaphores that it
-- waits for are signalled.
pub Reach-fresh-IsOrdered :
    (specs : MvSyncSpecs) (labels : List String) (signal : ℕ) (w : World) (b : System)
    (r : Reach (fresh specs labels signal w) b)
    → AllOnlySignals r
    → IsOrdered b.world b.queue.threads
unfolding Queue.new
Reach-fresh-IsOrdered specs labels signal w b r m =
    let (threads, v) = new_threads specs.thread_count specs.workers_per_thread w in
    Reach-IsOrdered (fresh specs labels signal w) b r m (
      label_all-IsOrdered v labels threads
        (new_threads-IsOrdered specs.thread_count specs.workers_per_thread v w))
