-- ===== src/Queue/System.antt =====
-- A queue and its threads as a step relation: each step is one part of a loop's turn, a submission, the drop
-- of the queue, the end of a loop, or whatever user code does to the shared objects in between.
use mvsync.Base.{
  ℕ, zero, suc, ◌^◌, ◌≤◌, ◌<◌, some, List, [], ◌∷◌, map, String, ◌≡◌, sym, subst, get_elem?, modify,
  All, All-get_elem?, All-modify, All-of-map, ap, ◌∙◌, true, false, refl, is_empty, if-cases, arith,
}
use mvsync.World.{World}
use mvsync.Exec.{done, IfDone, IfDone-eq}
use mvsync.Task.{Task}
use mvsync.Worker
use mvsync.Worker.{WorkerThread}
use mvsync.Worker.Received.{Received, receive-Received, is_empty-eq}
use mvsync.Worker.Load.{load, poll_all-load, receive-load}
use mvsync.Queue
use mvsync.Queue.{Queue, MvSyncSpecs, new_threads, label_all, push_all}
use mvsync.Queue.Load.{IsCounter, dispatch_all-load}

pub record System : Type 0 where
  pub queue : Queue
  pub world : World

-- A step of a worker thread's own loop.
pub data WorkerStep (t u : WorkerThread) (v w : World) : Type 0 where
  receives : Worker.receive false t ≡ Worker.continues u → WorkerStep t u v w
  polls : Worker.poll_all t v ≡ done u w → WorkerStep t u v w
  ends :
      (t' : WorkerThread)
      → Worker.receive false t ≡ Worker.ends t'
      → u ≡ record t' { end = 2 }
      → WorkerStep t u v w

pub data Step (a b : System) : Type 0 where
  user : b.queue ≡ a.queue → Step a b
  submits : (ts : List Task) → a.queue.connected ≡ true → b.queue ≡ push_all ts a.queue → Step a b
  drops : b.queue ≡ Queue.drop a.queue → Step a b
  takes : Queue.receive a.queue ≡ Queue.continues b.queue → Step a b
  hands_out : Queue.round a.queue a.world ≡ done b.queue b.world → Step a b
  closes : (q : Queue) → Queue.receive a.queue ≡ Queue.ends q → b.queue ≡ Queue.release q → Step a b
  works :
      (i : ℕ) (t u : WorkerThread)
      → get_elem? a.queue.threads i ≡ some t
      → WorkerStep t u a.world b.world
      → b.queue ≡ record a.queue { threads = modify a.queue.threads i (λ _. u) }
      → Step a b

pub data Reach (a : System) : System → Type 0 where
  here : Reach a a
  next : {b c : System} → Reach a b → Step b c → Reach a c

abbrev pub fresh : MvSyncSpecs → List String → ℕ → World → System
fresh specs labels signal w =
    let (q, v) = Queue.new specs labels signal w in record { queue = q; world = v }

-- Every thread has at most `n` tasks and free workers together.
abbrev pub Fits : ℕ → List WorkerThread → Type 0
Fits n = All (λ t. load t ≤ n)

IsCounter-of_Fits : (n : ℕ) (ts : List WorkerThread) → n < 2 ^ 32 → Fits n ts → All IsCounter ts
IsCounter-of_Fits n [] small f = tt
IsCounter-of_Fits n (t ∷ ts) small f = (omega arith, IsCounter-of_Fits n ts small f.1)

WorkerStep-le :
    (n : ℕ) (t u : WorkerThread) (v w : World)
    → n < 2 ^ 32
    → load t ≤ n
    → WorkerStep t u v w
    → load u ≤ n
WorkerStep-le n t u v w small h (WorkerStep.receives r) = omega (arith, receive-load false t u r)
WorkerStep-le n t u v w small h (WorkerStep.polls r) =
    let le = IfDone-eq (λ x _. load x ≤ load t) (poll_all-load t v (omega arith)) r in omega arith
WorkerStep-le n t u v w small h (WorkerStep.ends t' r e) =
    let same : load u ≡ load t =
      ap load e ∙ ap load ((subst (Received t) r (receive-Received t)).0) in
    omega arith

round-Fits :
    (n : ℕ) (q q' : Queue) (w w' : World)
    → n < 2 ^ 32
    → Fits n q.threads
    → Queue.round q w ≡ done q' w'
    → Fits n q'.threads
unfolding Queue.round
round-Fits n q q' w w' small f e =
    let (r, v, e', (loads, _)) =
      dispatch_all-load q.tasks q.threads w (IsCounter-of_Fits n q.threads small f) in
    IfDone-eq (λ x _. Fits n x.threads)
      (rw (e', IfDone) (All-of-map (λ k. k ≤ n) load q.threads r.1 loads f)) e

-- When the loop of the queue ends.
abbrev pub Closes : Queue → Queue.Turn → Type 0
Closes q (Queue.ends q') = (q' ≡ q) × (q.tasks ≡ []) × (q.channel ≡ []) × (q.connected ≡ false)
Closes q _ = Unit {0}

pub receive-Closes : (q q' : Queue) → Queue.receive q ≡ Queue.ends q' → Closes q (Queue.ends q')
unfolding Queue.receive Queue.receive_none
receive-Closes q q' e = subst (Closes q) e (from q)
  where
    first :
        (q : Queue) (ts : List Task)
        → q.channel ≡ ts
        → q.tasks ≡ []
        → Closes q (elim ts [
          | [] ↦ Queue.receive_none q
          | t ∷ rest ↦ Queue.continues (record q { channel = rest; tasks = t ∷ [] })
        ])
    first q [] empty none =
        if-cases (Closes q) q.connected _ _ (λ _. tt) (λ gone. (refl, none, empty, gone))
    first q (t ∷ rest) empty none = tt

    from : (q : Queue) → Closes q (Queue.receive q)
    from q =
        if-cases (Closes q) (is_empty q.tasks) _ _
          (λ idle. first q q.channel refl (is_empty-eq q.tasks idle)) (λ _. tt)

pub threads-receive : (q q' : Queue) → Queue.receive q ≡ Queue.continues q' → q'.threads ≡ q.threads
unfolding Queue.receive
threads-receive q q' e = ground arith

pub threads-drop : (q : Queue) → (Queue.drop q).threads ≡ q.threads
unfolding Queue.drop
threads-drop q = refl

release-Fits : (n : ℕ) (q : Queue) → Fits n q.threads → Fits n (Queue.release q).threads
unfolding Queue.release
release-Fits n q f = from q.threads f
  where
    from : (ts : List WorkerThread) → Fits n ts → Fits n (map Worker.drop ts)
    from [] f = tt
    from (t ∷ ts) f = (f.0, from ts f.1)

Step-Fits :
    (n : ℕ) (a b : System) → n < 2 ^ 32 → Step a b → Fits n a.queue.threads → Fits n b.queue.threads
Step-Fits n a b small (Step.user e) f = subst (λ q. Fits n q.threads) (sym e) f
Step-Fits n a b small (Step.submits ts live e) f = subst (λ q. Fits n q.threads) (sym e) f
Step-Fits n a b small (Step.drops e) f =
    subst (λ q. Fits n q.threads) (sym e) (subst (Fits n) (sym (threads-drop a.queue)) f)
Step-Fits n a b small (Step.closes q r e) f =
    subst (λ q. Fits n q.threads) (sym e)
      (release-Fits n q (subst (λ q. Fits n q.threads) (sym ((receive-Closes a.queue q r).0)) f))
Step-Fits n a b small (Step.takes e) f = subst (Fits n) (sym (threads-receive a.queue b.queue e)) f
Step-Fits n a b small (Step.hands_out e) f = round-Fits n a.queue b.queue a.world b.world small f e
Step-Fits n a b small (Step.works i t u at s e) f =
    subst (λ q. Fits n q.threads) (sym e)
      (All-modify (λ y. load y ≤ n) a.queue.threads i u
        (WorkerStep-le n t u a.world b.world small
          (All-get_elem? (λ y. load y ≤ n) a.queue.threads i t at f) s)
        f)

new_threads-Fits : (k n : ℕ) (w : World) → Fits n (new_threads k n w).0
unfolding new_threads
new_threads-Fits zero n w = tt
new_threads-Fits (suc k) n w = (omega arith, new_threads-Fits k n _)

label_all-Fits :
    (n : ℕ) (ls : List String) (ts : List WorkerThread) → Fits n ts → Fits n (label_all ls ts)
unfolding label_all
label_all-Fits n [] ts f = f
label_all-Fits n (l ∷ ls) [] f = tt
label_all-Fits n (l ∷ ls) (t ∷ ts) f = (f.0, label_all-Fits n ls ts f.1)

Reach-Fits :
    (n : ℕ) (a b : System)
    → n < 2 ^ 32
    → Reach a b
    → Fits n a.queue.threads
    → Fits n b.queue.threads
Reach-Fits n a b small Reach.here f = f
Reach-Fits n a c small (Reach.next {b = b} r s) f =
    Step-Fits n b c small s (Reach-Fits n a b small r f)

-- However submissions, the queue's loop, the threads' loops and user code interleave: a thread never
-- has more tasks in its channel and its futures than `workers_per_thread`, less the workers that its
-- counter calls free.
pub Reach-new-Fits :
    (specs : MvSyncSpecs) (labels : List String) (signal : ℕ) (w : World) (b : System)
    → specs.workers_per_thread < 2 ^ 32
    → Reach
        (record {
          queue = (Queue.new specs labels signal w).0;
          world = (Queue.new specs labels signal w).1;
        })
        b
    → Fits specs.workers_per_thread b.queue.threads
unfolding Queue.new
Reach-new-Fits specs labels signal w b small r = Reach-Fits specs.workers_per_thread _ b small r (
    label_all-Fits specs.workers_per_thread labels _
      (new_threads-Fits specs.thread_count specs.workers_per_thread w))
