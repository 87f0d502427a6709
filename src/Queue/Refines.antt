-- ===== src/Queue/Refines.antt =====
-- The queue and its threads do what the specification says.
use mvsync.Base.{
  ℕ, true, some, List, [], ◌∷◌, ◌++◌, ◌≡◌, refl, sym, ap, subst, is_empty, if-cases, get_elem?,
  modify, map, false, ◌∙◌, count, count-append, Alike, bag_of, bag_of-eq, bag_of-add, arith,
}
use mvsync.World.{World}
use mvsync.Exec.{IfDone, IfDone-eq}
use mvsync.Task.{Task}
use mvsync.Task.Ids.{ids, ids-append}
use mvsync.Worker
use mvsync.Worker.{WorkerThread, Running}
use mvsync.Worker.Received.{Received, receive-Received}
use mvsync.Queue
use mvsync.Queue.{Queue, push_all}
use mvsync.Queue.Conserve.{queued, dispatch_all-Fate}
use mvsync.Queue.System.{System, WorkerStep, Step, receive-Closes}
use mvsync.Queue.Kept.{map-dispatch_all}
use mvsync.Worker.Moves.{states, Moves, receive-Moves}
use mvsync.Worker.Stops.{Passed, poll_all-Passed}
use mvsync.Queue.Gathered.{gather-of_map, gather-drop, waiting_modify, running_modify}
use mvsync.Queue.Effects.{StopsIn, StopsBy, submitted_by}
use mvsync.Queue.Spec.{Spec, waiting_ids, running_ids, view}

-- A step that only moves the waiting tasks about.
stutters :
    (w : World) (Stops : ℕ → Type 0) (p q : Queue)
    → Alike (waiting_ids p) (waiting_ids q)
    → Alike (running_ids q) (running_ids p)
    → Spec w [] Stops (view p) (view q)
stutters w Stops p q same same' =
    Spec.skips refl [] tt
      (bag_of-add (waiting_ids p) [] (waiting_ids q) (λ a. omega (arith, same a)))
      (bag_of-eq (running_ids q) (running_ids p) same')

submits-Spec :
    (w : World) (Stops : ℕ → Type 0) (ts : List Task) (q : Queue)
    → Spec w (ids ts) Stops (view q) (view (push_all ts q))
submits-Spec w Stops ts q =
    Spec.submits
      (bag_of-add (waiting_ids (push_all ts q)) (ids ts) (waiting_ids q) (λ a. omega (
        arith,
        ap (count a) (ids-append q.channel ts),
        count-append a (ids q.channel) (ids ts),
        count-append a (ids q.channel) (ids q.tasks),
        count-append a (ids (q.channel ++ ts)) (ids q.tasks),
        count-append a (ids q.channel ++ ids q.tasks) (queued q.threads),
        count-append a (ids (q.channel ++ ts) ++ ids q.tasks) (queued q.threads),
      )))
      refl

-- A loop that ends drops the handles of the threads, and nothing else.
release-Spec :
    (w : World) (Stops : ℕ → Type 0) (p q : Queue)
    → q ≡ p
    → Spec w [] Stops (view p) (view (Queue.release q))
unfolding Queue.release Worker.drop
release-Spec w Stops p q e =
    subst (λ r. Spec w [] Stops (view r) (view (Queue.release q))) e
      (stutters w Stops q (Queue.release q)
        (λ a.
          ap (λ xs. count a ((ids q.channel ++ ids q.tasks) ++ xs))
            (sym (gather-drop (λ t. ids t.channel) q.threads (λ t. refl))))
        (λ a. ap (count a) (gather-drop (λ t. states t.futures) q.threads (λ t. refl))))

-- What the serving thread takes from its channel it has at hand.
abbrev Takes : Queue → Queue.Turn → Type 0
Takes q (Queue.continues q') =
    Alike (waiting_ids q) (waiting_ids q') × (running_ids q' ≡ running_ids q)
Takes q _ = Unit {0}

no_ids : (ts : List Task) (a : ℕ) → is_empty ts ≡ true → count a (ids ts) ≡ 0
no_ids [] a h = refl
no_ids (t ∷ ts) a h = cc

receive-Takes : (q : Queue) → Takes q (Queue.receive q)
unfolding Queue.receive Queue.receive_none
receive-Takes q =
    if-cases (Takes q) (is_empty q.tasks) _ _ (λ idle. first idle q.channel)
      (λ _. (all_taken, refl))
  where
    first :
        is_empty q.tasks ≡ true
        → (ts : List Task)
        → Takes
            (record q { channel = ts })
            (elim ts [
              | [] ↦ Queue.receive_none q
              | t ∷ rest ↦ Queue.continues (record q { channel = rest; tasks = t ∷ [] })
            ])
    first idle [] = if-cases (Takes (record q { channel = [] })) q.connected _ _ (λ _. tt) (λ _. tt)
    first idle (t ∷ rest) = (
      λ a. omega (
        arith,
        no_ids q.tasks a idle,
        count-append a (ids (t ∷ rest)) (ids q.tasks),
        count-append a (ids rest) (ids (t ∷ [])),
        count-append a (ids (t ∷ rest) ++ ids q.tasks) (queued q.threads),
        count-append a (ids rest ++ ids (t ∷ [])) (queued q.threads),
      ),
      refl,
    )

    all_taken :
        Alike
          (waiting_ids q)
          (waiting_ids (record q { channel = []; tasks = q.tasks ++ q.channel }))
    all_taken a = omega (
      arith,
      ap (count a) (ids-append q.tasks q.channel),
      count-append a (ids q.tasks) (ids q.channel),
      count-append a (ids q.channel) (ids q.tasks),
      count-append a (ids q.channel ++ ids q.tasks) (queued q.threads),
      count-append a (ids (q.tasks ++ q.channel)) (queued q.threads),
    )

round-Spec :
    (Stops : ℕ → Type 0) (q : Queue) (w : World)
    → IfDone (λ q' w'. Spec w' [] Stops (view q) (view q')) (Queue.round q w)
unfolding Queue.round Worker.send
round-Spec Stops q w =
    let futures : WorkerThread → List Running = λ t. t.futures in
    let (r, w', e, f) = dispatch_all-Fate q.tasks q.threads w in
    let e' = gather-of_map q.threads r.1 (
      IfDone-eq (λ (_, us) _. map futures us ≡ map futures q.threads)
        (map-dispatch_all futures (λ task t v. refl) q.tasks q.threads w) e) in
    rw (e, IfDone)
      (Spec.skips refl f.settled f.over
        (bag_of-add (waiting_ids q) f.settled
          (waiting_ids (record q { tasks = r.0; threads = r.1 }))
          (λ a. omega (
            arith,
            f.counts a,
            count-append a (ids q.channel) (ids q.tasks),
            count-append a (ids q.channel) (ids r.0),
            count-append a (ids q.channel ++ ids q.tasks) (queued q.threads),
            count-append a (ids q.channel ++ ids r.0) (queued r.1),
            count-append a (ids q.tasks) (queued q.threads),
            count-append a (ids r.0) (queued r.1),
          )))
        (ap bag_of e'))

works-Spec :
    (q : Queue) (v w : World) (i : ℕ) (t u : WorkerThread)
    → get_elem? q.threads i ≡ some t
    → (s : WorkerStep t u v w)
    → Spec w [] (StopsIn s) (view q) (view (record q { threads = modify q.threads i (λ _. u) }))
works-Spec q v w i t u at (WorkerStep.receives r) =
    let (moved, out, into) = subst (Moves t) r (receive-Moves false t) in
    let q' : Queue = record q { threads = modify q.threads i (λ _. u) } in
    Spec.starts refl moved
      (bag_of-add (waiting_ids q) moved (waiting_ids q')
        (λ a. omega (arith, waiting_modify q i t u a at, out a)))
      (bag_of-add (running_ids q') moved (running_ids q)
        (λ a. omega (arith, running_modify q i t u a at, into a)))
works-Spec q v w i t u at (WorkerStep.polls r) =
    let (same, (gone, h, stopped)) = IfDone-eq (Passed t v) (poll_all-Passed t v) r in
    let q' : Queue = record q { threads = modify q.threads i (λ _. u) } in
    Spec.stops refl gone stopped
      (bag_of-eq (waiting_ids q') (waiting_ids q)
        (λ a. omega (arith, waiting_modify q i t u a at, ap (λ ts. count a (ids ts)) same)))
      (bag_of-add (running_ids q) gone (running_ids q')
        (λ a. omega (arith, running_modify q i t u a at, h a)))
works-Spec q v w i t u at (WorkerStep.ends t' r e) =
    let same : t' ≡ t = (subst (Received t) r (receive-Received t)).0 in
    let q' : Queue = record q { threads = modify q.threads i (λ _. u) } in
    stutters w (λ _. ⊥) q q'
      (λ a. omega (
        arith,
        waiting_modify q i t u a at,
        ap (λ x. count a (ids x.channel)) e ∙ ap (λ x. count a (ids x.channel)) same,
      ))
      (λ a. omega (
        arith,
        running_modify q i t u a at,
        ap (λ x. count a (states x.futures)) e ∙ ap (λ x. count a (states x.futures)) same,
      ))

-- Each step of the queue, of a thread, of a caller or of user code is one of the specification, in which a
-- bag of waiting and a bag of running tasks stand for the queue with its threads, submits the same tasks, and
-- stops only tasks that a thread polls in the step: the poll returned or panicked, or the task was cancelled
-- after it.
pub Step-refines :
    (a b : System) (s : Step a b)
    → Spec b.world (submitted_by s) (StopsBy s) (view a.queue) (view b.queue)
unfolding Queue.drop
Step-refines a b (Step.user q) =
    subst (λ q'. Spec b.world [] (λ _. ⊥) (view a.queue) (view q')) (sym q)
      (stutters b.world (λ _. ⊥) a.queue a.queue (λ _. refl) (λ _. refl))
Step-refines a b (Step.submits ts live q) =
    subst (λ q'. Spec b.world (ids ts) (λ _. ⊥) (view a.queue) (view q')) (sym q)
      (submits-Spec b.world (λ _. ⊥) ts a.queue)
Step-refines a b (Step.drops q) =
    subst (λ q'. Spec b.world [] (λ _. ⊥) (view a.queue) (view q')) (sym q)
      (stutters b.world (λ _. ⊥) a.queue (Queue.drop a.queue) (λ _. refl) (λ _. refl))
Step-refines a b (Step.closes q r e) =
    subst (λ q'. Spec b.world [] (λ _. ⊥) (view a.queue) (view q')) (sym e)
      (release-Spec b.world (λ _. ⊥) a.queue q ((receive-Closes a.queue q r).0))
Step-refines a b (Step.takes r) =
    let (same, e) = subst (Takes a.queue) r (receive-Takes a.queue) in
    stutters b.world (λ _. ⊥) a.queue b.queue same (λ a. ap (count a) e)
Step-refines a b (Step.hands_out r) =
    IfDone-eq (λ q' w'. Spec w' [] (λ _. ⊥) (view a.queue) (view q'))
      (round-Spec (λ _. ⊥) a.queue a.world) r
Step-refines a b (Step.works i t u at s q) =
    subst (λ q'. Spec b.world [] (StopsIn s) (view a.queue) (view q')) (sym q)
      (works-Spec a.queue a.world b.world i t u at s)
