-- ===== src/Queue/Gathered.antt =====
-- What the threads of a queue of src/queue.rs have between them, when one of them is replaced or all are released.
use mvsync.Base.{
  ℕ, zero, suc, ◌+◌, some, List, [], ◌∷◌, ◌++◌, ◌≡◌, refl, ap, get_elem?, modify, map, count,
  count-append, arith,
}
use mathlib.Core.Option.{some-injective}
use mvsync.Task.Ids.{ids}
use mvsync.Worker
use mvsync.Worker.{WorkerThread}
use mvsync.Queue.{Queue}
use mvsync.Queue.Conserve.{gather, queued}
use mvsync.Worker.Moves.{states}
use mvsync.Queue.Spec.{waiting_ids, running_ids}

pub gather-of_map :
    (ts us : List WorkerThread)
    → map (λ (t : WorkerThread). t.futures) us ≡ map (λ (t : WorkerThread). t.futures) ts
    → gather (λ t. states t.futures) us ≡ gather (λ t. states t.futures) ts
gather-of_map [] [] e = refl
gather-of_map [] (u ∷ us) e = cc
gather-of_map (t ∷ ts) [] e = cc
gather-of_map (t ∷ ts) (u ∷ us) e =
    let same : u.futures ≡ t.futures = cc in rw same (rw (gather-of_map ts us (cc)) refl)

pub gather-drop :
    (g : WorkerThread → List ℕ) (ts : List WorkerThread)
    → ((t : WorkerThread) → g (Worker.drop t) ≡ g t)
    → gather g (map Worker.drop ts) ≡ gather g ts
gather-drop g [] e = refl
gather-drop g (t ∷ ts) e = rw (e t) (rw (gather-drop g ts e) refl)

-- Replacing one thread exchanges its items for those of the new one.
count-gather-modify :
    (g : WorkerThread → List ℕ) (ts : List WorkerThread) (i : ℕ) (t u : WorkerThread) (a : ℕ)
    → get_elem? ts i ≡ some t
    → count a (gather g (modify ts i (λ _. u))) + count a (g t)
      ≡ count a (gather g ts) + count a (g u)
count-gather-modify g [] i t u a e = cc
count-gather-modify g (x ∷ ts) zero t u a e =
    let same : count a (g x) ≡ count a (g t) = ap (λ y. count a (g y)) (some-injective _ _ e) in
    omega (arith, count-append a (g x) (gather g ts), count-append a (g u) (gather g ts))
count-gather-modify g (x ∷ ts) (suc i) t u a e = omega (
  arith,
  count-gather-modify g ts i t u a e,
  count-append a (g x) (gather g ts),
  count-append a (g x) (gather g (modify ts i (λ _. u))),
)

-- A thread that exchanges items of its channel, or of its futures, does so for the queue.
pub waiting_modify :
    (q : Queue) (i : ℕ) (t u : WorkerThread) (a : ℕ)
    → get_elem? q.threads i ≡ some t
    → count a (waiting_ids (record q { threads = modify q.threads i (λ _. u) }))
        + count a (ids t.channel)
      ≡ count a (waiting_ids q) + count a (ids u.channel)
waiting_modify q i t u a at = omega (
  arith,
  count-gather-modify (λ x. ids x.channel) q.threads i t u a at,
  count-append a (ids q.channel ++ ids q.tasks) (queued q.threads),
  count-append a (ids q.channel ++ ids q.tasks) (queued (modify q.threads i (λ _. u))),
)

pub running_modify :
    (q : Queue) (i : ℕ) (t u : WorkerThread) (a : ℕ)
    → get_elem? q.threads i ≡ some t
    → count a (running_ids (record q { threads = modify q.threads i (λ _. u) }))
        + count a (states t.futures)
      ≡ count a (running_ids q) + count a (states u.futures)
running_modify q i t u a at = count-gather-modify (λ x. states x.futures) q.threads i t u a at
