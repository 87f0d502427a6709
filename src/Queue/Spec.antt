-- ===== src/Queue/Spec.antt =====
-- What the queue and its threads promise: each task that is submitted waits, then either is passed over or
-- runs, and is then done with. The abstract state forgets who holds a task and in which order.
use mvsync.Base.{ℕ, true, List, [], ◌++◌, ◌≡◌, Bag, bag_of, add, All}
use mvsync.World.{World}
use mvsync.Worker.Moves.{states}
use mvsync.Task.Ids.{ids}
use mvsync.Queue.{Queue}
use mvsync.Queue.Conserve.{gather, queued, is_over}

pub record Tasks : Type 0 where
  pub waiting : Bag
  pub running : Bag

-- The steps, in a world: the tasks `new` come in, or some are passed over because they were cancelled or
-- their predecessor failed, or start to run, or some of those that `Stops` tells of stop running.
pub data Spec (w : World) (new : List ℕ) (Stops : ℕ → Type 0) (x y : Tasks) : Type 0 where
  submits : y.waiting ≡ add new x.waiting → y.running ≡ x.running → Spec w new Stops x y
  skips :
      new ≡ []
      → (ts : List ℕ) → All (λ i. is_over (w.states i) ≡ true) ts
      → x.waiting ≡ add ts y.waiting
      → y.running ≡ x.running
      → Spec w new Stops x y
  starts :
      new ≡ []
      → (ts : List ℕ) → x.waiting ≡ add ts y.waiting
      → y.running ≡ add ts x.running
      → Spec w new Stops x y
  stops :
      new ≡ []
      → (ts : List ℕ) → All Stops ts
      → y.waiting ≡ x.waiting
      → x.running ≡ add ts y.running
      → Spec w new Stops x y

abbrev pub waiting_ids : Queue → List ℕ
waiting_ids q = (ids q.channel ++ ids q.tasks) ++ queued q.threads

abbrev pub running_ids : Queue → List ℕ
running_ids q = gather (λ t. states t.futures) q.threads

abbrev pub view : Queue → Tasks
view q = record { waiting = bag_of (waiting_ids q); running = bag_of (running_ids q) }
