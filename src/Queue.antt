-- ===== src/Queue.antt =====
-- `Queue` of src/queue.rs: its state, the ways to submit, and the turns of the thread that serves it.
-- The sender that the queue holds and the receiver of its thread are one channel, which is connected as long
-- as the queue is there.
pub mod Dispatch
pub mod Labels
pub mod Choice
pub mod Sends
pub mod Load
pub mod Conserve
pub mod System
pub mod Starved
pub mod Asleep
pub mod Spec
pub mod Kept
pub mod Gathered
pub mod Effects
pub mod Refines
pub mod Balance
pub mod Ordered
pub mod Waits
pub mod Leaving
pub mod Shutdown
pub mod Single
pub mod Stepped
pub mod Buffers
pub mod Recorded
pub mod Typed
use mvsync.Base.{
  ℕ, zero, suc, Bool, true, false, not, List, [], ◌∷◌, ◌++◌, map, String, ◌==◌, is_empty,
  if◌then◌else◌,
}
use mvsync.World.{World}
use mvsync.Exec.{done, M, ◌>>=◌, ◌>>◌, pure}
use mvsync.Signal
use mvsync.Task
use mvsync.Task.{Task}
use mvsync.Worker
use mvsync.Worker.{WorkerThread}
use mvsync.Run
use Dispatch.{dispatch_all}

pub record MvSyncSpecs : Type 0 where
  pub thread_count : ℕ
  pub workers_per_thread : ℕ

-- `tasks` is the local variable of the serving thread.
pub record Queue : Type 0 where
  pub channel : List Task
  pub connected : Bool
  pub signal : ℕ
  pub specs : MvSyncSpecs
  pub threads : List WorkerThread
  pub tasks : List Task

-- `(0..thread_count).map(|_| WorkerThread::new(specs))`.
unfoldable pub new_threads : ℕ → ℕ → World → List WorkerThread × World
unfolding Worker.new
new_threads zero workers w = ([], w)
new_threads (suc n) workers w =
    let (t, w') = Worker.new workers w in let (ts, w'') = new_threads n workers w' in (t ∷ ts, w'')

-- The i-th label goes to the i-th thread; labels without a thread are dropped.
unfoldable pub label_all : List String → List WorkerThread → List WorkerThread
unfolding Worker.set_label
label_all [] ts = ts
label_all (l ∷ ls) [] = []
label_all (l ∷ ls) (t ∷ ts) = Worker.set_label l t ∷ label_all ls ts

unfoldable pub new : MvSyncSpecs → List String → ℕ → World → Queue × World
unfolding new_threads label_all
new specs labels signal w =
    let (threads, w') = new_threads specs.thread_count specs.workers_per_thread w in
    (
      record {
        channel = [];
        connected = true;
        signal = signal;
        specs = specs;
        threads = label_all labels threads;
        tasks = [];
      },
      w',
    )

-- The last owner of the queue is gone, and the sender with it; the thread that serves the queue goes on.
unfoldable pub drop : Queue → Queue
drop q = record q { connected = false }

-- A queue without threads runs the task at once.
abbrev pub runs_inline : Queue → Bool
runs_inline q = q.specs.thread_count == 0

abbrev pub push_all : List Task → Queue → Queue
push_all ts q = record q { channel = q.channel ++ ts }

-- The tasks go into the channel in order, then the queue's signal is woken.
unfoldable pub enqueue : List Task → Queue → M Queue
unfolding Signal.wake
enqueue ts q w = done (push_all ts q) (Signal.wake q.signal w)

unfoldable pub submit : ℕ → Task → Queue → M Queue
unfolding Run.run enqueue
submit fuel t q = if runs_inline q then Run.run fuel t >> pure q else enqueue (t ∷ []) q

unfoldable pub submit_all : ℕ → ℕ → List Task → Queue → M Queue
unfolding Run.run_all enqueue
submit_all rounds fuel ts q =
    if runs_inline q then Run.run_all rounds fuel ts >> pure q else enqueue ts q

unfoldable pub submit_on : ℕ → Task → String → Queue → M Queue
unfolding Run.run enqueue Task.set_preferred_thread
submit_on fuel t thread q =
    if runs_inline q
    then Run.run fuel t >> pure q
    else enqueue (Task.set_preferred_thread t thread ∷ []) q

unfoldable pub submit_all_on : ℕ → ℕ → List Task → String → Queue → M Queue
unfolding Run.run_all enqueue Task.set_preferred_thread
submit_all_on rounds fuel ts thread q =
    if runs_inline q
    then Run.run_all rounds fuel ts >> pure q
    else enqueue (map (λ t. Task.set_preferred_thread t thread) ts) q

-- How a turn of the serving thread goes on. `parked` is `receiver.recv()` on an empty channel that is
-- connected.
pub data Turn : Type 0 where
  continues ends parked : Queue → Turn

-- `receiver.recv()` fails on an empty channel that is disconnected.
unfoldable pub receive_none : Queue → Turn
receive_none q = if q.connected then parked q else ends q

-- With no task at hand the thread takes one, and otherwise all that are there.
unfoldable pub receive : Queue → Turn
unfolding receive_none
receive q =
    if is_empty q.tasks
    then (elim q.channel [
      | [] ↦ receive_none q
      | t ∷ rest ↦ continues (record q { channel = rest; tasks = t ∷ [] })
    ])
    else continues (record q { channel = []; tasks = q.tasks ++ q.channel })

unfoldable pub round : Queue → M Queue
unfolding dispatch_all
round q = do
  (remaining, threads) ← dispatch_all q.tasks q.threads
  pure (record q { tasks = remaining; threads = threads })

unfoldable pub park : Queue → M Queue
unfolding Signal.wait
park q = if not (is_empty q.tasks) then Signal.wait q.signal >> pure q else pure q

-- The end of `Queue::run`, which owns the handles of the threads.
unfoldable pub release : Queue → Queue
unfolding Worker.drop
release q = record q { threads = map Worker.drop q.threads }

unfoldable pub turn : Queue → M Turn
unfolding receive round park release
turn q = elim (receive q) [
  | continues q' ↦ round q' >>= park >>= λ q''. pure (continues q'')
  | ends q' ↦ pure (ends (release q'))
  | parked q' ↦ pure (parked q')
]
