-- ===== src/Worker.antt =====
-- `WorkerThread` of src/queue.rs: the handle that the queue holds, and the loop that the thread runs.
-- The channel, the counter and the end flag are shared by both; `futures` is the loop's own. The channel is
-- connected as long as the handle, which holds its sender, is there.
pub mod Load
pub mod Leak
pub mod Moves
pub mod Stops
pub mod Received
pub mod Grows
pub mod Finish
pub mod Orphan
pub mod Drained
pub mod Spare
pub mod Fair
pub mod Turns
pub mod Carried
pub mod Served
pub mod Semaphores
pub mod Fences
pub mod Single
pub mod Stalled
use mvsync.Base.{
  ℕ, zero, suc, ◌+◌, ◌-◌, ◌%◌, ◌^◌, Bool, true, false, not, ◌&&◌, ◌||◌, Option, none, some, List,
  [], ◌∷◌, ◌++◌, map, String, ltb, is_empty, if◌then◌else◌,
}
use mvsync.World.{World, TaskState, context, set_state}
use mvsync.Exec.{
  done, out_of_fuel, M, Poll, and_then, ◌>>=◌, ◌>>◌, pure, Caught, ok, err, catch_unwind,
}
use mvsync.Signal
use mvsync.Task.State
use mvsync.Task.Body
use mvsync.Task.Body.{Inner}
use mvsync.Task
use mvsync.Task.{Task}
use mvsync.Run.{settle}

-- An entry of `futures`: the task's state with what `Task::execute` returns.
pub record Running : Type 0 where
  pub state : ℕ
  pub inner : Inner
  pub semaphores : List ℕ
  pub to_signal : ℕ × ℕ

pub record WorkerThread : Type 0 where
  pub label : Option String
  pub free_workers : ℕ
  pub channel : List Task
  pub connected : Bool
  pub signal : ℕ
  pub end : ℕ
  pub futures : List Running

unfoldable pub new : ℕ → World → WorkerThread × World
unfolding Signal.new
new workers_per_thread w =
    let (s, w') = Signal.new w in
    (
      record {
        label = none;
        free_workers = workers_per_thread;
        channel = [];
        connected = true;
        signal = s;
        end = 0;
        futures = [];
      },
      w',
    )

unfoldable pub set_label : String → WorkerThread → WorkerThread
set_label l t = record t { label = some l }

abbrev pub get_label : WorkerThread → Option String
get_label t = t.label

abbrev pub free_workers : WorkerThread → ℕ
free_workers t = t.free_workers

-- `fetch_sub(1)` and `fetch_add(1)` of an `AtomicU32` wrap.
abbrev pub fetch_sub : ℕ → ℕ
fetch_sub n = (n + 2 ^ 32 - 1) % 2 ^ 32

abbrev pub fetch_add : ℕ → ℕ
fetch_add n = (n + 1) % 2 ^ 32

unfoldable pub send : Task → WorkerThread → World → WorkerThread × World
unfolding Signal.wake
send task t w = (
  record t { channel = t.channel ++ task ∷ []; free_workers = fetch_sub t.free_workers },
  Signal.wake t.signal w,
)

-- The handle is dropped, and the sender with it.
unfoldable pub drop : WorkerThread → WorkerThread
drop t = record t { connected = false }

unfoldable pub end : WorkerThread → WorkerThread
end t = record t { end = 1 }

unfoldable pub ended : WorkerThread → Bool
ended t = ltb 0 t.end

unfoldable pub finished : WorkerThread → Bool
finished t = ltb 1 t.end

-- `(task.state(), task.execute())`.
unfoldable pub start : Task → Running
start t =
    let (inner, semaphores, to_signal) = Task.execute t in
    record {
      state = Task.own_state t;
      inner = inner;
      semaphores = semaphores;
      to_signal = to_signal;
    }

-- What `retain_mut` does with an entry; `released` says that a worker was given back.
pub data Verdict : Type 0 where
  keep : Running → Verdict
  remove : (released : Bool) → Verdict

abbrev pub settled : Running → World → World
settled r w = settle r.semaphores r.to_signal w

unfoldable pub judge : Running → Caught (Poll Inner (Unit {0})) → M Verdict
unfolding settle State.eq
judge r (ok (Poll.pending inner)) w =
    if State.eq (w.states r.state) TaskState.cancelled
    then done (remove false) (settled r w)
    else done (keep (record r { inner = inner })) w
judge r (err e) w = done (remove false) (settled r (set_state r.state (TaskState.panicked e) w))
judge r (ok (Poll.ready _)) w = done (remove true) (settled r w)

unfoldable pub poll_one : ℕ → Running → M Verdict
unfolding judge Body.poll
poll_one signal r = catch_unwind (Body.poll (context signal) r.inner) >>= judge r

-- What follows a verdict; `rest` is `retain_mut` on the entries behind.
unfoldable pub after_verdict : (ℕ → M (List Running × ℕ)) → ℕ → Verdict → M (List Running × ℕ)
after_verdict rest free (keep r) = rest free >>= λ (kept, free'). pure (r ∷ kept, free')
after_verdict rest free (remove true) = rest (fetch_add free)
after_verdict rest free (remove false) = rest free

-- `futures.retain_mut(..)`, with the counter that it increments.
unfoldable pub retain : ℕ → List Running → ℕ → M (List Running × ℕ)
unfolding poll_one after_verdict
retain signal [] free = pure ([], free)
retain signal (r ∷ rs) free = poll_one signal r >>= after_verdict (retain signal rs) free

unfoldable pub receive_all : WorkerThread → WorkerThread
unfolding start
receive_all t = record t { channel = []; futures = t.futures ++ map start t.channel }

unfoldable pub poll_all : WorkerThread → M WorkerThread
unfolding retain
poll_all t = do
  (kept, free) ← retain t.signal t.futures t.free_workers
  pure (record t { futures = kept; free_workers = free })

-- How a turn of the loop goes on. `parked` is `receiver.recv()` on an empty channel that is connected.
pub data Turn : Type 0 where
  continues ends parked : WorkerThread → Turn

-- `receiver.recv()` fails on an empty channel that is disconnected.
unfoldable pub receive_none : WorkerThread → Turn
receive_none t = if t.connected then parked t else ends t

-- The head of a turn with no futures: the end flag, then one task.
unfoldable pub receive_first : Bool → WorkerThread → Turn
unfolding start receive_none
receive_first end_when_done t =
    if ltb 0 t.end || (end_when_done && is_empty t.channel) then ends t else elim t.channel [
      | [] ↦ receive_none t
      | task ∷ rest ↦ continues (record t { channel = rest; futures = start task ∷ [] })
    ]

unfoldable pub receive : Bool → WorkerThread → Turn
unfolding receive_first receive_all
receive end_when_done t =
    if is_empty t.futures then receive_first end_when_done t else continues (receive_all t)

-- The thread waits for its signal if futures are left and nothing is in the channel.
unfoldable pub park : WorkerThread → M WorkerThread
unfolding Signal.wait
park t =
    if not (is_empty t.futures) && is_empty t.channel
    then Signal.wait t.signal >> pure t
    else pure t

unfoldable pub turn : Bool → WorkerThread → M Turn
unfolding receive poll_all park
turn end_when_done t = elim (receive end_when_done t) [
  | continues t' ↦ poll_all t' >>= park >>= λ t''. pure (continues t'')
  | ends t' ↦ pure (ends (record t' { end = 2 }))
  | parked t' ↦ pure (parked t')
]

-- The loop, by turns, until it ends or waits for a task.
unfoldable pub run : ℕ → Bool → WorkerThread → M Turn
unfolding turn
run zero end_when_done t w = out_of_fuel
run (suc fuel) end_when_done t w = and_then (turn end_when_done t w) λ r. elim r [
  | continues t' ↦ run fuel end_when_done t'
  | ends t' ↦ pure (ends t')
  | parked t' ↦ pure (parked t')
]
