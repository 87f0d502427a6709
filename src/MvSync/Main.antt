-- ===== src/MvSync/Main.antt =====
-- `MVSync` of src/lib.rs and its main thread: the thread that calls `register_main_thread` runs the loop
-- of `WorkerThread::run`, and `stage` says where it stands in that loop.
use mvsync.Base.{
  ℕ, zero, suc, ◌-◌, ◌^◌, Bool, true, not, ◌&&◌, Option, none, some, List, [], ◌∷◌, String, ◌⊎◌,
  is_empty, if◌then◌else◌,
}
use mvsync.World.{World, Value, text}
use mvsync.Exec.{done, unwinds, blocks, M, ◌>>=◌, ◌>>◌, pure}
use mvsync.Signal
use mvsync.Sync.Semaphore
use mvsync.Sync.Fence
use mvsync.Buffer.Command
use mvsync.Buffer.Command.{CommandBufferAllocationError, CommandBuffer, Shared}
use mvsync.Task.{Task}
use mvsync.Task.Body.{Script}
use mvsync.Worker
use mvsync.Worker.{WorkerThread}
use mvsync.Queue
use mvsync.Queue.{Queue, MvSyncSpecs}
use mvsync.MvSync.{create_async_task}

-- Between two polls of its futures the thread is at the loop's head, inside `recv`, before the retain,
-- before the test that follows it, or inside `signal.wait()`. The flag is `end_when_done`.
pub data Stage : Type 0 where
  idle : Stage
  at_head receiving polling testing waiting : Bool → Stage

pub record MvSync : Type 0 where
  pub queue : Queue
  pub signal : ℕ
  pub worker : Option WorkerThread
  pub stage : Stage

unfoldable pub labelled : MvSyncSpecs → List String → World → MvSync × World
unfolding Signal.new Queue.new
labelled specs labels w =
    let (s, w') = Signal.new w in
    let (q, w'') = Queue.new specs labels s w' in
    (record { queue = q; signal = s; worker = none; stage = Stage.idle }, w'')

unfoldable pub new : MvSyncSpecs → World → MvSync × World
unfolding labelled
new specs w = labelled specs [] w

unfoldable pub get_queue : MvSync → Queue
get_queue m = m.queue

unfoldable pub create_semaphore : MvSync → World → ℕ × World
unfolding Semaphore.new
create_semaphore m w = Semaphore.new w

unfoldable pub create_fence : MvSync → World → ℕ × World
unfolding Fence.new
create_fence m w = Fence.new w

-- The flags say whether the allocations gave a null pointer.
unfoldable pub allocate_command_buffer :
    Bool → Bool → MvSync → CommandBufferAllocationError ⊎ (CommandBuffer × Shared)
unfolding Command.new
allocate_command_buffer ptr_is_null refs_is_null m = Command.new ptr_is_null refs_is_null m.signal

-- The worker that `register_main_thread` makes: its counter starts at `u32::MAX`.
abbrev pub main_worker : ℕ → WorkerThread
main_worker signal = record {
  label = none;
  free_workers = 2 ^ 32 - 1;
  channel = [];
  connected = true;
  signal = signal;
  end = 0;
  futures = [];
}

abbrev pub has_main_thread : Value
has_main_thread = text "This MVSync instance already has a main thread registered!"

abbrev pub no_main_thread : Value
no_main_thread = text "This MVSync instance does not have a main thread registered!"

-- `worker.is_none() || worker.unwrap().ended()`, and the same for `finished`.
unfoldable pub main_thread_ended : MvSync → Bool
unfolding Worker.ended
main_thread_ended m = elim m.worker [ none ↦ true | some t ↦ Worker.ended t ]

unfoldable pub main_thread_finished : MvSync → Bool
unfolding Worker.finished
main_thread_finished m = elim m.worker [ none ↦ true | some t ↦ Worker.finished t ]

-- Up to the call of `WorkerThread::run`.
unfoldable pub register_main_thread : Script → Bool → MvSync → M MvSync
unfolding main_thread_finished Signal.new create_async_task Worker.send
register_main_thread init end_when_done m w =
    if main_thread_finished m
    then (let (s, w₁) = Signal.new w in
        let ((task, _), w₂) = create_async_task m.signal init w₁ in
        let (t, w₃) = Worker.send task (main_worker s) w₂ in
        done (record m { worker = some t; stage = Stage.at_head end_when_done }) w₃)
    else unwinds has_main_thread w

-- `send` and `end` of the worker, where there is one.
abbrev pub send_task : Task → MvSync → World → MvSync × World
send_task task m w = elim m.worker [
  | none ↦ (m, w)
  | some t ↦ let (t', w') = Worker.send task t w in (record m { worker = some t' }, w')
]

unfoldable pub submit_to_main_thread : Task → MvSync → M MvSync
unfolding main_thread_ended Worker.send
submit_to_main_thread task m w =
    if main_thread_ended m
    then unwinds no_main_thread w
    else (let (m', w') = send_task task m w in done m' w')

unfoldable pub end_main_thread : MvSync → MvSync
unfolding main_thread_ended Worker.end
end_main_thread m =
    if main_thread_ended m
    then m
    else (elim m.worker [ none ↦ m | some t ↦ record m { worker = some (Worker.end t) } ])

-- One step of the loop; `blocks` while the thread is parked. A thread inside `recv` takes the task that
-- comes without another look at the end flag; its channel stays connected, since `MVSync` holds the sender.
unfoldable pub step : Stage → WorkerThread → M (Stage × WorkerThread)
unfolding Worker.receive Worker.start Worker.poll_all Signal.wait
step Stage.idle t w = blocks w
step (Stage.at_head e) t w = elim (Worker.receive e t) [
  | Worker.continues t' ↦ done (Stage.polling e, t') w
  | Worker.ends t' ↦ done (Stage.idle, record t' { end = 2 }) w
  | Worker.parked t' ↦ done (Stage.receiving e, t') w
]
step (Stage.receiving e) t w = elim t.channel [
  | [] ↦ blocks w
  | task ∷ rest ↦
      done (Stage.polling e, record t { channel = rest; futures = Worker.start task ∷ [] }) w
]
step (Stage.polling e) t w = (Worker.poll_all t >>= λ t'. pure (Stage.testing e, t')) w
step (Stage.testing e) t w =
    if not (is_empty t.futures) && is_empty t.channel
    then done (Stage.waiting e, t) w
    else done (Stage.at_head e, t) w
step (Stage.waiting e) t w = (Signal.wait t.signal >> pure (Stage.at_head e, t)) w

unfoldable pub advance : MvSync → M MvSync
unfolding step
advance m w = elim m.worker [
  | none ↦ blocks w
  | some t ↦ (step m.stage t >>= λ (s, t'). pure (record m { worker = some t'; stage = s })) w
]

-- A number of steps of the main thread with nothing in between.
unfoldable pub advance_times : ℕ → MvSync → M MvSync
unfolding advance
advance_times zero m = pure m
advance_times (suc n) m = advance m >>= advance_times n
