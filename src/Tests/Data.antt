-- ===== src/Tests/Data.antt =====
-- Concrete tasks, threads and worlds.
use mvsync.Base.{ℕ, ◌==◌, true, none, some, List, [], ◌∷◌, if◌then◌else◌}
use mvsync.World.{World, num, TaskState, empty_world, set_state}
use mvsync.Task.{Task}
use mvsync.Task.Body.{Outcome, Reply, Script, calling}
use mvsync.Worker.{WorkerThread, Running}
use mvsync.Queue.{MvSyncSpecs, Queue}

-- Two polls that pend, then 7.
abbrev pub late_seven : Script
late_seven n = if n == 2 then Reply.returns (num 7) else Reply.pends true

-- A world in which the cell 9 is ready and the cell 8 has panicked; 20 and above are free.
abbrev pub world : World
world =
    record (set_state 9 TaskState.ready (set_state 8 (TaskState.panicked (num 1)) empty_world)) {
      next = 20;
    }

abbrev pub task : ℕ → ℕ → Task
task self_state state = record {
  inner = calling (Outcome.returns (num 7)) 10 self_state;
  wait = [];
  signal = (11, 12);
  semaphores = 13 ∷ [];
  preferred_thread = none;
  not_on = [];
  self_state = self_state;
  state = state;
}

-- One that can run, one whose predecessor has panicked, one whose predecessor is pending.
abbrev pub tasks : List Task
tasks = task 1 9 ∷ task 2 8 ∷ task 3 7 ∷ []

abbrev pub thread : ℕ → WorkerThread
thread free = record {
  label = some "io";
  free_workers = free;
  channel = [];
  connected = true;
  signal = 15;
  end = 0;
  futures = [];
}

abbrev pub threads : List WorkerThread
threads = thread 0 ∷ thread 2 ∷ thread 2 ∷ []

abbrev pub failing : Running
failing = record {
  state = 4;
  inner = calling (Outcome.panics (num 5)) 10 4;
  semaphores = [];
  to_signal = (11, 12);
}

abbrev pub busy_thread : WorkerThread
busy_thread = record (thread 0) { futures = failing ∷ [] }

abbrev pub specs : MvSyncSpecs
specs = record { thread_count = 2; workers_per_thread = 3 }

abbrev pub inline_queue : Queue
inline_queue = record {
  channel = [];
  connected = true;
  signal = 12;
  specs = record { thread_count = 0; workers_per_thread = 1 };
  threads = [];
  tasks = [];
}
