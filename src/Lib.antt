-- ===== src/Lib.antt =====
-- MVSync, a library of tasks over worker threads: the model of its source and what is proved of it.
--
-- Parts, and the files that model them. Paths are from the repository's root.
--   World            the shared objects (Arc, RwLock, Mutex) as maps from addresses
--   Exec             what a thread's code comes to: it returns, unwinds, parks, or is out of fuel
--   Signal           Signal and SignalFuture of src/block.rs
--   Await            await_sync and await_sync_safe of src/block.rs
--   Sync             src/sync.rs: Sync.Semaphore and Sync.Fence
--   Task             Task of src/task.rs; Task.State has TaskState, Task.Handle TaskHandle and TaskResult,
--                    Task.Controller TaskController, and Task.Body the async blocks
--   Run              run and run_all of src/run.rs
--   Worker           WorkerThread of src/queue.rs
--   Queue            Queue of src/queue.rs: creation, submission, and the serving loop; Queue.Dispatch has
--                    a round over the tasks at hand, Queue.Buffers the submission of command buffers
--   Buffer           src/command_buffers/buffer.rs: Buffer.Chain has TaskChain, Buffer.Raw RawCommandBuffer,
--                    and Buffer.Command CommandBuffer and BufferedCommand; Buffer.Commands has the
--                    commands of src/command_buffers/commands.rs
--   MvSync           MVSync of src/lib.rs: creation; MvSync.Specs has MVSyncSpecs, and MvSync.Main the main
--                    thread step by step
--   Timer            Sleep and the timer thread of src/timer.rs
--   Utils            src/utils.rs
--   Clock            Clock of src/clock.rs
-- Queue.Spec is the abstract specification of the queue with its threads, two bags of tasks, Queue.System
-- their step relation, and Queue.Single a queue of one thread whose loop and whose thread's loop take turns.
-- Base has what the parts share on numbers, lists, maps and bags; Tests has the data and the theorems at
-- concrete inputs.
-- A task's future, its handle and its controllers share a result buffer, a state cell and a signal. The
-- queue's loop moves tasks from its channel to those of the worker threads, whose loops poll them and at
-- the end signal the task's semaphores and wake its two signals, its own and the queue's.
--
-- Objects are named by their addresses in the world, and new ones take the next free address. The id
-- fields (next_id, id_eq!) are left out: nothing in the crate reads them. Values of all types are one data
-- type, Value. What user code does is an argument: the outcome of a function, or the replies of a future
-- to its polls. A lock's critical section is one step; lock poisoning is not modelled. A call of
-- Condvar::wait that would block ends the run of that thread with `blocks`. Channels are lists, which are
-- connected as long as their sender is there: Queue.drop and Worker.drop say when it is gone, and `recv`
-- then fails.
--
-- A loop that need not end takes fuel: await_sync a bound on the polls, run_all on the rounds, the threads'
-- loops on their turns. Await.Scripts shows that one unit for each poll is enough, MvSync.Served bounds the
-- turns of a thread, and Clock.wait_sync needs two units.
--
-- Instants are numbers of nanoseconds and are given to the code that reads the time. A poll of Clock::wait
-- reads the clock up to four times (its elapsed time, in Sleep::new, in Sleep::poll, and its last tick), and
-- each of these reads has an instant of its own in Clock.Reads. Clock::wait_sync is given the reads of each of
-- its polls, and what other threads do while it is parked.
--
-- A user writes a chain of commands as a value of Buffer.Commands.Typed.TypedChain, which has a constructor for
-- each trait method and the types of what it takes and gives; Buffer.Commands.Denotation has what the methods of
-- Option and Result do, without the model's values.
--
-- Not modelled: what the commands print; the copies of a command buffer that the unwinding of a panic
-- drops; a main thread that leaves its loop between the check of submit_to_main_thread and its send, which are
-- one step; and spurious wake-ups of condition variables.
pub mod Base
pub mod World
pub mod Exec
pub mod Signal
pub mod Sync
pub mod Task
pub mod Await
pub mod Run
pub mod Worker
pub mod Queue
pub mod Buffer
pub mod MvSync
mod Tests
pub mod Timer
pub mod Utils
pub mod Clock
