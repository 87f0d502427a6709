-- ===== src/Run.antt =====
-- src/run.rs: what a queue with no threads does with tasks, on the thread that submits them.
pub mod Settle
pub mod Execute
pub mod Ended
pub mod Rounds
use mvsync.Base.{ℕ, zero, suc, ◌+◌, Bool, true, false, ◌||◌, List, [], ◌∷◌, leb, if◌then◌else◌}
use mvsync.World.{World, TaskState, set_state}
use mvsync.Exec.{done, out_of_fuel, M, and_then, ◌>>=◌, ◌>>◌, act, pure}
use mvsync.Signal
use mvsync.Sync.Semaphore
use mvsync.Task
use mvsync.Task.{Task}
use mvsync.Task.Body
use mvsync.Await.{await_sync}

-- `for semaphore in semaphores { semaphore.signal(); }`.
unfoldable pub signal_all : List ℕ → World → World
unfolding Semaphore.signal
signal_all [] w = w
signal_all (s ∷ ss) w = signal_all ss (Semaphore.signal s w)

-- The two loops that end every task: its semaphores are signalled, then its two signals are woken.
unfoldable pub settle : List ℕ → ℕ × ℕ → World → World
unfolding signal_all Signal.wake
settle semaphores signal w = Signal.wake signal.1 (Signal.wake signal.0 (signal_all semaphores w))

-- The branch for a task whose predecessor has panicked.
unfoldable pub pass_panic : Task → M (Unit {0})
unfolding Task.get_panic settle
pass_panic t = do
  p ← Task.get_panic t
  act (set_state (Task.own_state t) (TaskState.panicked p))
  act (settle t.semaphores t.signal)

-- The branch for a task that is cancelled, or whose predecessor is.
unfoldable pub pass_cancel : Task → M (Unit {0})
unfolding settle
pass_cancel t = do
  act (set_state (Task.own_state t) TaskState.cancelled)
  act (settle t.semaphores t.signal)

unfoldable pub execute : ℕ → Task → M (Unit {0})
unfolding await_sync Body.poll settle
execute fuel t = do await_sync Body.poll fuel t.inner; act (settle t.semaphores t.signal)

unfoldable pub run : ℕ → Task → M (Unit {0})
unfolding Task.is_panicked Task.is_cancelled Task.can_execute pass_panic pass_cancel execute
run fuel t w =
    if Task.is_panicked t w
    then pass_panic t w
    else if Task.is_cancelled t w
    then pass_cancel t w
    else if Task.can_execute t w
    then execute fuel t w
    else done tt w

-- The body of the loop over the tasks; whether the task ran.
unfoldable pub try_run : ℕ → Task → M Bool
unfolding Task.is_panicked Task.is_cancelled Task.can_execute pass_panic pass_cancel execute
try_run fuel t w =
    if Task.is_panicked t w
    then (pass_panic t >> pure true) w
    else if Task.is_cancelled t w
    then (pass_cancel t >> pure true) w
    else if Task.can_execute t w
    then (execute fuel t >> pure true) w
    else done false w

-- One round over the tasks: those that did not run, in order, and whether any did.
unfoldable pub run_pass : ℕ → List Task → M (List Task × Bool)
unfolding try_run
run_pass fuel [] = pure ([], false)
run_pass fuel (t ∷ ts) = do
  now ← try_run fuel t
  (new_tasks, later) ← run_pass fuel ts
  pure (if now then new_tasks else t ∷ new_tasks, now || later)

-- The end of a round, before the next one by `loop`. `count` is declared inside the loop of the
-- source, so each round starts it at 0.
unfoldable pub next_round : (List Task → M (Unit {0})) → List Task × Bool → M (Unit {0})
next_round loop (new_tasks, ran) w =
    let count : ℕ = 0 in
    if ran then loop new_tasks w else if leb 5 (count + 1) then done tt w else loop new_tasks w

-- The outer loop, by rounds.
unfoldable pub run_all : ℕ → ℕ → List Task → M (Unit {0})
unfolding run_pass next_round
run_all zero fuel tasks w = out_of_fuel
run_all (suc rounds) fuel tasks w =
    and_then (run_pass fuel tasks w) (next_round (run_all rounds fuel))
