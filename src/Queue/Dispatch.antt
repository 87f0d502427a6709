-- ===== src/Queue/Dispatch.antt =====
-- The round of `Queue::run` in src/queue.rs over the tasks at hand: which thread gets a task, and which
-- tasks remain. The threads are a list, as in the source; a thread is named by its index.
use mvsync.Base.{
  ℕ, zero, suc, Bool, true, false, not, ◌||◌, Option, none, some, List, [], ◌∷◌, String, str_eq,
  ltb, leb, is_some, get_elem?, if◌then◌else◌,
}
use mvsync.World.{World}
use mvsync.Exec.{done, M, ◌>>=◌, ◌>>◌, pure}
use mvsync.Task
use mvsync.Task.{Task}
use mvsync.Worker
use mvsync.Worker.{WorkerThread}
use mvsync.Run.{pass_panic, pass_cancel}
use mathlib.Core.Option

abbrev pub contains : List String → String → Bool
contains [] l = false
contains (x ∷ xs) l = str_eq x l || contains xs l

-- `thread.get_label() == Some(label)`.
abbrev pub has_label : String → WorkerThread → Bool
has_label l t = elim (Worker.get_label t) [ none ↦ false | some m ↦ str_eq m l ]

-- The filter for a task without a preferred thread.
abbrev pub allowed : List String → WorkerThread → Bool
allowed not_on t = elim (Worker.get_label t) [ none ↦ true | some m ↦ not (contains not_on m) ]

-- `threads.iter().find(..)`.
unfoldable pub find_label : String → List WorkerThread → Option ℕ
find_label l [] = none
find_label l (t ∷ ts) = if has_label l t then some 0 else Option.map suc (find_label l ts)

-- A thread at index `i` with key `k` before the best of the rest: the later one wins a tie.
unfoldable pub better : ℕ → Option (ℕ × ℕ) → Option (ℕ × ℕ)
better k none = some (0, k)
better k (some (j, best)) = if leb k best then some (suc j, best) else some (0, k)

-- `threads.iter().filter(..).max_by_key(|thread| thread.free_workers())`, with the key.
unfoldable pub max_by_key : List String → List WorkerThread → Option (ℕ × ℕ)
unfolding better
max_by_key not_on [] = none
max_by_key not_on (t ∷ ts) =
    if allowed not_on t
    then better (Worker.free_workers t) (max_by_key not_on ts)
    else Option.map (λ (j, best). (suc j, best)) (max_by_key not_on ts)

unfoldable pub target_thread : Task → List WorkerThread → Option ℕ
unfolding find_label max_by_key
target_thread t threads = elim (Task.get_preferred_thread t) [
  | some label ↦ find_label label threads
  | none ↦ Option.map (λ (j, best). j) (max_by_key (Task.get_not_on t) threads)
]

-- A task that no thread suits loses its preference, or else its exclusions.
unfoldable pub relax : Task → Task
unfolding Task.remove_preferred_thread Task.clear_not_on
relax t =
    if is_some (Task.get_preferred_thread t)
    then Task.remove_preferred_thread t
    else Task.clear_not_on t

-- `threads[i].send(task)`.
unfoldable pub send_to : ℕ → Task → List WorkerThread → World → List WorkerThread × World
unfolding Worker.send
send_to i task [] w = ([], w)
send_to zero task (t ∷ ts) w = let (t', w') = Worker.send task t w in (t' ∷ ts, w')
send_to (suc i) task (t ∷ ts) w = let (ts', w') = send_to i task ts w in (t ∷ ts', w')

-- What one round does with a task: the task if it remains, and the threads.
abbrev pub Dispatched : Type 0
Dispatched = Option Task × List WorkerThread

-- `if let Some(thread) = target_thread { .. }`; the thread, and its index.
unfoldable pub offer_to : Option WorkerThread → ℕ → Task → List WorkerThread → M Dispatched
unfolding send_to
offer_to none i task threads w = done (some task, threads) w
offer_to (some thread) i task threads w =
    if ltb 0 (Worker.free_workers thread)
    then (let (threads', w') = send_to i task threads w in done (none, threads') w')
    else done (some task, threads) w

unfoldable pub offer : ℕ → Task → List WorkerThread → M Dispatched
unfolding offer_to
offer i task threads = offer_to (get_elem? threads i) i task threads

unfoldable pub assign : Task → List WorkerThread → M Dispatched
unfolding target_thread offer relax
assign task threads = elim (target_thread task threads) [
  | some i ↦ offer i task threads
  | none ↦ pure (some (relax task), threads)
]

unfoldable pub dispatch : Task → List WorkerThread → M Dispatched
unfolding Task.can_execute Task.is_panicked Task.is_cancelled pass_panic pass_cancel assign
dispatch task threads w =
    if Task.can_execute task w
    then (if Task.is_panicked task w
        then (pass_panic task >> pure (none, threads)) w
        else if Task.is_cancelled task w
        then (pass_cancel task >> pure (none, threads)) w
        else assign task threads w)
    else done (some task, threads) w

abbrev pub keep : Option Task → List Task → List Task
keep none ts = ts
keep (some t) ts = t ∷ ts

-- One round over `tasks`: the remaining tasks and the threads.
unfoldable pub dispatch_all : List Task → List WorkerThread → M (List Task × List WorkerThread)
unfolding dispatch
dispatch_all [] threads = pure ([], threads)
dispatch_all (t ∷ ts) threads = do
  (left, threads') ← dispatch t threads
  (remaining, threads'') ← dispatch_all ts threads'
  pure (keep left remaining, threads'')
