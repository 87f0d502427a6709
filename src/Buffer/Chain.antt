-- ===== src/Buffer/Chain.antt =====
-- `TaskChain` of src/command_buffers/buffer.rs.
use mvsync.Base.{
  ℕ, ◌-◌, List, [], ◌∷◌, ◌++◌, Option, none, some, length, is_empty, modify, if◌then◌else◌,
}
use mvsync.World.{World}
use mvsync.Sync.{SemaphoreUsage}
use mvsync.Sync.Semaphore
use mvsync.Task
use mvsync.Task.{Task}
use mvsync.Task.Handle.{TaskController}

pub record TaskChain : Type 0 where
  pub tasks : List Task
  pub controllers : List TaskController

abbrev pub new : TaskChain
new = record { tasks = []; controllers = [] }

unfoldable pub add_task : TaskChain → Task → TaskController → TaskChain
add_task c t k = record { tasks = c.tasks ++ t ∷ []; controllers = c.controllers ++ k ∷ [] }

unfoldable pub starting_semaphore : TaskChain → ℕ → TaskChain
unfolding Task.bind_semaphore
starting_semaphore c s =
    if is_empty c.tasks
    then c
    else record c { tasks = modify c.tasks 0 (λ t. Task.bind_semaphore t s SemaphoreUsage.wait) }

unfoldable pub ending_semaphore : TaskChain → ℕ → TaskChain
unfolding Task.bind_semaphore
ending_semaphore c s = if is_empty c.tasks then c else record c {
  tasks = modify c.tasks (length c.tasks - 1) (λ t. Task.bind_semaphore t s SemaphoreUsage.signal);
}

abbrev pub last? : List Task → Option Task
last? [] = none
last? (t ∷ []) = some t
last? (t ∷ u ∷ ts) = last? (u ∷ ts)

-- The fence is bound to the signal of the last task.
unfoldable pub ending_fence : TaskChain → ℕ → World → World
unfolding Task.bind_fence
ending_fence c f w = elim (last? c.tasks) [ none ↦ w | some t ↦ Task.bind_fence t f w ]

-- The loop of `chain_semaphores` from the task `t` on: each task signals a fresh semaphore for which
-- the next one waits.
unfoldable pub link : Task → List Task → World → List Task × World
unfolding Task.bind_semaphore Semaphore.new
link t [] w = (t ∷ [], w)
link t (u ∷ ts) w =
    let (s, w') = Semaphore.new w in
    let (us, w'') = link (Task.bind_semaphore u s SemaphoreUsage.wait) ts w' in
    (Task.bind_semaphore t s SemaphoreUsage.signal ∷ us, w'')

unfoldable pub chain_tasks : List Task → World → List Task × World
unfolding link
chain_tasks [] w = ([], w)
chain_tasks (t ∷ ts) w = link t ts w

-- The tasks are drained; the controllers stay.
unfoldable pub chain_semaphores : TaskChain → World → List Task × World
unfolding chain_tasks
chain_semaphores c w = chain_tasks c.tasks w

unfoldable pub get_controllers : TaskChain → List TaskController × TaskChain
get_controllers c = (c.controllers, record c { controllers = [] })
