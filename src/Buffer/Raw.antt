-- ===== src/Buffer/Raw.antt =====
-- `RawCommandBuffer` of src/command_buffers/buffer.rs. The current chain is `tasks[group]`; an index
-- out of bounds panics, as it does for a vector.
use mvsync.Base.{
  ℕ, ◌+◌, ◌&&◌, List, [], ◌∷◌, ◌++◌, none, some, ltb, length, is_empty, get_elem?, modify,
  if◌then◌else◌,
}
use mvsync.World.{World, Value, text}
use mvsync.Exec.{done, unwinds, M, ◌>>=◌, ◌>>◌}
use mvsync.Sync.Semaphore
use mvsync.Task
use mvsync.Task.{Task}
use mvsync.Task.Body.{Outcome, Script}
use mvsync.Task.Handle
use mvsync.Task.Handle.{TaskHandle, TaskController}
use mvsync.Buffer.Chain
use mvsync.Buffer.Chain.{TaskChain}

pub record RawCommandBuffer : Type 0 where
  pub tasks : List TaskChain
  pub chain_links : List (ℕ × ℕ)
  pub fences : List (ℕ × ℕ)
  pub group : ℕ
  pub signal : ℕ

abbrev pub new : ℕ → RawCommandBuffer
new signal = record {
  tasks = Chain.new ∷ [];
  chain_links = [];
  fences = [];
  group = 0;
  signal = signal;
}

abbrev index_out_of_bounds : Value
index_out_of_bounds = text "index out of bounds"

-- A new chain is opened unless the current one is empty.
unfoldable pub open_chain : RawCommandBuffer → M RawCommandBuffer
open_chain r w = elim (get_elem? r.tasks r.group) [
  | none ↦ unwinds index_out_of_bounds w
  | some c ↦
      if is_empty c.tasks
      then done r w
      else done (record r { group = r.group + 1; tasks = r.tasks ++ Chain.new ∷ [] }) w
]

-- `self.tasks[self.group].add_task(task, result.make_controller())`.
unfoldable pub add_to_group :
    Task → TaskHandle → RawCommandBuffer → M (TaskHandle × RawCommandBuffer)
unfolding Chain.add_task Handle.make_controller
add_to_group t h r w =
    if ltb r.group (length r.tasks)
    then done
        (
          h,
          record r {
            tasks = modify r.tasks r.group (λ c. Chain.add_task c t (Handle.make_controller h));
          },
        )
        w
    else unwinds index_out_of_bounds w

unfoldable pub add_sync_task : Outcome → RawCommandBuffer → M (TaskHandle × RawCommandBuffer)
unfolding open_chain Handle.new_handle Task.from_function add_to_group
add_sync_task f r = open_chain r >>= λ r' w.
    let (h, w₁) = Handle.new_handle w in
    let (t, w₂) = Task.from_function f h.inner h.state (h.signal, r'.signal) w₁ in
    add_to_group t h r' w₂

unfoldable pub add_task : Script → RawCommandBuffer → M (TaskHandle × RawCommandBuffer)
unfolding open_chain Handle.new_handle Task.from_async add_to_group
add_task f r = open_chain r >>= λ r' w.
    let (h, w₁) = Handle.new_handle w in
    let (t, w₂) = Task.from_async f h.inner h.state (h.signal, r'.signal) w₁ in
    add_to_group t h r' w₂

unfoldable pub add_chained_task :
    (Value → Script) → TaskHandle → RawCommandBuffer → M (TaskHandle × RawCommandBuffer)
unfolding Handle.new_handle Task.from_async_continuation add_to_group
add_chained_task f predecessor r w =
    let (h, w₁) = Handle.new_handle w in
    add_to_group (Task.from_async_continuation f h.inner h.state (h.signal, r.signal) predecessor) h
      r w₁

unfoldable pub add_sync_chained_task :
    (Value → Outcome) → TaskHandle → RawCommandBuffer → M (TaskHandle × RawCommandBuffer)
unfolding Handle.new_handle Task.from_continuation add_to_group
add_sync_chained_task f predecessor r w =
    let (h, w₁) = Handle.new_handle w in
    add_to_group (Task.from_continuation f h.inner h.state (h.signal, r.signal) predecessor) h r w₁

unfoldable pub get_controllers : RawCommandBuffer → M (List TaskController × RawCommandBuffer)
unfolding Chain.get_controllers
get_controllers r w = elim (get_elem? r.tasks r.group) [
  | none ↦ unwinds index_out_of_bounds w
  | some c ↦
      done
        (
          c.controllers,
          record r { tasks = modify r.tasks r.group (λ d. (Chain.get_controllers d).1) },
        )
        w
]

-- The messages name the indices; here they are left out.
abbrev pub fence_out_of_bounds : Value
fence_out_of_bounds = text "Fence index out of bounds"

abbrev pub semaphore_out_of_bounds : Value
semaphore_out_of_bounds = text "Semaphore index out of bounds"

unfoldable pub bind_fences : List (ℕ × ℕ) → List TaskChain → M (Unit {0})
unfolding Chain.ending_fence
bind_fences [] chains w = done tt w
bind_fences ((i, fence) ∷ fences) chains w = elim (get_elem? chains i) [
  | none ↦ unwinds fence_out_of_bounds w
  | some c ↦ bind_fences fences chains (Chain.ending_fence c fence w)
]

unfoldable pub link_all : List (ℕ × ℕ) → List TaskChain → M (List TaskChain)
unfolding Semaphore.new Chain.ending_semaphore Chain.starting_semaphore
link_all [] chains w = done chains w
link_all ((e, s) ∷ links) chains w =
    let rest =
      let (semaphore, w') = Semaphore.new w in
      link_all links
        (modify (modify chains e (λ c. Chain.ending_semaphore c semaphore)) s
          (λ c. Chain.starting_semaphore c semaphore))
        w' in
    if ltb e (length chains) && ltb s (length chains)
    then rest
    else unwinds semaphore_out_of_bounds w

-- `flat_map(|mut chain| chain.chain_semaphores())`.
unfoldable pub chain_all : List TaskChain → World → List Task × World
unfolding Chain.chain_semaphores
chain_all [] w = ([], w)
chain_all (c ∷ cs) w =
    let (ts, w') = Chain.chain_semaphores c w in let (us, w'') = chain_all cs w' in (ts ++ us, w'')

-- The fences, the links and the chains are all drained.
unfoldable pub finish : RawCommandBuffer → M (List Task × RawCommandBuffer)
unfolding bind_fences link_all chain_all
finish r = bind_fences r.fences r.tasks >> link_all r.chain_links r.tasks >>= λ chains w.
    let (ts, w') = chain_all chains w in
    done (ts, record r { tasks = []; chain_links = []; fences = [] }) w'
