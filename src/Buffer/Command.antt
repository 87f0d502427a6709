-- ===== src/Buffer/Command.antt =====
-- `CommandBuffer` and `BufferedCommand` of src/command_buffers/buffer.rs. The copies of a buffer share
-- what `ptr` and `refs` point to; a copy of its own has `baked` alone. A method that changes its buffer
-- through a cast pointer returns the new one.
use mvsync.Base.{
  ℕ, ◌+◌, ◌-◌, ◌%◌, ◌^◌, Bool, true, false, not, ◌==◌, Option, none, some, List, [], ◌∷◌, ◌++◌,
  String, ◌||◌, ◌⊎◌, inl, inr, is_some, if◌then◌else◌,
}
use mvsync.World.{Value, text}
use mvsync.Exec.{done, unwinds, M, ◌>>=◌, pure, panic}
use mvsync.Sync.Fence
use mvsync.Task.{Task}
use mvsync.Task.Body.{Outcome, Script}
use mvsync.Task.Handle.{TaskHandle, TaskController}
use mvsync.Buffer.Raw
use mvsync.Buffer.Raw.{RawCommandBuffer}

-- The memory behind `ptr` and `refs`; `freed` says that both were deallocated.
pub record Shared : Type 0 where
  pub raw : RawCommandBuffer
  pub refs : ℕ
  pub freed : Bool

pub record CommandBuffer : Type 0 where
  pub baked : Option (List Task)

-- What a method comes to: its result and the shared memory.
abbrev pub Uses {ℓ} : Type ℓ → Type ℓ
Uses A = Shared → M (A × Shared)

abbrev pub refuse {ℓ} : {A : Type ℓ} → Value → Uses A
refuse message s = panic message

-- A result of the raw buffer.
abbrev pub on_raw {ℓ} : {A : Type ℓ} → (RawCommandBuffer → M (A × RawCommandBuffer)) → Uses A
on_raw f s = f s.raw >>= λ (a, raw). pure (a, record s { raw = raw })

pub data CommandBufferAllocationError : Type 0 where
  allocation_error : CommandBufferAllocationError

-- Its `Debug` and `Display`.
abbrev pub debug : CommandBufferAllocationError → String
debug allocation_error = "CommandBufferAllocationError: \"Failed to allocate command buffer!\""

abbrev pub display : CommandBufferAllocationError → String
display allocation_error = "Failed to allocate command buffer!"

-- The flags say whether the allocations gave a null pointer.
unfoldable pub new : Bool → Bool → ℕ → CommandBufferAllocationError ⊎ (CommandBuffer × Shared)
new ptr_is_null refs_is_null signal =
    if ptr_is_null || refs_is_null
    then inl allocation_error
    else inr (record { baked = none }, record { raw = Raw.new signal; refs = 1; freed = false })

abbrev pub already_baked : Value
already_baked = text "Command buffer has already been baked!"

abbrev pub living_references : Value
living_references = text "You cannot bake a command buffer that has other living references!"

abbrev pub modifies_baked : Value
modifies_baked = text "You cannot modify a baked command buffer!"

abbrev pub clones_baked : Value
clones_baked = text "You cannot clone a baked command buffer!"

abbrev pub not_baked : Value
not_baked = text "Command buffer has now been baked!"

-- The counter is a `usize`.
unfoldable pub clone : CommandBuffer → Uses CommandBuffer
clone b s =
    if is_some b.baked
    then panic clones_baked
    else pure (record { baked = none }, record s { refs = (s.refs + 1) % 2 ^ 64 })

unfoldable pub drop : Shared → Shared
drop s =
    let refs = (s.refs + 2 ^ 64 - 1) % 2 ^ 64 in
    if refs == 0 then record s { refs = refs; freed = true } else record s { refs = refs }

unfoldable pub finish : CommandBuffer → Uses CommandBuffer
unfolding Raw.finish
finish b s =
    if is_some b.baked
    then panic already_baked
    else if not (s.refs == 1)
    then panic living_references
    else (on_raw Raw.finish s >>= λ (ts, s'). pure (record { baked = some ts }, s'))

-- The buffer is consumed, so its copy is dropped.
unfoldable pub tasks : CommandBuffer → Uses (List Task)
unfolding drop
tasks b s = elim b.baked [ none ↦ panic not_baked | some ts ↦ pure (ts, drop s) ]

unfoldable pub link_chains : CommandBuffer → ℕ → ℕ → Uses (Unit {0})
link_chains b dependency successor s =
    if is_some b.baked
    then panic modifies_baked
    else pure (
      tt,
      record s {
        raw = record (s.raw) { chain_links = s.raw.chain_links ++ (dependency, successor) ∷ [] };
      },
    )

unfoldable pub create_fence : CommandBuffer → ℕ → Uses ℕ
unfolding Fence.new
create_fence b task_chain s w =
    if is_some b.baked
    then unwinds modifies_baked w
    else (let (fence, w') = Fence.new w in
        done
          (
            fence,
            record s { raw = record (s.raw) { fences = s.raw.fences ++ (task_chain, fence) ∷ [] } },
          )
          w')

-- A command holds a copy of its buffer and the handle of its task.
pub record BufferedCommand : Type 0 where
  pub parent : CommandBuffer
  pub response : TaskHandle

abbrev pub command : CommandBuffer → TaskHandle × Shared → M (BufferedCommand × Shared)
command parent (h, s) = pure (record { parent = parent; response = h }, s)

-- `CommandBufferEntry for CommandBuffer`: the copy is made before the task is added.
unfoldable pub start_sync_command : CommandBuffer → Outcome → Uses BufferedCommand
unfolding clone Raw.add_sync_task
start_sync_command b f s =
    if is_some b.baked
    then panic modifies_baked
    else (clone b s >>= λ (parent, s'). on_raw (Raw.add_sync_task f) s' >>= command parent)

unfoldable pub start_command : CommandBuffer → Script → Uses BufferedCommand
unfolding clone Raw.add_task
start_command b f s =
    if is_some b.baked
    then panic modifies_baked
    else (clone b s >>= λ (parent, s'). on_raw (Raw.add_task f) s' >>= command parent)

-- `Command for BufferedCommand`: the old command is consumed, so its copy is dropped at the end.
unfoldable pub add_sync_command : BufferedCommand → (Value → Outcome) → Uses BufferedCommand
unfolding clone drop Raw.add_sync_chained_task
add_sync_command c f s = clone c.parent s >>= λ (parent, s').
    on_raw (Raw.add_sync_chained_task f c.response) s' >>= λ (h, s''). command parent (h, drop s'')

unfoldable pub add_command : BufferedCommand → (Value → Script) → Uses BufferedCommand
unfolding clone drop Raw.add_chained_task
add_command c f s = clone c.parent s >>= λ (parent, s').
    on_raw (Raw.add_chained_task f c.response) s' >>= λ (h, s''). command parent (h, drop s'')

unfoldable pub response : BufferedCommand → Uses (TaskHandle × List TaskController)
unfolding drop Raw.get_controllers
response c s =
    on_raw Raw.get_controllers s >>= λ (controllers, s'). pure ((c.response, controllers), drop s')
