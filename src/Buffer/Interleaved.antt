-- ===== src/Buffer/Interleaved.antt =====
-- Chains of commands on one buffer of src/command_buffers/buffer.rs that are recorded by turns: a command that
-- continues an earlier chain goes into the chain that was started last.
use mvsync.Base.{
  ◌+◌, ◌%◌, ◌^◌, true, false, some, List, [], ◌∷◌, ◌++◌, ◌≡◌, refl, ap, ltb, length, length-append,
  is_empty, get_elem?, modify, arith,
}
use mvsync.World.{World, Value}
use mvsync.Exec.{done}
use mvsync.Task
use mvsync.Task.{Task}
use mvsync.Task.Body
use mvsync.Task.Body.{Outcome}
use mvsync.Task.Handle
use mvsync.Task.Handle.{TaskHandle}
use mvsync.Buffer.Chain
use mvsync.Buffer.Chain.{TaskChain}
use mvsync.Buffer.Raw
use mvsync.Buffer.Raw.{RawCommandBuffer}
use mvsync.Buffer.Command
use mvsync.Buffer.Command.{Shared, BufferedCommand}
use mvsync.Buffer.Calls.{unbaked, command}

modify_last :
    (cs : List TaskChain) (c : TaskChain) (f : TaskChain → TaskChain)
    → modify (cs ++ c ∷ []) (length cs) f ≡ cs ++ f c ∷ []
modify_last [] c f = refl
modify_last (d ∷ cs) c f = ap (λ xs. d ∷ xs) (modify_last cs c f)

get_elem?_last :
    (cs : List TaskChain) (c : TaskChain) → get_elem? (cs ++ c ∷ []) (length cs) ≡ some c
get_elem?_last [] c = refl
get_elem?_last (d ∷ cs) c = get_elem?_last cs c

ltb_last : (cs : List TaskChain) (c : TaskChain) → ltb (length cs) (length (cs ++ c ∷ [])) ≡ true
ltb_last cs c = rw (length-append cs (c ∷ [])) (ground arith)

-- A buffer whose last chain is the current one.
abbrev ending_in : RawCommandBuffer → List TaskChain → TaskChain → RawCommandBuffer
ending_in r cs c = record r { tasks = cs ++ c ∷ []; group = length cs }

add_to_group_last :
    (t : Task) (h : TaskHandle) (r : RawCommandBuffer) (cs : List TaskChain) (c : TaskChain)
    (w : World)
    → Raw.add_to_group t h (ending_in r cs c) w
      ≡ done (h, ending_in r cs (Chain.add_task c t (Handle.make_controller h))) w
unfolding Raw.add_to_group
add_to_group_last t h r cs c w =
    rw (ltb_last cs c)
      (rw (modify_last cs c (λ d. Chain.add_task d t (Handle.make_controller h))) refl)

open_chain_nonempty :
    (r : RawCommandBuffer) (c : TaskChain) (w : World)
    → get_elem? r.tasks r.group ≡ some c
    → is_empty c.tasks ≡ false
    → r.group + 1 ≡ length r.tasks
    → Raw.open_chain r w ≡ done (ending_in r r.tasks Chain.new) w
unfolding Raw.open_chain
open_chain_nonempty r c w at busy last =
    rw (at, Raw.open_chain) (rw (busy, Raw.open_chain) (rw last refl))

module _ (r : RawCommandBuffer) (w : World) where
  start_last :
      (g : Outcome) (c : TaskChain)
      → get_elem? r.tasks r.group ≡ some c
      → is_empty c.tasks ≡ false
      → r.group + 1 ≡ length r.tasks
      → let (h, v) = Handle.new_handle w in
        let (t, v') = Task.from_function g h.inner h.state (h.signal, r.signal) v in
        Raw.add_sync_task g r w
        ≡ done (h, ending_in r r.tasks (Chain.add_task Chain.new t (Handle.make_controller h))) v'
  unfolding Raw.add_sync_task
  start_last g c at busy last =
      let (h, v) = Handle.new_handle w in
      let (t, v') = Task.from_function g h.inner h.state (h.signal, r.signal) v in
      rw (open_chain_nonempty r c w at busy last) (add_to_group_last t h r r.tasks Chain.new v')

  chain_last :
      (f : Value → Outcome) (p : TaskHandle) (cs : List TaskChain) (c : TaskChain)
      → let (h, v) = Handle.new_handle w in
        let t = Task.from_continuation f h.inner h.state (h.signal, r.signal) p in
        Raw.add_sync_chained_task f p (ending_in r cs c) w
        ≡ done (h, ending_in r cs (Chain.add_task c t (Handle.make_controller h))) v
  unfolding Raw.add_sync_chained_task
  chain_last f p cs c =
      let (h, v) = Handle.new_handle w in
      add_to_group_last (Task.from_continuation f h.inner h.state (h.signal, r.signal) p) h r cs c v

  controllers_last :
      (cs : List TaskChain) (c : TaskChain)
      → Raw.get_controllers (ending_in r cs c) w
        ≡ done (c.controllers, ending_in r cs (Chain.get_controllers c).1) w
  unfolding Raw.get_controllers
  controllers_last cs c =
      rw (get_elem?_last cs c, Raw.get_controllers)
        (rw (modify_last cs c (λ d. (Chain.get_controllers d).1)) refl)

raw-drop : (s : Shared) → (Command.drop s).raw ≡ s.raw
unfolding Command.drop
raw-drop s = ground arith

response_last :
    (h : TaskHandle) (s : Shared) (r : RawCommandBuffer) (cs : List TaskChain) (c : TaskChain)
    (w : World)
    → s.raw ≡ ending_in r cs c
    → Command.response (command h) s w
      ≡ done
          (
            (h, c.controllers),
            Command.drop (record s { raw = ending_in r cs (Chain.get_controllers c).1 }),
          )
          w
unfolding Command.response
response_last h s r cs c w e = rw e (rw (controllers_last r w cs c) refl)

-- A command that continues any earlier one, whose task may be in any chain, goes into the chain that was
-- started last: it stands there behind the first command of that chain, though its predecessor is the earlier
-- one, and its response hands out the controllers of that chain, and only these.
pub add_sync_command-last_chain :
    (earlier : TaskHandle) (g : Outcome) (f : Value → Outcome) (s : Shared) (c : TaskChain)
    (w : World)
    → get_elem? s.raw.tasks s.raw.group ≡ some c
    → is_empty c.tasks ≡ false
    → s.raw.group + 1 ≡ length s.raw.tasks
    → (c₁ c₂ : BufferedCommand) × (s₁ s₂ s₃ : Shared) × (w₁ w₂ : World) × (t₁ t₂ : Task)
      × (Command.start_sync_command unbaked g s w ≡ done (c₁, s₁) w₁)
      × (Command.add_sync_command (command earlier) f s₁ w₁ ≡ done (c₂, s₂) w₂)
      × (t₂.inner ≡ Body.continuing f c₂.response.inner c₂.response.state earlier)
      × (s₂.raw.tasks
          ≡ s.raw.tasks
            ++ record {
              tasks = t₁ ∷ t₂ ∷ [];
              controllers =
                  Handle.make_controller c₁.response ∷ Handle.make_controller c₂.response ∷ [];
            }
              ∷ [])
      × (Command.response c₂ s₂ w₂
          ≡ done
              (
                (
                  c₂.response,
                  Handle.make_controller c₁.response ∷ Handle.make_controller c₂.response ∷ [],
                ),
                s₃,
              )
              w₂)
unfolding Command.start_sync_command Command.add_sync_command Command.response Command.clone
    Task.from_continuation Chain.add_task
add_sync_command-last_chain earlier g f s c w at busy last =
    let q = s.raw.signal in
    let (h₁, v₁) = Handle.new_handle w in
    let (t₁, w₁) = Task.from_function g h₁.inner h₁.state (h₁.signal, q) v₁ in
    let (h₂, w₂) = Handle.new_handle w₁ in
    let t₂ = Task.from_continuation f h₂.inner h₂.state (h₂.signal, q) earlier in
    let one = Chain.add_task Chain.new t₁ (Handle.make_controller h₁) in
    let two = Chain.add_task one t₂ (Handle.make_controller h₂) in
    let refs = (s.refs + 1) % 2 ^ 64 in
    let s₁ : Shared = record s { raw = ending_in s.raw s.raw.tasks one; refs = refs } in
    let kept : Shared = record s {
      raw = ending_in s.raw s.raw.tasks two;
      refs = (refs + 1) % 2 ^ 64;
    } in
    (
      command h₁,
      command h₂,
      s₁,
      Command.drop kept,
      Command.drop (record (Command.drop kept) {
        raw = ending_in s.raw s.raw.tasks (Chain.get_controllers two).1;
      }),
      w₁,
      w₂,
      t₁,
      t₂,
      rw (start_last s.raw w g c at busy last) refl,
      rw (chain_last s.raw w₁ f earlier s.raw.tasks one) refl,
      refl,
      ap (λ (r : RawCommandBuffer). r.tasks) (raw-drop kept),
      response_last h₂ (Command.drop kept) s.raw s.raw.tasks two w₂ (raw-drop kept),
    )
