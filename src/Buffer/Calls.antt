-- ===== src/Buffer/Calls.antt =====
-- A chain of commands from the first call on a buffer on: the calls, and what they record.
use mvsync.Base.{ℕ, suc, ◌≤◌, ◌<◌, true, false, none, List, [], ◌∷◌, ◌++◌, ◌≡◌, refl, ◌∙◌, arith}
use mathlib.Core.List.{append_assoc, append-nil}
use mvsync.World.{World, Value}
use mvsync.Exec.{done, ◌>>=◌, pure}
use mvsync.Task
use mvsync.Task.{Task}
use mvsync.Task.Body.{Outcome}
use mvsync.Task.Handle
use mvsync.Task.Handle.{TaskHandle, TaskController}
use mvsync.Buffer.Command
use mvsync.Buffer.Command.{Shared, CommandBuffer, BufferedCommand, Uses, add_sync_command}
use mvsync.Buffer.Pipeline.{IsChain}

-- The handles, tasks and controllers of a chain of calls, and the world after it.
abbrev pub conts : List (Value → Outcome) → TaskHandle → ℕ → World → List Task
conts [] p q w = []
conts (g ∷ gs) p q w =
    let (h, w₁) = Handle.new_handle w in
    Task.from_continuation g h.inner h.state (h.signal, q) p ∷ conts gs h q w₁

abbrev pub controls : List (Value → Outcome) → World → List TaskController
controls [] w = []
controls (g ∷ gs) w = let (h, w₁) = Handle.new_handle w in Handle.make_controller h ∷ controls gs w₁

abbrev pub last_handle : List (Value → Outcome) → TaskHandle → World → TaskHandle
last_handle [] p w = p
last_handle (g ∷ gs) p w = let (h, w₁) = Handle.new_handle w in last_handle gs h w₁

abbrev pub after : List (Value → Outcome) → World → World
after [] w = w
after (g ∷ gs) w = after gs (Handle.new_handle w).1

-- The shared memory of a buffer with one chain.
abbrev pub shared : List Task → List TaskController → ℕ → ℕ → Shared
shared ts ks q refs = record {
  raw = record {
    tasks = record { tasks = ts; controllers = ks } ∷ [];
    chain_links = [];
    fences = [];
    group = 0;
    signal = q;
  };
  refs = refs;
  freed = false;
}

abbrev pub unbaked : CommandBuffer
unbaked = record { baked = none }

abbrev pub command : TaskHandle → BufferedCommand
command h = record { parent = unbaked; response = h }

-- `command.add_sync_command(g₁).add_sync_command(g₂)…`.
unfoldable pub add_all : List (Value → Outcome) → BufferedCommand → Uses BufferedCommand
unfolding add_sync_command
add_all [] c s = pure (c, s)
add_all (g ∷ gs) c s = add_sync_command c g s >>= λ (c', s'). add_all gs c' s'

-- A chain from its first function on, up to the tasks that are submitted and the handle of the last.
unfoldable pub record_chain :
    CommandBuffer → Outcome → List (Value → Outcome) → Uses (TaskHandle × List Task)
unfolding Command.start_sync_command Command.response Command.finish Command.tasks
record_chain b f gs s = Command.start_sync_command b f s >>= λ (c, s₁).
    add_all gs c s₁ >>= λ (c', s₂). Command.response c' s₂ >>= λ ((h, ks), s₃).
    Command.finish b s₃ >>= λ (b', s₄). Command.tasks b' s₄ >>= λ (ts, s₅). pure ((h, ts), s₅)

pub add_all_lem :
    (gs : List (Value → Outcome)) (p : TaskHandle) (ts : List Task) (ks : List TaskController)
    (q : ℕ) (w : World)
    → add_all gs (command p) (shared ts ks q 2) w
      ≡ done
          (command (last_handle gs p w), shared (ts ++ conts gs p q w) (ks ++ controls gs w) q 2)
          (after gs w)
unfolding add_all
add_all_lem [] p ts ks q w = rw (append-nil ts) (rw (append-nil ks))
add_all_lem (g ∷ gs) p ts ks q w =
    let (h, w₁) = Handle.new_handle w in
    let t = Task.from_continuation g h.inner h.state (h.signal, q) p in
    let k = Handle.make_controller h in
    add_all_lem gs h (ts ++ t ∷ []) (ks ++ k ∷ []) q w₁
    ∙ rw (append_assoc ts (t ∷ []) (conts gs h q w₁))
        (rw (append_assoc ks (k ∷ []) (controls gs w₁)))

-- Addresses only grow, and the states that are there stay.
pub after-next : (gs : List (Value → Outcome)) (w : World) → w.next ≤ (after gs w).next
unfolding Handle.new_handle
after-next [] w = omega arith
after-next (g ∷ gs) w = omega (arith, after-next gs (Handle.new_handle w).1)

pub states-after :
    (gs : List (Value → Outcome)) (w : World) (i : ℕ)
    → i < w.next
    → (after gs w).states i ≡ w.states i
unfolding Handle.new_handle
states-after [] w i h = refl
states-after (g ∷ gs) w i h = states-after gs (Handle.new_handle w).1 i (omega arith) ∙ ground arith

pub conts-IsChain :
    (gs : List (Value → Outcome)) (p : TaskHandle) (q lo : ℕ) (w : World)
    → lo ≤ w.next
    → IsChain p gs (conts gs p q w) lo (after gs w).next (last_handle gs p w) (after gs w)
unfolding Handle.new_handle Task.from_continuation
conts-IsChain [] p q lo w le = refl
conts-IsChain (g ∷ gs) p q lo w le =
    let (h, w₁) = Handle.new_handle w in
    (
      h,
      record {
        inner = refl;
        self_state = refl;
        state = refl;
        own = refl;
        anywhere = refl;
        included = refl;
      },
      refl,
      omega arith,
      omega (arith, after-next gs w₁),
      states-after gs w₁ h.state (omega arith) ∙ ground arith,
      conts-IsChain gs h q (suc h.state) w₁ (omega arith),
    )

-- The buffer after its tasks were taken.
abbrev pub spent : ℕ → Shared
spent q = record {
  raw = record { tasks = []; chain_links = []; fences = []; group = 0; signal = q };
  refs = 0;
  freed = true;
}
