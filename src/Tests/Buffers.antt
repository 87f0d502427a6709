-- ===== src/Tests/Buffers.antt =====
-- Command buffers on concrete inputs, and the theorems on them at concrete inputs.
use mvsync.Base.{ℕ, ◌+◌, true, false, some, List, [], ◌∷◌, ◌≡◌, refl, arith}
use mvsync.World.{World, Value, num, text, err_value}
use mvsync.Exec.{done, unwinds}
use mvsync.Task.{Task}
use mvsync.Task.Body.{Outcome, continuing}
use mvsync.Task.Handle
use mvsync.Task.Handle.{TaskHandle, TaskResult}
use mvsync.Run.{run_all, run_pass}
use mvsync.Buffer.Chain
use mvsync.Buffer.Raw.{RawCommandBuffer, finish}
use mvsync.Buffer.Counted.{IsCounted}
use mvsync.Buffer.Copies.{Held, Step, Reach, Reach-new-IsCounted}
use mvsync.Buffer.Command
use mvsync.Buffer.Command.{Shared, CommandBuffer, BufferedCommand}
use mvsync.Buffer.Calls.{record_chain, unbaked, shared, command}
use mvsync.Buffer.Record.{record_chain-runs, record_chain-panics}
use mvsync.Buffer.Commands.Typed.{Shape, Result, Answer, TypedCommand, TypedChain, record_calls}
use mvsync.Buffer.Commands.Inline.{record_calls-meaning_all}
use mvsync.Buffer.Bake.{IsBaked, finish_lem}
use mvsync.Buffer.Interleaved.{add_sync_command-last_chain}
use mvsync.Exec.Guarded.{Guarded}
use mvsync.Queue.{Queue, push_all}
use mvsync.Queue.Buffers.{submit_command_buffers, submit_command_buffers_lem}
use mvsync.Tests.Data.{world, task, threads, inline_queue}

-- One that adds five to a number, and one that says what it was given.
abbrev add_five : Value → Outcome
add_five (num n) = Outcome.returns (num (n + 5))
add_five v = Outcome.panics (text "not a number")

abbrev wrap : Value → Outcome
wrap v = Outcome.returns (text "done")

record_chain-runs_example :
    (h : TaskHandle) × (ts : List Task) × (s : Shared) × (w₁ w₂ w₃ : World) × (record_chain unbaked
        (Outcome.returns (num 1))
        (add_five ∷ add_five ∷ [])
        (shared [] [] 12 1)
        world
      ≡ done ((h, ts), s) w₁)
    × (s.freed ≡ true)
    × (run_pass 1 ts w₁ ≡ done ([], true) w₂)
    × (Handle.wait h w₂ ≡ done (TaskResult.returned (num 11)) w₃)
record_chain-runs_example =
    record_chain-runs 12 0 (num 1) (num 11) (add_five ∷ add_five ∷ []) world refl

-- The option of a result, or of the error's handler, and then five more than what is in it.
abbrev late : TypedChain (Shape.result (Shape.option Shape.number) Shape.string) Shape.number
late = TypedChain.next (TypedCommand.unwrap_ok_or_else (λ _. Answer.gives (some 2))) (
    TypedChain.next TypedCommand.unwrap (
      TypedChain.next (TypedCommand.function (λ n. Answer.gives (n + 5)))
        (TypedChain.next TypedCommand.print TypedChain.stop)))

record_calls-meaning_all_example :
    (h : TaskHandle) × (ts : List Task) × (s : Shared) × (w₁ w₂ w₃ : World) × (record_calls unbaked
        (Outcome.returns (err_value (text "late")))
        late
        (shared [] [] 12 1)
        world
      ≡ done ((h, ts), s) w₁)
    × ((run_pass 1 ts w₁ ≡ done ([], true) w₂)
        × (Handle.wait h w₂ ≡ done (TaskResult.returned (num 7)) w₃))
record_calls-meaning_all_example =
    record_calls-meaning_all late (Answer.gives (Result.err "late")) 12 0 0 world

abbrev chain_of : List Task → Chain.TaskChain
chain_of ts = record { tasks = ts; controllers = [] }

abbrev two_chains : List (ℕ × ℕ) → RawCommandBuffer
two_chains links = record {
  tasks = chain_of (task 1 9 ∷ task 2 9 ∷ []) ∷ chain_of (task 3 9 ∷ []) ∷ [];
  chain_links = links;
  fences = (1, 30) ∷ [];
  group = 1;
  signal = 12;
}

-- One command was recorded.
abbrev one_chain : Shared
one_chain = shared (task 1 9 ∷ []) [] 12 2

abbrev first_handle : TaskHandle
first_handle = record { inner = 10; state = 1; signal = 11 }

finish_lem_example :
    Guarded
      (λ out _. IsBaked (two_chains ((0, 1) ∷ [])) out)
      true
      (finish (two_chains ((0, 1) ∷ [])) world)
finish_lem_example = finish_lem (two_chains ((0, 1) ∷ [])) world

add_sync_command-last_chain_example :
    (c₁ c₂ : BufferedCommand) × (s₁ s₂ s₃ : Shared) × (w₁ w₂ : World) × (t₁ t₂ : Task)
    × (Command.start_sync_command unbaked (Outcome.returns (num 2)) one_chain world
        ≡ done (c₁, s₁) w₁)
    × (Command.add_sync_command (command first_handle) add_five s₁ w₁ ≡ done (c₂, s₂) w₂)
    × (t₂.inner ≡ continuing add_five c₂.response.inner c₂.response.state first_handle)
    × (s₂.raw.tasks
        ≡ chain_of (task 1 9 ∷ [])
          ∷ record {
            tasks = t₁ ∷ t₂ ∷ [];
            controllers =
                Handle.make_controller c₁.response ∷ Handle.make_controller c₂.response ∷ [];
          }
          ∷ [])
    × (Command.response c₂ s₂ w₂
        ≡ done
            (
              (
                c₂.response,
                Handle.make_controller c₁.response ∷ Handle.make_controller c₂.response ∷ [],
              ),
              s₃,
            )
            w₂)
add_sync_command-last_chain_example =
    add_sync_command-last_chain first_handle (Outcome.returns (num 2)) add_five one_chain
      (chain_of (task 1 9 ∷ [])) world refl refl (omega arith)

abbrev threaded_queue : Queue
threaded_queue = record inline_queue {
  specs = record { thread_count = 3; workers_per_thread = 2 };
  threads = threads;
}

abbrev baked : CommandBuffer
baked = record { baked = some (task 1 9 ∷ task 2 9 ∷ []) }

abbrev buffers : List (CommandBuffer × Shared)
buffers =
    (baked, shared [] [] 12 1) ∷ (unbaked, shared [] [] 12 1) ∷ (baked, shared [] [] 12 1) ∷ []

submit_command_buffers_lem_example :
    submit_command_buffers 5 3 buffers threaded_queue world
    ≡ (push_all (task 1 9 ∷ task 2 9 ∷ []) threaded_queue, unwinds Command.not_baked world)
submit_command_buffers_lem_example =
    submit_command_buffers_lem 5 3 buffers threaded_queue world refl

-- A new buffer after one clone.
abbrev made : Shared
made = shared [] [] 12 1

abbrev cloned : Held
cloned = record { copies = unbaked ∷ unbaked ∷ []; shared = record made { refs = 2 } }

cloned-Reach : Reach (record { copies = unbaked ∷ []; shared = made }) cloned
unfolding Command.clone
cloned-Reach =
    Reach.next Reach.here (omega arith)
      (Step.clones unbaked [] world refl (unbaked, world, refl, refl))

Reach-new-IsCounted_example : IsCounted (unbaked ∷ unbaked ∷ []) (record made { refs = 2 })
unfolding Command.new
Reach-new-IsCounted_example =
    Reach-new-IsCounted false false 12 unbaked made cloned refl cloned-Reach

record_chain-panics_example :
    (h : TaskHandle) × (ts : List Task) × (s : Shared) × (w₁ w₂ : World) × (record_chain unbaked
        (Outcome.returns (text "one"))
        (add_five ∷ add_five ∷ [])
        (shared [] [] 12 1)
        world
      ≡ done ((h, ts), s) w₁)
    × (run_all 3 1 ts w₁ ≡ unwinds (text "not a number") w₂)
record_chain-panics_example =
    record_chain-panics 12 2 0 (Outcome.returns (text "one")) (text "not a number")
      (add_five ∷ add_five ∷ []) world refl
