-- ===== src/Tests/Chained.antt =====
-- The theorems on a queue of one thread at chains of which one function panics.
use mvsync.Base.{true, none, [], ◌∷◌, ◌≡◌, refl, List, arith}
use mvsync.World.{World, Value, unit, num, none_value, ok_value}
use mvsync.Exec.{done}
use mvsync.Task.Body.{Outcome}
use mvsync.Task.{Task}
use mvsync.Task.Handle
use mvsync.Task.Handle.{TaskHandle, TaskResult}
use mvsync.Buffer.Commands.Typed.{Shape, Result, Answer, TypedCommand, TypedChain, record_calls}
use mvsync.Queue.Typed.{alternate-record_calls}
use mvsync.Buffer.Command.{Shared}
use mvsync.Buffer.Calls.{unbaked, shared, record_chain}
use mvsync.Queue.Recorded.{alternate-record_chain}
use mvsync.Buffer.Pipeline.{and_call, pipe}
use mvsync.Queue
use mvsync.Queue.{Queue}
use mvsync.Queue.Single.{alternate, IsIdle}
use mvsync.Queue.Stepped.{told}
use mvsync.MvSync.{create_task}
use mvsync.MvSync.Chained.{create_continuations, alternate-create_continuations}
use mvsync.Tests.Data.{world, thread, specs}

abbrev queue : Queue
queue = record {
  channel = [];
  connected = true;
  signal = 12;
  specs = specs;
  threads = thread 2 ∷ [];
  tasks = [];
}

abbrev functions : List (Value → Outcome)
functions = Outcome.returns ∷ (λ v. Outcome.panics v) ∷ Outcome.returns ∷ []

queue-IsIdle : IsIdle queue (thread 2)
queue-IsIdle = record {
  threaded = omega arith;
  no_channel = refl;
  at_hand = refl;
  only = refl;
  no_tasks = refl;
  no_futures = refl;
  live = refl;
  connected = refl;
  more = omega arith;
  few = omega arith;
}

alternate-create_continuations_example :
    let ((t, h), w₀) = create_task 12 (Outcome.returns (num 7)) world in
    let ((ts, l), w₁) = create_continuations 12 functions h w₀ in
    (q₁ q₂ : Queue) × (w₂ w₃ w₄ : World) × (Queue.submit_all 9 9 (t ∷ ts) queue w₁ ≡ done q₁ w₂)
    × (alternate 4 q₁ w₂ ≡ done q₂ w₃)
    × (q₂.channel ≡ [])
    × (q₂.tasks ≡ [])
    × (Handle.wait l w₃
        ≡ done (told (and_call (Outcome.returns (num 7)) (λ x. pipe x functions))) w₄)
alternate-create_continuations_example =
    alternate-create_continuations queue (thread 2) 9 9 (Outcome.returns (num 7)) functions world
      queue-IsIdle

alternate-record_chain_example :
    (h : TaskHandle) × (ts : List Task) × (s : Shared) × (q₁ q₂ : Queue) × (w₁ w₂ w₃ w₄ : World)
    × (record_chain unbaked (Outcome.returns (num 7)) functions (shared [] [] 12 1) world
        ≡ done ((h, ts), s) w₁)
    × (s.freed ≡ true)
    × (Queue.submit_all 9 9 ts queue w₁ ≡ done q₁ w₂)
    × (alternate 4 q₁ w₂ ≡ done q₂ w₃)
    × (q₂.channel ≡ [])
    × (q₂.tasks ≡ [])
    × (Handle.wait h w₃
        ≡ done (told (and_call (Outcome.returns (num 7)) (λ x. pipe x functions))) w₄)
alternate-record_chain_example =
    alternate-record_chain queue (thread 2) 9 9 (Outcome.returns (num 7)) functions world
      queue-IsIdle

-- The value of a result, then the one of an option; there is none.
abbrev commands : TypedChain (Shape.result (Shape.option Shape.number) Shape.string) Shape.number
commands =
    TypedChain.next TypedCommand.unwrap_ok
      (TypedChain.next TypedCommand.unwrap (TypedChain.next TypedCommand.print TypedChain.stop))

alternate-record_calls_example :
    (h : TaskHandle) × (ts : List Task) × (s : Shared) × (q₁ q₂ : Queue) × (w₁ w₂ w₃ w₄ : World)
    × (record_calls unbaked
          (Outcome.returns (ok_value none_value))
          commands
          (shared [] [] 12 1)
          world
        ≡ done ((h, ts), s) w₁)
    × (Queue.submit_all 9 9 ts queue w₁ ≡ done q₁ w₂)
    × (alternate 4 q₁ w₂ ≡ done q₂ w₃)
    × (q₂.channel ≡ [])
    × (q₂.tasks ≡ [])
    × (Handle.wait h w₃ ≡ done (TaskResult.panicked unit) w₄)
alternate-record_calls_example =
    alternate-record_calls commands (Answer.gives (Result.ok none)) queue (thread 2) 9 9 world
      queue-IsIdle
