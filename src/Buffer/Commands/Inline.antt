-- ===== src/Buffer/Commands/Inline.antt =====
-- Chains of the commands of src/command_buffers/commands.rs on a queue without threads.
use mvsync.Base.{ℕ, suc, true, [], ◌≡◌, ap, ◌∙◌, List}
use mvsync.World.{World}
use mvsync.Exec.{Exec, done, unwinds}
use mvsync.Task.{Task}
use mvsync.Task.Body.{Outcome}
use mvsync.Task.Handle
use mvsync.Task.Handle.{TaskHandle, TaskResult}
use mvsync.Run.{run_all, run_pass}
use mvsync.Buffer.Command.{Shared}
use mvsync.Buffer.Calls.{record_chain, unbaked, shared}
use mvsync.Buffer.Pipeline.{pipe, and_call}
use mvsync.Buffer.Record.{record_chain-runs, record_chain-panics}
use mvsync.Buffer.Commands.Typed.{Shape, Meaning, Answer, TypedChain, encode, encoded, record_calls}
use mvsync.Buffer.Commands.Denotation.{meaning_all, and_answer}
use mvsync.Buffer.Commands.Sound.{functions, and_call-meaning_all, record_calls-record_chain}

-- The tasks run to their end in one round, and the handle then gives the value; or they unwind with the panic.
abbrev pub ComesTo :
    (b : Shape)
    → Answer (Meaning b)
    → ℕ
    → ℕ
    → TaskHandle
    → List Task
    → World
    → World
    → World
    → Type 0
ComesTo b (Answer.gives y) rounds fuel h ts w₁ w₂ w₃ =
    (run_pass (suc fuel) ts w₁ ≡ done ([], true) w₂)
    × (Handle.wait h w₂ ≡ done (TaskResult.returned (encode b y)) w₃)
ComesTo b (Answer.fails p) rounds fuel h ts w₁ w₂ w₃ =
    run_all (suc rounds) (suc fuel) ts w₁ ≡ unwinds p w₂

-- A chain of commands is recorded on a new command buffer, behind a first function of the type that the first
-- command takes, and run on a queue without threads. It computes what the methods of `Option` and `Result`
-- and the user's functions do on the values of their types, one after the other: if they give a value, the
-- tasks run to their end in one round and the handle of the chain gives that value; if one of them panics,
-- the run unwinds with the payload of the first that does.
pub record_calls-meaning_all :
    {a b : Shape} (ms : TypedChain a b) (first : Answer (Meaning a)) (q rounds fuel : ℕ) (w : World)
    → (h : TaskHandle) × (ts : List Task) × (s : Shared) × (w₁ w₂ w₃ : World) × (record_calls
          unbaked
          (encoded a first)
          ms
          (shared [] [] q 1)
          w
        ≡ done ((h, ts), s) w₁)
      × ComesTo b (and_answer first (meaning_all ms)) rounds fuel h ts w₁ w₂ w₃
record_calls-meaning_all {a} {b} ms first q rounds fuel w =
    from first (and_answer first (meaning_all ms)) (and_call-meaning_all ms first)
  where
    recorded :
        (o : Outcome) {r : Exec ((TaskHandle × List Task) × Shared)}
        → record_chain unbaked o (functions ms) (shared [] [] q 1) w ≡ r
        → record_calls unbaked o ms (shared [] [] q 1) w ≡ r
    recorded o e = ap (λ r. r (shared [] [] q 1) w) (record_calls-record_chain unbaked o ms) ∙ e

    from :
        (first : Answer (Meaning a)) (answer : Answer (Meaning b))
        → and_call (encoded a first) (λ v. pipe v (functions ms)) ≡ encoded b answer
        → (h : TaskHandle) × (ts : List Task) × (s : Shared) × (w₁ w₂ w₃ : World) × (record_calls
              unbaked
              (encoded a first)
              ms
              (shared [] [] q 1)
              w
            ≡ done ((h, ts), s) w₁)
          × ComesTo b answer rounds fuel h ts w₁ w₂ w₃
    from (Answer.gives x) (Answer.gives y) e =
        let (h, ts, s, w₁, w₂, w₃, records, _, runs, waits) =
          record_chain-runs q fuel (encode a x) (encode b y) (functions ms) w e in
        (h, ts, s, w₁, w₂, w₃, recorded (Outcome.returns (encode a x)) records, (runs, waits))
    from (Answer.fails p) (Answer.gives y) e = cc
    from f (Answer.fails p) e =
        let (h, ts, s, w₁, w₂, records, fails) =
          record_chain-panics q rounds fuel (encoded a f) p (functions ms) w e in
        (h, ts, s, w₁, w₂, w₂, recorded (encoded a f) records, fails)
