-- ===== src/Queue/Typed.antt =====
-- Chains of the commands of src/command_buffers/commands.rs on a queue of one thread.
use mvsync.Base.{ℕ, suc, List, [], ◌≡◌, ap, ◌∙◌, length, refl}
use mvsync.World.{World, unit}
use mvsync.Exec.{done}
use mvsync.Task.{Task}
use mvsync.Task.Handle
use mvsync.Task.Handle.{TaskHandle, TaskResult}
use mvsync.Buffer.Command.{Shared}
use mvsync.Buffer.Calls.{unbaked, shared}
use mvsync.Buffer.Commands.Typed.{Shape, Meaning, Answer, TypedChain, encode, encoded, record_calls}
use mvsync.Buffer.Commands.Denotation.{meaning_all, and_answer}
use mvsync.Buffer.Commands.Sound.{functions, and_call-meaning_all, record_calls-record_chain}
use mvsync.Worker.{WorkerThread}
use mvsync.Queue
use mvsync.Queue.{Queue}
use mvsync.Queue.Recorded.{alternate-record_chain}
use mvsync.Queue.Single.{IsIdle, alternate}
use mvsync.Queue.Stepped.{told}

-- What a handle gives: the value, or a panic whose payload is the unit.
abbrev pub result_of_answer : (b : Shape) → Answer (Meaning b) → TaskResult
result_of_answer b (Answer.gives y) = TaskResult.returned (encode b y)
result_of_answer b (Answer.fails p) = TaskResult.panicked unit

told-encoded : (b : Shape) (r : Answer (Meaning b)) → told (encoded b r) ≡ result_of_answer b r
told-encoded b (Answer.gives y) = refl
told-encoded b (Answer.fails p) = refl

-- A chain of commands is recorded on a new command buffer, behind a first function of the type that the first
-- command takes, and submitted to a queue with nothing at hand and one thread, which nobody has ended, which
-- has nothing to do, and which has a free worker. As many turns of the queue as there are tasks, each of which
-- is followed by one of the thread, leave no task with the queue. The handle of the chain then gives what the
-- methods of `Option` and `Result` and the user's functions, one after the other, compute on the values of
-- their types: their value, or, if one of them panics, a panic whose payload is the unit.
pub alternate-record_calls :
    {a b : Shape} (ms : TypedChain a b) (first : Answer (Meaning a)) (q : Queue) (c : WorkerThread)
    (rounds fuel : ℕ) (w : World)
    → IsIdle q c
    → (h : TaskHandle) × (ts : List Task) × (s : Shared) × (q₁ q₂ : Queue) × (w₁ w₂ w₃ w₄ : World)
      × (record_calls unbaked (encoded a first) ms (shared [] [] q.signal 1) w
          ≡ done ((h, ts), s) w₁)
      × (Queue.submit_all rounds fuel ts q w₁ ≡ done q₁ w₂)
      × (alternate (suc (length (functions ms))) q₁ w₂ ≡ done q₂ w₃)
      × (q₂.channel ≡ [])
      × (q₂.tasks ≡ [])
      × (Handle.wait h w₃ ≡ done (result_of_answer b (and_answer first (meaning_all ms))) w₄)
alternate-record_calls {a} {b} ms first q c rounds fuel w idle =
    let (h, ts, m, q₁, q₂, w₁, w₂, w₃, w₄, records, _, submits, runs, empty, none_left, waits) =
      alternate-record_chain q c rounds fuel (encoded a first) (functions ms) w idle in
    let answer = and_answer first (meaning_all ms) in
    (
      h,
      ts,
      m,
      q₁,
      q₂,
      w₁,
      w₂,
      w₃,
      w₄,
      ap (λ r. r (shared [] [] q.signal 1) w)
            (record_calls-record_chain unbaked (encoded a first) ms)
          ∙ records,
      submits,
      runs,
      empty,
      none_left,
      waits ∙ ap (λ r. done r w₄) (ap told (and_call-meaning_all ms first) ∙ told-encoded b answer),
    )
