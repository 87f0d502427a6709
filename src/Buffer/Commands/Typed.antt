-- ===== src/Buffer/Commands/Typed.antt =====
-- The commands of src/command_buffers/commands.rs with the types of what they take and give, and chains of
-- them as a user writes them.
use mvsync.Base.{ℕ, Option, none, some, List, String}
use mathlib.Core.Option
use mvsync.World.{Value, unit, num, text, none_value, some_value, ok_value, err_value}
use mvsync.Exec.{◌>>=◌, pure}
use mvsync.Task.{Task}
use mvsync.Task.Body.{Outcome}
use mvsync.Task.Handle.{TaskHandle}
use mvsync.Buffer.Command
use mvsync.Buffer.Command.{CommandBuffer, BufferedCommand, Uses, add_sync_command}
use mvsync.Buffer.Commands
use mvsync.Buffer.Commands.UnwrapOk
use mvsync.Buffer.Commands.UnwrapErr

pub data Shape : Type 0 where
  nothing : Shape
  number : Shape
  string : Shape
  option : Shape → Shape
  result : Shape → Shape → Shape

pub data Result (A E : Type 0) : Type 0 where
  ok : A → Result A E
  err : E → Result A E

-- The values of a type, and how the model's values represent them.
abbrev pub Meaning : Shape → Type 0
Meaning Shape.nothing = Unit {0}
Meaning Shape.number = ℕ
Meaning Shape.string = String
Meaning (Shape.option a) = Option (Meaning a)
Meaning (Shape.result a e) = Result (Meaning a) (Meaning e)

abbrev pub encode : (a : Shape) → Meaning a → Value
encode Shape.nothing _ = unit
encode Shape.number n = num n
encode Shape.string s = text s
encode (Shape.option a) none = none_value
encode (Shape.option a) (some x) = some_value (encode a x)
encode (Shape.result a e) (Result.ok x) = ok_value (encode a x)
encode (Shape.result a e) (Result.err x) = err_value (encode e x)

abbrev pub decode : (a : Shape) → Value → Option (Meaning a)
decode Shape.nothing unit = some tt
decode Shape.number (num n) = some n
decode Shape.string (text s) = some s
decode (Shape.option a) none_value = some none
decode (Shape.option a) (some_value v) = Option.map some (decode a v)
decode (Shape.result a e) (ok_value v) = Option.map Result.ok (decode a v)
decode (Shape.result a e) (err_value v) = Option.map Result.err (decode e v)
decode _ _ = none

-- A function gives a value or panics with a payload.
pub data Answer (A : Type 0) : Type 0 where
  gives : A → Answer A
  fails : Value → Answer A

abbrev pub encoded : (a : Shape) → Answer (Meaning a) → Outcome
encoded a (Answer.gives x) = Outcome.returns (encode a x)
encoded a (Answer.fails p) = Outcome.panics p

-- A user's function on the model's values. Those that are not of its type do not come up.
abbrev pub lift : (a b : Shape) → (Meaning a → Answer (Meaning b)) → Value → Outcome
lift a b f v = elim (decode a v) [
  | none ↦ Outcome.panics (text "ill typed")
  | some x ↦ encoded b (f x)
]

-- The trait methods, and `add_sync_command` with a function of the user's.
pub data TypedCommand : Shape → Shape → Type 0 where
  function : {a b : Shape} (f : Meaning a → Answer (Meaning b)) → TypedCommand a b
  end : {a : Shape} → TypedCommand a Shape.nothing
  print debug dbg : {a : Shape} → TypedCommand a a
  unwrap : {a : Shape} → TypedCommand (Shape.option a) a
  unwrap_or : {a : Shape} (default : Meaning a) → TypedCommand (Shape.option a) a
  unwrap_or_else : {a : Shape} (default : Answer (Meaning a)) → TypedCommand (Shape.option a) a
  expect : {a : Shape} → String → TypedCommand (Shape.option a) a
  unwrap_ok : {a e : Shape} → TypedCommand (Shape.result a e) a
  unwrap_ok_or : {a e : Shape} (default : Meaning a) → TypedCommand (Shape.result a e) a
  unwrap_ok_or_else :
      {a e : Shape} (default : Meaning e → Answer (Meaning a)) → TypedCommand (Shape.result a e) a
  expect_ok : {a e : Shape} → String → TypedCommand (Shape.result a e) a
  unwrap_err : {a e : Shape} → TypedCommand (Shape.result a e) e
  expect_err : {a e : Shape} → String → TypedCommand (Shape.result a e) e

pub data TypedChain : Shape → Shape → Type 0 where
  stop : {a : Shape} → TypedChain a a
  next : {a b c : Shape} → TypedCommand a b → TypedChain b c → TypedChain a c

-- The method that is called.
unfoldable pub call : {a b : Shape} → TypedCommand a b → BufferedCommand → Uses BufferedCommand
unfolding add_sync_command Commands.end
call (TypedCommand.function {a} {b} f) c = add_sync_command c (lift a b f)
call TypedCommand.end c = Commands.end c
call TypedCommand.print c = Commands.print c
call TypedCommand.debug c = Commands.debug c
call TypedCommand.dbg c = Commands.dbg c
call TypedCommand.unwrap c = Commands.unwrap c
call (TypedCommand.unwrap_or {a} d) c = Commands.unwrap_or (encode a d) c
call (TypedCommand.unwrap_or_else {a} d) c = Commands.unwrap_or_else (encoded a d) c
call (TypedCommand.expect msg) c = Commands.expect msg c
call TypedCommand.unwrap_ok c = UnwrapOk.unwrap c
call (TypedCommand.unwrap_ok_or {a} {e} d) c = UnwrapOk.unwrap_or (encode a d) c
call (TypedCommand.unwrap_ok_or_else {a} {e} d) c = UnwrapOk.unwrap_or_else (lift e a d) c
call (TypedCommand.expect_ok msg) c = UnwrapOk.expect msg c
call TypedCommand.unwrap_err c = UnwrapErr.unwrap_err c
call (TypedCommand.expect_err msg) c = UnwrapErr.expect_err msg c

unfoldable pub call_all : {a b : Shape} → TypedChain a b → BufferedCommand → Uses BufferedCommand
unfolding call
call_all TypedChain.stop c s = pure (c, s)
call_all (TypedChain.next m ms) c s = call m c s >>= λ (c', s'). call_all ms c' s'

-- A chain from its first function on, up to the tasks that are submitted and the handle of the last.
unfoldable pub record_calls :
    {a b : Shape} → CommandBuffer → Outcome → TypedChain a b → Uses (TaskHandle × List Task)
unfolding Command.start_sync_command Command.response Command.finish Command.tasks call_all
record_calls b f ms s = Command.start_sync_command b f s >>= λ (c, s₁).
    call_all ms c s₁ >>= λ (c', s₂). Command.response c' s₂ >>= λ ((h, ks), s₃).
    Command.finish b s₃ >>= λ (b', s₄). Command.tasks b' s₄ >>= λ (ts, s₅). pure ((h, ts), s₅)
