-- ===== src/Buffer/Commands/Sound.antt =====
-- Chains of the commands of src/command_buffers/commands.rs compute what the methods on the values of their types do.
use mvsync.Base.{none, some, List, [], ◌∷◌, String, ◌≡◌, refl, ap, ◌∙◌}
use mathlib.Core.Option
use mvsync.World.{Value, unit, text}
use mvsync.Exec.{◌>>=◌, pure}
use mvsync.Task.Body.{Outcome}
use mvsync.Buffer.Command
use mvsync.Buffer.Command.{CommandBuffer, BufferedCommand, Uses, add_sync_command}
use mvsync.Buffer.Pipeline.{pipe, and_call}
use mvsync.Buffer.Calls.{add_all, record_chain}
use mvsync.Buffer.Commands
use mvsync.Buffer.Commands.{option_or, result_or}
use mvsync.Buffer.Commands.UnwrapOk
use mvsync.Buffer.Commands.UnwrapErr
use mvsync.Buffer.Commands.Typed.{
  Shape, Meaning, Result, Answer, TypedCommand, TypedChain, encode, decode, encoded, lift, call,
  call_all, record_calls,
}
use mvsync.Buffer.Commands.Denotation.{meaning, meaning_all, and_answer}

-- The function that a command chains.
abbrev panics_with : String → Outcome
panics_with msg = Outcome.panics (text msg)

abbrev pub function_of : {a b : Shape} → TypedCommand a b → Value → Outcome
function_of (TypedCommand.function {a} {b} f) = lift a b f
function_of TypedCommand.end = λ _. Outcome.returns unit
function_of TypedCommand.print = Outcome.returns
function_of TypedCommand.debug = Outcome.returns
function_of TypedCommand.dbg = Outcome.returns
function_of TypedCommand.unwrap = option_or (Outcome.panics Commands.none_message)
function_of (TypedCommand.unwrap_or {a} d) = option_or (Outcome.returns (encode a d))
function_of (TypedCommand.unwrap_or_else {a} d) = option_or (encoded a d)
function_of (TypedCommand.expect msg) = option_or (panics_with msg)
function_of TypedCommand.unwrap_ok =
    result_or Outcome.returns (λ _. panics_with "called `Result::unwrap()` on an `Err` value")
function_of (TypedCommand.unwrap_ok_or {a} {e} d) =
    result_or Outcome.returns (λ _. Outcome.returns (encode a d))
function_of (TypedCommand.unwrap_ok_or_else {a} {e} d) = result_or Outcome.returns (lift e a d)
function_of (TypedCommand.expect_ok msg) = result_or Outcome.returns (λ _. panics_with msg)
function_of TypedCommand.unwrap_err =
    result_or (λ _. panics_with "called `Result::unwrap_err()` on an `Ok` value") Outcome.returns
function_of (TypedCommand.expect_err msg) = result_or (λ _. panics_with msg) Outcome.returns

abbrev pub functions : {a b : Shape} → TypedChain a b → List (Value → Outcome)
functions TypedChain.stop = []
functions (TypedChain.next m ms) = function_of m ∷ functions ms

call-function_of :
    {a b : Shape} (m : TypedCommand a b) → call m ≡ λ c. add_sync_command c (function_of m)
unfolding call Commands.end Commands.print Commands.debug Commands.dbg Commands.unwrap
    Commands.unwrap_or Commands.unwrap_or_else Commands.expect UnwrapOk.unwrap UnwrapOk.unwrap_or
    UnwrapOk.unwrap_or_else UnwrapOk.expect UnwrapErr.unwrap_err UnwrapErr.expect_err
call-function_of (TypedCommand.function f) = refl
call-function_of TypedCommand.end = refl
call-function_of TypedCommand.print = refl
call-function_of TypedCommand.debug = refl
call-function_of TypedCommand.dbg = refl
call-function_of TypedCommand.unwrap = refl
call-function_of (TypedCommand.unwrap_or d) = refl
call-function_of (TypedCommand.unwrap_or_else d) = refl
call-function_of (TypedCommand.expect msg) = refl
call-function_of TypedCommand.unwrap_ok = refl
call-function_of (TypedCommand.unwrap_ok_or d) = refl
call-function_of (TypedCommand.unwrap_ok_or_else d) = refl
call-function_of (TypedCommand.expect_ok msg) = refl
call-function_of TypedCommand.unwrap_err = refl
call-function_of (TypedCommand.expect_err msg) = refl

call_all-functions : {a b : Shape} (ms : TypedChain a b) → call_all ms ≡ add_all (functions ms)
unfolding call_all add_all
call_all-functions TypedChain.stop = refl
call_all-functions (TypedChain.next m ms) =
    ap
      (λ (g : BufferedCommand → Uses BufferedCommand).
        λ c s. g c s >>= λ (c', s'). call_all ms c' s')
      (call-function_of m)
    ∙ ap
        (λ (g : BufferedCommand → Uses BufferedCommand).
          λ c s. add_sync_command c (function_of m) s >>= λ (c', s'). g c' s')
        (call_all-functions ms)

pub record_calls-record_chain :
    {a b : Shape} (buffer : CommandBuffer) (f : Outcome) (ms : TypedChain a b)
    → record_calls buffer f ms ≡ record_chain buffer f (functions ms)
unfolding record_calls record_chain
record_calls-record_chain buffer f ms =
    ap
      (λ (g : BufferedCommand → Uses BufferedCommand). λ s.
        Command.start_sync_command buffer f s >>= λ (c, s₁). g c s₁ >>= λ (c', s₂).
        Command.response c' s₂ >>= λ ((h, ks), s₃). Command.finish buffer s₃ >>= λ (b', s₄).
        Command.tasks b' s₄ >>= λ (ts, s₅). pure ((h, ts), s₅))
      (call_all-functions ms)

decode-encode : (a : Shape) (x : Meaning a) → decode a (encode a x) ≡ some x
decode-encode Shape.nothing tt = refl
decode-encode Shape.number n = refl
decode-encode Shape.string s = refl
decode-encode (Shape.option a) none = refl
decode-encode (Shape.option a) (some x) = ap (Option.map some) (decode-encode a x)
decode-encode (Shape.result a e) (Result.ok x) = ap (Option.map Result.ok) (decode-encode a x)
decode-encode (Shape.result a e) (Result.err x) = ap (Option.map Result.err) (decode-encode e x)

lift-encode :
    (a b : Shape) (f : Meaning a → Answer (Meaning b)) (x : Meaning a)
    → lift a b f (encode a x) ≡ encoded b (f x)
lift-encode a b f x = rw (decode-encode a x, lift) refl

function_of-meaning :
    {a b : Shape} (m : TypedCommand a b) (x : Meaning a)
    → function_of m (encode a x) ≡ encoded b (meaning m x)
function_of-meaning (TypedCommand.function {a} {b} f) x = lift-encode a b f x
function_of-meaning TypedCommand.end x = refl
function_of-meaning TypedCommand.print x = refl
function_of-meaning TypedCommand.debug x = refl
function_of-meaning TypedCommand.dbg x = refl
function_of-meaning TypedCommand.unwrap none = refl
function_of-meaning TypedCommand.unwrap (some x) = refl
function_of-meaning (TypedCommand.unwrap_or d) none = refl
function_of-meaning (TypedCommand.unwrap_or d) (some x) = refl
function_of-meaning (TypedCommand.unwrap_or_else d) none = refl
function_of-meaning (TypedCommand.unwrap_or_else d) (some x) = refl
function_of-meaning (TypedCommand.expect msg) none = refl
function_of-meaning (TypedCommand.expect msg) (some x) = refl
function_of-meaning TypedCommand.unwrap_ok (Result.ok x) = refl
function_of-meaning TypedCommand.unwrap_ok (Result.err e) = refl
function_of-meaning (TypedCommand.unwrap_ok_or d) (Result.ok x) = refl
function_of-meaning (TypedCommand.unwrap_ok_or d) (Result.err e) = refl
function_of-meaning (TypedCommand.unwrap_ok_or_else d) (Result.ok x) = refl
function_of-meaning (TypedCommand.unwrap_ok_or_else {a} {e} d) (Result.err x) = lift-encode e a d x
function_of-meaning (TypedCommand.expect_ok msg) (Result.ok x) = refl
function_of-meaning (TypedCommand.expect_ok msg) (Result.err e) = refl
function_of-meaning TypedCommand.unwrap_err (Result.ok x) = refl
function_of-meaning TypedCommand.unwrap_err (Result.err e) = refl
function_of-meaning (TypedCommand.expect_err msg) (Result.ok x) = refl
function_of-meaning (TypedCommand.expect_err msg) (Result.err e) = refl

and_call-encoded :
    (b c : Shape) (r : Answer (Meaning b)) (g : Value → Outcome)
    (k : Meaning b → Answer (Meaning c))
    → ((y : Meaning b) → g (encode b y) ≡ encoded c (k y))
    → and_call (encoded b r) g ≡ encoded c (and_answer r k)
and_call-encoded b c (Answer.gives y) g k same = same y
and_call-encoded b c (Answer.fails p) g k same = refl

pipe-meaning_all :
    {a b : Shape} (ms : TypedChain a b) (x : Meaning a)
    → pipe (encode a x) (functions ms) ≡ encoded b (meaning_all ms x)
pipe-meaning_all TypedChain.stop x = refl
pipe-meaning_all (TypedChain.next {a} {b} {c} m ms) x =
    ap (λ o. and_call o (λ v. pipe v (functions ms))) (function_of-meaning m x)
    ∙ and_call-encoded b c (meaning m x) (λ v. pipe v (functions ms)) (meaning_all ms)
        (pipe-meaning_all ms)

-- Behind a first function that gives `first`.
pub and_call-meaning_all :
    {a b : Shape} (ms : TypedChain a b) (first : Answer (Meaning a))
    → and_call (encoded a first) (λ v. pipe v (functions ms))
      ≡ encoded b (and_answer first (meaning_all ms))
and_call-meaning_all {a} {b} ms first =
    and_call-encoded a b first (λ v. pipe v (functions ms)) (meaning_all ms) (pipe-meaning_all ms)
